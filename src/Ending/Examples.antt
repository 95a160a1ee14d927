-- ===== src/Ending/Examples.antt =====
-- Two processes, each with a socket that is kept.
use leda.Prelude.{ℕ, ◌<◌, ◌≡◌, [], ◌∷◌}
use leda.Prelude.Int.{pos}
use leda.Kernel.{Net}
use leda.Instance.Samples.{idle_net}
use leda.Ending.{leda_event_end_t, leda_event_end_t-closed}

abbrev linked : Net
linked = record idle_net { sockets = λ d. record { items = pos 7 ∷ pos 8 ∷ []; capacity = pos 4 } }

leda_event_end_t-closed_example :
    ((leda_event_end_t 2 linked).closed ≡ pos 7 ∷ pos 8 ∷ pos 7 ∷ pos 8 ∷ [])
    × ((d : ℕ) → d < 2 → ((leda_event_end_t 2 linked).sockets d).items ≡ [])
leda_event_end_t-closed_example = leda_event_end_t-closed 2 linked
