-- ===== src/Remote/Examples.antt =====
-- The theorems on sends and answers, for the sample graph.
use leda.Prelude.{◌+◌, ◌%◌, ◌<◌, ◌≡◌, refl, List, [], ◌∷◌, ℕ, arith}
use leda.Prelude.Int.{pos}
use leda.Remote.{next_destination, after_sends}
use leda.Remote.RoundRobin.{round_robin}

round_robin_example :
    ((next_destination 3 (after_sends 3 4 (record { i = pos 1 }))).0 ≡ pos ((1 + 4) % 3))
    × ((1 + 4) % 3 < 3)
round_robin_example = round_robin 3 1 4 (record { i = pos 1 }) (omega arith) refl

abbrev bytes : List ℕ
bytes = 7 ∷ 8 ∷ 9 ∷ []
