-- ===== src/Scheduler/Send.antt =====
-- `leda_send` of src/kernel/kernel.c, with which the main program sends an event to a stage.
use leda.Prelude.{
  ℕ, ◌<◌, ◌≡◌, refl, ◌≢◌, true, false, Option, none, some, List, [], ◌∷◌, ltb, lt→ltb,
  if◌then◌else◌, arith,
}
use leda.Prelude.Int.{ℤ, pos, negsuc}
use leda.Lua.{Value, nil, number, nil_and, to_integer}
use leda.Event.{copy_each, extract_event}
use leda.Kernel.{Instance, Kernel, ok, fault, M, pure, ◌>>=◌}
use leda.Instance.{load_error, slot_at, instance_aquire}
use leda.Instance.Places.{Pool, Ensures, then-Ensures}
use leda.Instance.Places.Release.{Sleeps}
use leda.Scheduler.{Platform, emmit}
use leda.Scheduler.Sends.{Sent, emmit_local-Pool}

-- `lua_call` with two results.
abbrev pub two_values : Option (List Value) → Option (List Value)
two_values none = none
two_values (some []) = some (nil ∷ nil ∷ [])
two_values (some (a ∷ [])) = some (a ∷ nil ∷ [])
two_values (some (a ∷ b ∷ _)) = some (a ∷ b ∷ [])

-- The connector id is -1. The id test lets `n_s` itself pass.
abbrev pub send_to : Platform → ℤ → List Value → M (Option (List Value))
send_to p (negsuc n) values k = ok (some (nil_and "Invalid stage id")) k
send_to p (pos n) values k =
    if ltb k.n_s n
    then ok (some (nil_and "Invalid stage id")) k
    else (emmit p (number (pos n) ∷ number (negsuc 0) ∷ values) >>= λ r. pure (two_values r)) k

-- `leda_send`; with no argument at all it calls a number, which is a Lua error.
unfoldable pub leda_send : Platform → List Value → M (Option (List Value))
leda_send p [] = pure none
leda_send p (id ∷ values) = send_to p (to_integer id) values

two_values-some : (r : Option (List Value)) → r ≢ none → two_values r ≢ none
two_values-some none h e = h refl
two_values-some (some []) h e = cc
two_values-some (some (a ∷ [])) h e = cc
two_values-some (some (a ∷ b ∷ vs)) h e = cc

-- `leda_send` to a local stage of the graph, whose chunk loads, with values that can be copied and encoded, raises no error and never faults, and every stage's tables keep fitting; it sleeps only with an instance still held, for a place in the ready queue.
pub leda_send-Pool :
    (p : Platform) (s : ℕ) (values : List Value) (k : Kernel) (held : List Instance)
    → s < k.n_s
    → (k.slots s).local ≡ true
    → ((n : ℤ) → p.boot s n ≢ load_error)
    → copy_each p.marshal values ≢ none
    → extract_event p.marshal values ≢ none
    → Pool k held
    → Ensures (Sent held) (Sleeps held s) (leda_send p (number (pos s) ∷ values) k)
unfolding leda_send emmit slot_at
leda_send-Pool p s values k held lt local loads copies extracts fits =
    rw (not_above, lt→ltb _ _ lt, local)
      (then-Ensures (Sent held) (Sleeps held s) (Sent held) _ _
        (emmit_local-Pool p _ s (negsuc 0) values _ held lt tt loads copies extracts fits)
        (λ r k' sent. (two_values-some r sent.0, sent.1)))
  where
    not_above : ltb k.n_s s ≡ false
    not_above = ground arith

-- The number of stages is no stage id, but passes the tests of `leda_send` and `instance_aquire`: both read past the end of the tables.
pub n_s-faults :
    (p : Platform) (values : List Value) (k : Kernel)
    → (leda_send p (number (pos (k.n_s)) ∷ values) k ≡ fault)
      × (instance_aquire p.boot k.n_s k ≡ fault)
unfolding leda_send emmit slot_at instance_aquire
n_s-faults p values k = (rw at_end refl, rw at_end refl)
  where
    at_end : ltb k.n_s k.n_s ≡ false
    at_end = ground arith
