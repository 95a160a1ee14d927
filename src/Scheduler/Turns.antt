-- ===== src/Scheduler/Turns.antt =====
-- What a turn of a thread does with the instance that it resumed.
use leda.Prelude.{
  ℕ, suc, ◌<◌, ◌≤◌, length, ◌≡◌, ◌≢◌, subst, sym, true, Option, none, some, Option-cases, inl, inr,
  List, ◌∷◌, lt→ltb, arith,
}
use leda.Prelude.Int.{ℤ, pos, negsuc}
use leda.Lua.{Value, userdata, arg, to_integer}
use leda.Event.{copy_each, copy_values_directly}
use leda.Kernel.{Instance, Kernel, Run, ok, blocked, fault, and_then, pure}
use leda.Instance.{load_error, as_size, slot_at, instance_destroy}
use leda.Instance.Places.{busy, SlotOk, Pool, Ensures, then-Ensures}
use leda.Instance.Places.Pool.{Aquired, instance_destroy-Pool}
use leda.Instance.Places.Release.{Sleeps, Unpacks, instance_release-Pool}
use leda.Instance.Places.Frame.{SameGraph}
use leda.Remote.Wire.{frame}
use leda.Remote.Wire.Transfer.{room}
use leda.Remote.Sending.{InTurn, Out, send_async_event-Pool}
use leda.Wait.Held.{
  Given, resume-Pool, event_wait_io-Pool, event_sleep-Pool, event_do_file_aio-Pool,
}
use leda.Scheduler.{
  Platform, Status, ended, emmit_cohort_status, emmit_remote_status, wait_io_status, file_io, sleep,
  pcall_error, destroy, nice, unknown,
}
use leda.Scheduler.Sends.{never, aquired}
use leda.Scheduler.Turn.{
  count_cohort, cohort_to, emmit_cohort, emmit_remote, tail, emmit_self, without_status, act,
}

abbrev pub plus : Option Instance → List Instance → List Instance
plus none held = held
plus (some c) held = c ∷ held

-- The thread goes on with the instance that comes back, if any, and still holds it.
abbrev pub Left : List Instance → Option Instance → Kernel → Type 0
Left held r k = Pool k (plus r held)

-- The thread sleeps with an instance that it wants to push, and holds at most one more.
abbrev pub Asleep : List Instance → Option Instance → Kernel → Type 0
Asleep held none k = ⊥
Asleep held (some j) k = (extra : Option Instance) × Pool k (j ∷ plus extra held)

pub Sleeps-Asleep :
    {A : Type 0} (P : A → Kernel → Type 0) (held : List Instance) (extra : Option Instance) (s : ℕ)
    (r : Run A)
    → Ensures P (Sleeps (plus extra held) s) r
    → Ensures P (Asleep held) r
Sleeps-Asleep P held extra s (ok a k) h = h
Sleeps-Asleep P held extra s (blocked none k) h = absurd h
Sleeps-Asleep P held extra s (blocked (some j) k) h = (extra, h.1)
Sleeps-Asleep P held extra s fault h = absurd h

swap-Pool :
    (k : Kernel) (a b : Instance) (held : List Instance)
    → Pool k (a ∷ b ∷ held)
    → Pool k (b ∷ a ∷ held)
swap-Pool k a b held p s = subst (SlotOk s (k.slots s)) same (p s)
  where
    same : busy k (a ∷ b ∷ held) s ≡ busy k (b ∷ a ∷ held) s
    same = omega arith

count_cohort-Pool :
    (stage : ℕ) (con start : ℤ) (k : Kernel) (held : List Instance)
    (Q : Option Instance → Kernel → Type 0)
    → Pool k held
    → Ensures (λ _ k'. Pool k' held) Q (count_cohort stage con start k)
count_cohort-Pool stage (negsuc c) start k held Q p = p
count_cohort-Pool stage (pos c) start k held Q p = p

called :
    (p : Platform) (caller : Instance) (s : ℕ) (con start : ℤ) (values : List Value)
    (held : List Instance) (callee : Option Instance) (k : Kernel)
    → s < k.n_s
    → copy_each p.marshal values ≢ none
    → Aquired s (caller ∷ held) callee k
    → Ensures (Left held) (Asleep held) (cohort_to p caller s con start values callee k)
unfolding slot_at copy_values_directly
called p caller s con start values held none k lt copies (_, fits) = rw (lt→ltb _ _ lt) (
    then-Ensures (Given held) (Asleep held) (Left held) _ _
      (Sleeps-Asleep (Given held) held none caller.stage _ (resume-Pool k held caller _ fits))
      (λ _ k' p'. p'))
called p caller s con start values held (some callee) k lt copies (own, fits) =
    elim (Option-cases (copy_each p.marshal values)) [
      | inl e ↦ absurd (copies e)
      | inr (vs, e) ↦ rw e (
          then-Ensures (Given (callee ∷ held)) (Asleep held) (Left held) _ _
            (Sleeps-Asleep (Given (callee ∷ held)) held (some callee) caller.stage _
              (resume-Pool k (callee ∷ held) caller _ (swap-Pool k callee caller held fits)))
            (λ _ k' p'.
              then-Ensures (Given (callee ∷ held)) (Asleep held) (Left held) _ _
                (count_cohort-Pool caller.stage con start k' (callee ∷ held) (Asleep held) p')
                (λ _ k'' p''. p'')))
    ]

-- `emmit_cohort` to a stage of the graph, with values that can be copied, never faults. The caller goes to the ready queue, with true, or with nil and a message if no instance of the stage is to be had; the thread goes on with the acquired instance; every stage's tables keep fitting.
pub emmit_cohort-Pool :
    (p : Platform) (k : Kernel) (held : List Instance) (caller : Instance) (dst con : Value)
    (values : List Value)
    → caller.stack ≡ dst ∷ con ∷ values
    → as_size (to_integer dst) < k.n_s
    → ((n : ℤ) → p.boot (as_size (to_integer dst)) n ≢ load_error)
    → copy_each p.marshal values ≢ none
    → Pool k (caller ∷ held)
    → Ensures (Left held) (Asleep held) (emmit_cohort p caller k)
unfolding emmit_cohort
emmit_cohort-Pool p k held caller dst con values args lt loads copies fits = rw args (
    then-Ensures
      (λ c k'. SameGraph p.marshal k k' × Aquired (as_size (to_integer dst)) (caller ∷ held) c k')
      (Asleep held) (Left held) _ _
      (aquired p.marshal p.boot (record k { reads = suc (k.reads) }) (caller ∷ held)
        (as_size (to_integer dst)) (Asleep held) lt loads fits)
      (λ c k' (same, got).
        called p caller (as_size (to_integer dst)) (to_integer con) _ values held c k'
          (subst (λ n. as_size (to_integer dst) < n) (sym same.0) lt) copies got))

-- What a status needs of the instance and its stage.
abbrev pub Acts : Platform → Kernel → Instance → Status → Type 0
Acts p k i ended = Unpacks p.marshal (k.slots i.stage).event_queue.items
Acts p k i emmit_cohort_status =
    (dst : Value) × (con : Value) × (values : List Value) × (tail i.stack ≡ dst ∷ con ∷ values)
    × (as_size (to_integer dst) < k.n_s)
    × ((n : ℤ) → p.boot (as_size (to_integer dst)) n ≢ load_error)
    × (copy_each p.marshal values ≢ none)
Acts p k i emmit_remote_status =
    (dst : Value) × (con : Value) × (values : List Value) × (bytes : List ℕ) × (tail i.stack
      ≡ dst ∷ con ∷ values)
    × (as_size (to_integer dst) < k.n_s)
    × (p.marshal.encode_all values ≡ some bytes)
    × InTurn k.net (k.net.cluster (as_size (to_integer dst)))
    × (length (frame (to_integer dst) bytes) ≤ room p.link.puts)
    × (p.link.added ≡ true)
Acts p k i wait_io_status = p.registered ≡ true
Acts p k i file_io = (f : ℕ) × (arg 1 (tail i.stack) ≡ userdata f) × (p.submitted ≡ true)
Acts p k i _ = Unit

none-Left :
    {A : Type 0} (P : A → Kernel → Type 0) (held : List Instance) (s : ℕ) (r : Run A)
    → ((a : A) (k : Kernel) → P a k → Pool k held)
    → Ensures P (Sleeps held s) r
    → Ensures (Left held) (Asleep held) (and_then r (λ _. pure none))
none-Left P held s r fits h =
    then-Ensures P (Asleep held) (Left held) r _ (Sleeps-Asleep P held none s r h) fits

destroyed :
    (k : Kernel) (held : List Instance) (i : Instance)
    → i.stage < k.n_s
    → Pool k (i ∷ held)
    → Ensures (Left held) (Asleep held) (and_then (instance_destroy i k) (λ _. pure none))
destroyed k held i lt p =
    then-Ensures (Given held) (Asleep held) (Left held) _ _
      (never (Given held) (Asleep held) _ (instance_destroy-Pool k held i lt p)) (λ _ k' p'. p')

-- Whatever status an instance of the graph yields, with what the status needs, the turn never faults and every stage's tables keep fitting.
pub act-Pool :
    (p : Platform) (k : Kernel) (held : List Instance) (i : Instance) (st : Status)
    → i.stage < k.n_s
    → Acts p k i st
    → Pool k (i ∷ held)
    → Ensures (Left held) (Asleep held) (act p i st k)
unfolding act emmit_self emmit_remote slot_at
act-Pool p k held i ended lt acts fits =
    none-Left _ held i.stage _ (λ r k' h. h.1)
      (instance_release-Pool p.marshal k held i lt acts fits)
act-Pool p k held i pcall_error lt acts fits = destroyed _ held i lt fits
act-Pool p k held i destroy lt acts fits = destroyed _ held i lt fits
act-Pool p k held i unknown lt acts fits = destroyed k held i lt fits
act-Pool p k held i emmit_cohort_status lt (dst, con, values, args, in_graph, loads, copies) fits =
    emmit_cohort-Pool p k held (without_status i) dst con values args in_graph loads copies fits
act-Pool p k held i emmit_remote_status lt
      (dst, con, values, bytes, args, in_graph, enc, turn, enough, added) fits =
    rw (args, enc)
      (none-Left (λ _ k'. Pool k' held) held i.stage _ (λ _ k' h. h)
        (then-Ensures {B = Unit {0}} (goes dst con values bytes) (Sleeps held i.stage)
          (λ _ k'. Pool k' held) _ _
          (never (goes dst con values bytes) (Sleeps held i.stage) _ (
            send_async_event-Pool p.link later held (caller dst values) (to_integer dst)
              (to_integer con) (k.clock (k.reads)) bytes in_graph turn enough added fits))
          (λ _ k' out. out.1)))
  where
    later : Kernel
    later = record k { reads = suc (k.reads) }

    caller : Value → List Value → Instance
    caller dst values = record i { stack = dst ∷ values }

    goes : Value → Value → List Value → List ℕ → ℤ → Kernel → Type 0
    goes dst con values bytes =
        Out later held (caller dst values) (k.net.cluster (as_size (to_integer dst)))
          (frame (to_integer dst) bytes) (to_integer con) (k.clock (k.reads))
act-Pool p k held i wait_io_status lt registered fits = rw registered (
    none-Left (Given held) held i.stage _ (λ _ k' h. h)
      (event_wait_io-Pool k held (without_status i) fits))
act-Pool p k held i file_io lt (f, is_file, ok_) fits = rw ok_ (
    none-Left (Given held) held i.stage _ (λ _ k' h. h)
      (event_do_file_aio-Pool k held (without_status i) f is_file fits))
act-Pool p k held i sleep lt acts fits =
    none-Left (Given held) held i.stage _ (λ _ k' h. h)
      (event_sleep-Pool p.timer_added k held (without_status i) fits)
act-Pool p k held i nice lt acts fits =
    none-Left (Given held) held i.stage _ (λ _ k' h. h) (resume-Pool k held i _ fits)
