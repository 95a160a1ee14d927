-- ===== src/Instance/Places.antt =====
-- Where the instances of a stage are, and what holds of a stage's tables between the calls of
-- src/kernel/instance.c.
pub mod Slots
pub mod Pool
pub mod Release
pub mod Frame
pub mod Queues
use leda.Prelude.{
  ℕ, suc, ◌+◌, ◌≡◌, Option, none, some, List, [], ◌∷◌, length, All, ◌⊎◌, ◌==◌, if◌then◌else◌,
}
use leda.Prelude.Int.{ℤ, pos, negsuc, ◌≤ℤ◌}
use leda.Kernel.{Instance, Slot, Kernel, Wake, Run, ok, blocked, fault, M, and_then}

-- 1 for an instance of the stage.
abbrev pub of_stage : ℕ → Instance → ℕ
of_stage s i = if i.stage == s then 1 else 0

abbrev pub held_at : ℕ → List Instance → ℕ
held_at s [] = 0
held_at s (i ∷ is) = of_stage s i + held_at s is

abbrev pub ready_at : ℕ → List (Option Instance) → ℕ
ready_at s [] = 0
ready_at s (none ∷ is) = ready_at s is
ready_at s (some i ∷ is) = of_stage s i + ready_at s is

abbrev pub waiting_at : ℕ → List (Instance × Wake) → ℕ
waiting_at s [] = 0
waiting_at s ((i, w) ∷ is) = of_stage s i + waiting_at s is

-- The instances of a stage that do not rest: ready, waiting in the event loop, or held by a thread.
abbrev pub busy : Kernel → List Instance → ℕ → ℕ
busy k held s = ready_at s k.ready_queue.items + waiting_at s k.waiting + held_at s held

-- A stage's tables fit its instances: all are counted, those that rest are its own, the count keeps
-- to the limit (-1 is none), and no instance rests while an event is pending.
pub record SlotOk (s : ℕ) (slot : Slot) (n : ℕ) : Type 0 where
  pub counted : slot.number_of_instances.i ≡ pos (length slot.recycle_queue.items + n)
  pub own : All (λ i. i.stage ≡ s) slot.recycle_queue.items
  pub within :
      (slot.recycle_queue_limit.i ≡ negsuc 0)
      ⊎ (slot.number_of_instances.i ≤ℤ slot.recycle_queue_limit.i)
  pub same : slot.recycle_queue.capacity ≡ slot.recycle_queue_limit.i
  pub fair : (slot.recycle_queue.items ≡ []) ⊎ (slot.event_queue.items ≡ [])

-- The tables of every stage fit, with these instances held by the running threads.
abbrev pub Pool : Kernel → List Instance → Type 0
Pool k held = (s : ℕ) → SlotOk s (k.slots s) (busy k held s)

-- What a call ensures when it returns, and when it falls asleep; it does not fault.
abbrev pub Ensures :
    {A : Type 0} → (A → Kernel → Type 0) → (Option Instance → Kernel → Type 0) → Run A → Type 0
Ensures P Q (ok a k) = P a k
Ensures P Q (blocked i k) = Q i k
Ensures P Q fault = ⊥

-- The rule for a sequence of calls.
pub then-Ensures :
    {A B : Type 0} (P : A → Kernel → Type 0) (Q : Option Instance → Kernel → Type 0)
    (P' : B → Kernel → Type 0) (r : Run A) (f : A → M B)
    → Ensures P Q r
    → ((a : A) (k : Kernel) → P a k → Ensures P' Q (f a k))
    → Ensures P' Q (and_then r f)
then-Ensures P Q P' (ok a k) f h next = next a k h
then-Ensures P Q P' (blocked i k) f h next = h
then-Ensures P Q P' fault f h next = absurd h

-- A weaker promise.
pub imp-Ensures :
    {A : Type 0} (P P' : A → Kernel → Type 0) (Q : Option Instance → Kernel → Type 0) (r : Run A)
    → Ensures P Q r
    → ((a : A) (k : Kernel) → P a k → P' a k)
    → Ensures P' Q r
imp-Ensures P P' Q (ok a k) h imp = imp a k h
imp-Ensures P P' Q (blocked i k) h imp = h
imp-Ensures P P' Q fault h imp = absurd h
