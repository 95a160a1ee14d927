-- ===== src/Instance/Places/Queues.antt =====
-- `instance_aquire` of src/kernel/instance.c touches neither the ready queue nor the event loop.
use leda.Prelude.{ℕ, ◌≡◌, refl, true, Bool-cases, Option, none, some, ltb, inl, inr}
use leda.Prelude.Int.{ℤ}
use leda.Queue.Fifo
use leda.Queue.Fifo.{Fifo}
use leda.Kernel.{Instance, Kernel, Run, ok, blocked, fault, put_slot}
use leda.Stats.{stats_active_instance}
use leda.Atomic.{atomic_value}
use leda.Instance.{
  Boot, handler, load_error, init_error, slot_at, at_limit, counted, instance_destroy, new_instance,
  finish_new, aquire_from, instance_aquire,
}
use leda.Instance.Places.{Ensures}

abbrev pub SameQueues : Kernel → Kernel → Type 0
SameQueues k k' = (k'.ready_queue ≡ k.ready_queue) × (k'.waiting ≡ k.waiting)

abbrev pub Kept : {A : Type 0} → Kernel → Run A → Type 0
Kept k (ok a k') = SameQueues k k'
Kept k (blocked i k') = Unit
Kept k fault = Unit

pub with-Kept :
    {A : Type 0} (P : A → Kernel → Type 0) (Q : Option Instance → Kernel → Type 0) (k : Kernel)
    (r : Run A)
    → Ensures P Q r
    → Kept k r
    → Ensures (λ a k'. SameQueues k k' × P a k') Q r
with-Kept P Q k (ok a k') h same = (same, h)
with-Kept P Q k (blocked i k') h same = h
with-Kept P Q k fault h same = h

pub instance_aquire-Kept :
    (boot : ℕ → ℤ → Boot) (k : Kernel) (s : ℕ) → Kept k (instance_aquire boot s k)
unfolding instance_aquire new_instance instance_destroy slot_at
instance_aquire-Kept boot k s = elim (Bool-cases (ltb k.n_s s)) [
  | inl e ↦ rw e (refl, refl)
  | inr e ↦ elim (Bool-cases (ltb s k.n_s)) [
    | inl l ↦ rw (e, l) (from (Fifo.try_pop (k.slots s).recycle_queue) l)
    | inr l ↦ rw (e, l) tt
  ]
]
  where
    number : ℤ
    number = atomic_value (counted (k.slots s)).number_of_instances

    k' : Kernel
    k' = record (put_slot s (counted (k.slots s)) k) { stats = stats_active_instance s k.stats }

    booted : (b : Boot) → ltb s k.n_s ≡ true → Kept k (finish_new s number b k')
    booted (handler h) l = (refl, refl)
    booted load_error l = (refl, refl)
    booted init_error l = rw l (refl, refl)

    from :
        (o : Option (Instance × Fifo Instance))
        → ltb s k.n_s ≡ true
        → Kept k (aquire_from boot s (k.slots s) o k)
    from (some (i, q)) l = (refl, refl)
    from none l = elim (Bool-cases (at_limit (k.slots s))) [
      | inl full ↦ rw full (refl, refl)
      | inr room ↦ rw room (booted (boot s number) l)
    ]
