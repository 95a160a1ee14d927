-- ===== src/Instance/Places/Pool.antt =====
-- `instance_aquire` and `instance_destroy` keep every stage's tables fitting.
use leda.Prelude.{
  [], ap, ◌∙◌, update_self, ℕ, suc, ◌<◌, ◌≡◌, refl, ◌≢◌, sym, subst, true, false, Option, none,
  some, List, ◌∷◌, inl, inr, Bool-cases, ◌==◌, ltb, lt→ltb, arith,
}
use leda.Prelude.Int.{ℤ}
use leda.Lua.{nil}
use leda.Atomic.{atomic_value}
use leda.Stats.{stats_active_instance}
use leda.Queue.Fifo
use leda.Queue.Fifo.{Fifo}
use leda.Kernel.{Instance, Slot, Kernel, put_slot}
use leda.Instance.{
  Boot, handler, load_error, init_error, slot_at, at_limit, counted, uncount, instance_destroy,
  blank_instance, finish_new, new_instance, aquire_from, instance_aquire,
}
use leda.Instance.Places.{busy, SlotOk, Pool, Ensures, then-Ensures}
use leda.Instance.Places.Slots.{recycled-SlotOk, counted-SlotOk, uncount-SlotOk}

-- A change of one stage's tables, with the instances that it moves.
pub put_slot-Pool :
    (k : Kernel) (held held' : List Instance) (s : ℕ) {slot : Slot}
    → Pool k held
    → SlotOk s slot (busy k held' s)
    → ((j : ℕ) → s ≢ j → busy k held' j ≡ busy k held j)
    → Pool (put_slot s slot k) held'
put_slot-Pool k held held' s {slot} p new other j = elim (Bool-cases (s == j)) [
  | inl e ↦ rw e (subst (λ t. SlotOk t slot (busy k held' t)) (same e) new)
  | inr e ↦ rw e (subst (SlotOk j (k.slots j)) (sym (other j (apart e))) (p j))
]
  where
    same : (s == j) ≡ true → s ≡ j
    same e = ground arith

    apart : (s == j) ≡ false → s ≢ j
    apart e q = ground arith

pub hold :
    (k : Kernel) (held : List Instance) (i : Instance) (s : ℕ)
    → i.stage ≡ s
    → busy k (i ∷ held) s ≡ suc (busy k held s)
hold k held i s e = ground arith

pub hold_other :
    (k : Kernel) (held : List Instance) (i : Instance) (s j : ℕ)
    → i.stage ≡ s
    → s ≢ j
    → busy k (i ∷ held) j ≡ busy k held j
hold_other k held i s j e ne = ground arith

-- What `instance_aquire` ensures: an instance of the stage, now held by the caller, or none, and then
-- none rests.
abbrev pub Aquired : ℕ → List Instance → Option Instance → Kernel → Type 0
Aquired s held none k = ((k.slots s).recycle_queue.items ≡ []) × Pool k held
Aquired s held (some i) k = (i.stage ≡ s) × Pool k (i ∷ held)

abbrev pub Never : Option Instance → Kernel → Type 0
Never i k = ⊥

take-Pool :
    (k : Kernel) (held : List Instance) (i : Instance) (s : ℕ) {slot : Slot}
    → Pool k held
    → i.stage ≡ s
    → SlotOk s slot (suc (busy k held s))
    → Pool (put_slot s slot k) (i ∷ held)
take-Pool k held i s p own new =
    put_slot-Pool k held (i ∷ held) s p (subst (SlotOk s _) (sym (hold k held i s own)) new)
      (λ j. hold_other k held i s j own)

destroy-Pool :
    (k : Kernel) (held : List Instance) (i : Instance)
    → Pool k (i ∷ held)
    → Pool (put_slot i.stage (uncount (k.slots i.stage)) k) held
destroy-Pool k held i p =
    put_slot-Pool k (i ∷ held) held i.stage p
      (uncount-SlotOk (subst (SlotOk _ _) (hold k held i i.stage refl) (p i.stage)))
      (λ j ne. sym (hold_other k held i i.stage j refl ne))

-- `instance_destroy` of a held instance of a stage of the graph takes it out of the stage's count, so that the tables keep fitting, and never sleeps or faults.
pub instance_destroy-Pool :
    (k : Kernel) (held : List Instance) (i : Instance)
    → i.stage < k.n_s
    → Pool k (i ∷ held)
    → Ensures (λ _ k'. Pool k' held) Never (instance_destroy i k)
unfolding instance_destroy slot_at
instance_destroy-Pool k held i lt p = rw (lt→ltb _ _ lt) (destroy-Pool k held i p)

destroy_resting :
    (k : Kernel) (held : List Instance) (i : Instance)
    → i.stage < k.n_s
    → (k.slots i.stage).recycle_queue.items ≡ []
    → Pool k (i ∷ held)
    → Ensures
        (λ _ k'. ((k'.slots i.stage).recycle_queue.items ≡ []) × Pool k' held)
        Never
        (instance_destroy i k)
unfolding instance_destroy slot_at
destroy_resting k held i lt none_rests p = rw (lt→ltb _ _ lt) (
  ap (λ slot. slot.recycle_queue.items) (update_self (k.slots) i.stage _) ∙ none_rests,
  destroy-Pool k held i p,
)

-- `Aquired` for what the new instance of a stage comes to.
new_instance-Pool :
    (boot : ℕ → ℤ → Boot) (k : Kernel) (held : List Instance) (s : ℕ)
    → s < k.n_s
    → ((n : ℤ) → boot s n ≢ load_error)
    → at_limit (k.slots s) ≡ false
    → (k.slots s).recycle_queue.items ≡ []
    → Pool k held
    → Ensures (Aquired s held) Never (new_instance boot s (k.slots s) k)
unfolding new_instance
new_instance-Pool boot k held s lt loads room none_rests p = finish (boot s _) (loads _)
  where
    number : ℤ
    number = atomic_value (counted (k.slots s)).number_of_instances

    k' : Kernel
    k' = record (put_slot s (counted (k.slots s)) k) { stats = stats_active_instance s k.stats }

    taken : Pool k' (blank_instance s number nil ∷ held)
    taken = take-Pool k held (blank_instance s number nil) s p refl (counted-SlotOk (p s) room)

    finish : (b : Boot) → b ≢ load_error → Ensures (Aquired s held) Never (finish_new s number b k')
    finish (handler h) l = (refl, taken)
    finish load_error l = absurd (l refl)
    finish init_error l =
        then-Ensures (λ _ k''. ((k''.slots s).recycle_queue.items ≡ []) × Pool k'' held) Never
          (Aquired s held) _ _
          (destroy_resting k' held (blank_instance s number nil) lt
            (ap (λ slot. slot.recycle_queue.items) (update_self (k.slots) s _) ∙ none_rests) taken)
          (λ _ k'' fits. fits)

-- `instance_aquire` never sleeps or faults at a stage of the graph whose chunk loads, on tables that fit. It returns an instance of that
-- stage, counted and in no queue, or nothing, and then no instance of the stage rests; every stage keeps to its limit.
pub instance_aquire-Pool :
    (boot : ℕ → ℤ → Boot) (k : Kernel) (held : List Instance) (s : ℕ)
    → s < k.n_s
    → ((n : ℤ) → boot s n ≢ load_error)
    → Pool k held
    → Ensures (Aquired s held) Never (instance_aquire boot s k)
unfolding instance_aquire slot_at
instance_aquire-Pool boot k held s lt loads p =
    rw (lt→ltb s k.n_s lt, not_above) (from (Fifo.try_pop (k.slots s).recycle_queue) refl)
  where
    not_above : ltb k.n_s s ≡ false
    not_above = ground arith

    from :
        (o : Option (Instance × Fifo Instance))
        → Fifo.try_pop (k.slots s).recycle_queue ≡ o
        → Ensures (Aquired s held) Never (aquire_from boot s (k.slots s) o k)
    from (some (i, q)) e =
        let (own, fits) = recycled-SlotOk (p s) e in (own, take-Pool k held i s p own fits)
    from none e = elim (Bool-cases (at_limit (k.slots s))) [
      | inl full ↦ rw full (Fifo.try_pop-none (k.slots s).recycle_queue e, p)
      | inr room ↦ rw room (
          new_instance-Pool boot k held s lt loads room
            (Fifo.try_pop-none (k.slots s).recycle_queue e) p)
    ]
