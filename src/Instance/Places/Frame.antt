-- ===== src/Instance/Places/Frame.antt =====
-- The calls of src/kernel/instance.c leave the graph as it is, and the capacities of the queues that
-- an event goes through, and pending events that can be unpacked stay so.
use leda.Prelude.{
  ℕ, ◌≢◌, sym, All-snoc, ◌≡◌, refl, ◌∙◌, subst, true, ◌==◌, arith, Bool-cases, Option, none, some,
  ltb, inl, inr, Option-cases,
}
use leda.Prelude.Int.{ℤ}
use leda.Queue.Fifo
use leda.Queue.Fifo.{Fifo}
use leda.Lua.{Marshal}
use leda.Event.{EventData, restored_values}
use leda.Instance.Places.Release.{Unpacks}
use leda.Kernel.{
  Instance, Slot, Kernel, Run, ok, blocked, fault, M, and_then, ◌>>=◌, expect, put_slot,
}
use leda.Stats.{stats_active_instance}
use leda.Instance.{
  Boot, handler, load_error, init_error, slot_at, at_limit, instance_destroy, new_instance,
  finish_new, aquire_from, instance_aquire, push_ready_queue, instance_try_push_pending_event,
  counted, uncount,
}
use leda.Atomic.{atomic_value}
use leda.Instance.Places.{Ensures}

module _ (m : Marshal) where
  abbrev pub SameShape : Slot → Slot → Type 0
  SameShape a b =
      (b.local ≡ a.local)
      × (b.event_queue.capacity ≡ a.event_queue.capacity)
      × (Unpacks m a.event_queue.items → Unpacks m b.event_queue.items)

  abbrev pub SameGraph : Kernel → Kernel → Type 0
  SameGraph k k' =
      (k'.n_s ≡ k.n_s)
      × (k'.n_c ≡ k.n_c)
      × (k'.ready_queue.capacity ≡ k.ready_queue.capacity)
      × ((s : ℕ) → SameShape (k.slots s) (k'.slots s))
      × (k'.net ≡ k.net)

  -- Nothing of this has changed.
  pub SameGraph-refl : (k : Kernel) → SameGraph k k
  SameGraph-refl k = (refl, refl, refl, (λ s. (refl, refl, (λ u. u))), refl)

  pub SameGraph-trans : (k k' k'' : Kernel) → SameGraph k k' → SameGraph k' k'' → SameGraph k k''
  SameGraph-trans k k' k'' (e, f, g, h, n) (e', f', g', h', n') = (
    e' ∙ e,
    f' ∙ f,
    g' ∙ g,
    (λ s. ((h' s).0 ∙ (h s).0, (h' s).1 ∙ (h s).1, (λ u. (h' s).2 ((h s).2 u)))),
    n' ∙ n,
  )

  pub put_slot-SameGraph :
      (k : Kernel) (s : ℕ) (slot : Slot)
      → SameShape (k.slots s) slot
      → SameGraph k (put_slot s slot k)
  put_slot-SameGraph k s slot shape = (refl, refl, refl, slots, refl)
    where
      same : (j : ℕ) → (s == j) ≡ true → s ≡ j
      same j e = ground arith

      slots : (j : ℕ) → SameShape (k.slots j) ((put_slot s slot k).slots j)
      slots j = elim (Bool-cases (s == j)) [
        | inl e ↦ rw e (subst (λ t. SameShape (k.slots t) slot) (same j e) shape)
        | inr e ↦ rw e (refl, refl, (λ u. u))
      ]

  -- However a call ends, the graph is the same.
  abbrev pub Framed : {A : Type 0} → Kernel → Run A → Type 0
  Framed k (ok a k') = SameGraph k k'
  Framed k (blocked i k') = SameGraph k k'
  Framed k fault = Unit

  abbrev pub Frames : {A : Type 0} → M A → Type 0
  Frames m = (k : Kernel) → Framed k (m k)

  Framed-trans :
      {A : Type 0} (k k' : Kernel) (r : Run A) → SameGraph k k' → Framed k' r → Framed k r
  Framed-trans k k' (ok a k'') same same' = SameGraph-trans k k' k'' same same'
  Framed-trans k k' (blocked i k'') same same' = SameGraph-trans k k' k'' same same'
  Framed-trans k k' fault s t = tt

  then-Framed :
      {A B : Type 0} (k : Kernel) (r : Run A) (f : A → M B)
      → Framed k r
      → ((a : A) → Frames (f a))
      → Framed k (and_then r f)
  then-Framed k (ok a k') f same next = Framed-trans k k' (f a k') same (next a k')
  then-Framed k (blocked i k') f same next = same
  then-Framed k fault f same next = tt

  pub bind-Frames :
      {A B : Type 0} (m : M A) (f : A → M B)
      → Frames m
      → ((a : A) → Frames (f a))
      → Frames (m >>= f)
  bind-Frames m f first next k = then-Framed k (m k) f (first k) next

  pub expect-Frames : {A : Type 0} (o : Option A) → Frames (expect o)
  expect-Frames none k = tt
  expect-Frames (some a) k = SameGraph-refl k

  -- What holds of a call and that it leaves the graph, together.
  pub with-Framed :
      {A : Type 0} (P : A → Kernel → Type 0) (Q : Option Instance → Kernel → Type 0) (k : Kernel)
      (r : Run A)
      → Ensures P Q r
      → Framed k r
      → Ensures (λ a k'. SameGraph k k' × P a k') Q r
  with-Framed P Q k (ok a k') h same = (same, h)
  with-Framed P Q k (blocked i k') h same = h
  with-Framed P Q k fault h same = h

  pub slot_at-Frames : (s : ℕ) → Frames (slot_at s)
  unfolding slot_at
  slot_at-Frames s k = elim (Bool-cases (ltb s k.n_s)) [
    | inl e ↦ rw e (SameGraph-refl k)
    | inr e ↦ rw e tt
  ]

  pub push_ready_queue-Frames : (i : Option Instance) → Frames (push_ready_queue i)
  unfolding push_ready_queue
  push_ready_queue-Frames i k = elim (Option-cases (Fifo.try_push k.ready_queue i)) [
    | inl e ↦ rw (e, push_ready_queue) (SameGraph-refl k)
    | inr (q, e) ↦
        rw (e, push_ready_queue)
          (
            refl,
            refl,
            Fifo.try_push-capacity k.ready_queue q i e,
            (λ s. (refl, refl, (λ u. u))),
            refl,
          )
  ]

  -- A use of the entry of a stage.
  slot_at-then :
      {A : Type 0} (s : ℕ) (f : Slot → M A) (k : Kernel)
      → Framed k (f (k.slots s) k)
      → Framed k ((slot_at s >>= f) k)
  unfolding slot_at
  slot_at-then s f k same = elim (Bool-cases (ltb s k.n_s)) [ inl e ↦ rw e same | inr e ↦ rw e tt ]

  pub push_pending-Frames :
      (s : ℕ) (e : EventData)
      → restored_values m e ≢ none
      → Frames (instance_try_push_pending_event s e)
  unfolding instance_try_push_pending_event
  push_pending-Frames s e known k =
      slot_at-then s _ k (elim (Option-cases (Fifo.try_push (k.slots s).event_queue e)) [
        | inl h ↦ rw h (SameGraph-refl k)
        | inr (q, h) ↦ rw h (
            put_slot-SameGraph k s (record (k.slots s) { event_queue = q })
              (
                refl,
                Fifo.try_push-capacity (k.slots s).event_queue q e h,
                (λ u.
                    subst (Unpacks m) (sym (Fifo.try_push-items (k.slots s).event_queue q e h))
                      (All-snoc (λ x. restored_values m x ≢ none) _ e u known)),
              ))
      ])

  pub instance_destroy-Frames : (i : Instance) → Frames (instance_destroy i)
  unfolding instance_destroy
  instance_destroy-Frames i k =
      slot_at-then i.stage _ k
        (put_slot-SameGraph k i.stage (uncount (k.slots i.stage)) (refl, refl, (λ u. u)))

  pub instance_aquire-Frames : (boot : ℕ → ℤ → Boot) (s : ℕ) → Frames (instance_aquire boot s)
  unfolding instance_aquire new_instance
  instance_aquire-Frames boot s k = elim (Bool-cases (ltb k.n_s s)) [
    | inl e ↦ rw e (SameGraph-refl k)
    | inr e ↦ rw e (slot_at-then s _ k (from (Fifo.try_pop (k.slots s).recycle_queue)))
  ]
    where
      booted : (number : ℤ) (b : Boot) → Frames (finish_new s number b)
      booted number (handler h) k = SameGraph-refl k
      booted number load_error k = SameGraph-refl k
      booted number init_error k =
          bind-Frames _ _ (instance_destroy-Frames _) (λ u k. SameGraph-refl k) k

      created : Framed k (new_instance boot s (k.slots s) k)
      created =
          Framed-trans k
            (record (put_slot s (counted (k.slots s)) k) {
              stats = stats_active_instance s k.stats;
            })
            _ (put_slot-SameGraph k s (counted (k.slots s)) (refl, refl, (λ u. u)))
            (booted (atomic_value (counted (k.slots s)).number_of_instances)
              (boot s (atomic_value (counted (k.slots s)).number_of_instances)) _)

      from : (o : Option (Instance × Fifo Instance)) → Framed k (aquire_from boot s (k.slots s) o k)
      from (some (i, q)) =
          put_slot-SameGraph k s (record (k.slots s) { recycle_queue = q }) (refl, refl, (λ u. u))
      from none = elim (Bool-cases (at_limit (k.slots s))) [
        | inl e ↦ rw e (SameGraph-refl k)
        | inr e ↦ rw e created
      ]
