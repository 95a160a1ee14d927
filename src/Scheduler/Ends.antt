-- ===== src/Scheduler/Ends.antt =====
-- What an instance that has ended becomes, and what `emmit_cohort` does with the caller and the called
-- instance.
use leda.Prelude.{
  ℕ, suc, ◌<◌, length, ◌≡◌, refl, ◌≢◌, ap, subst, sym, ◌∙◌, true, Option, none, some, Option-cases,
  inl, inr, List, [], ◌∷◌, ◌++◌, lt→ltb,
}
use leda.Prelude.Int.{ℤ, pos, negsuc, ◌-ℤ◌}
use leda.Lua.{Value, boolean, nil_and, Marshal, to_integer}
use leda.Queue.Fifo
use leda.Queue.Fifo.{Fifo}
use leda.Event.{EventData, restored_values, restore_event, copy_each, copy_values_directly}
use leda.Stats.{Stats, stats_active_instance, stats_inactive_instance, stats_update_time}
use leda.Kernel.{Instance, Slot, Kernel, put_slot}
use leda.Instance.{load_error, as_size, slot_at, serve, instance_release}
use leda.Instance.Places.{busy, SlotOk, Pool, Ensures, then-Ensures}
use leda.Instance.Places.Slots.{recycle_room}
use leda.Instance.Places.Pool.{Aquired, hold}
use leda.Instance.Places.Release.{Unpacks}
use leda.Instance.Places.Frame.{SameGraph}
use leda.Instance.Places.Queues.{SameQueues, with-Kept, instance_aquire-Kept}
use leda.Wait.{reply}
use leda.Wait.Handed.{Full, Readied, push-Readied}
use leda.Scheduler.{Platform}
use leda.Scheduler.Sends.{aquired}
use leda.Scheduler.Turn.{count_cohort, cohort_to, emmit_cohort}
use leda.Scheduler.Placed.{Finished, Called}

serve-Finished :
    (m : Marshal) (k : Kernel) (held : List Instance) (i : Instance) (stats : Stats) (reads : ℕ)
    → Unpacks m (k.slots i.stage).event_queue.items
    → Pool k (i ∷ held)
    → Ensures
        (λ _ k'. Finished m i (k.slots i.stage).event_queue.items k k')
        Full
        (serve m
          (record i { stack = [] })
          (k.slots i.stage)
          (Fifo.try_pop (k.slots i.stage).event_queue)
          (record k { stats = stats; reads = reads }))
unfolding restore_event
serve-Finished m k held i stats reads unpacks p = from (Fifo.try_pop slot.event_queue) refl
  where
    slot : Slot
    slot = k.slots i.stage

    fits : SlotOk i.stage slot (suc (busy k held i.stage))
    fits = subst (SlotOk i.stage slot) (hold k held i i.stage refl) (p i.stage)

    goal : Option (EventData × Fifo EventData) → List EventData → Type 0
    goal o items =
        Ensures (λ _ k'. Finished m i items k k') Full
          (serve m (record i { stack = [] }) slot o (record k { stats = stats; reads = reads }))

    loaded : List Value → Instance
    loaded vs = record i { stack = i.handler ∷ vs; args = length vs; init_time = k.clock reads }

    left : Fifo EventData → Kernel
    left q = put_slot i.stage (record slot { event_queue = q }) k

    taken : Fifo EventData → Kernel
    taken q = record (left q) {
      stats = stats_active_instance i.stage (stats_inactive_instance i.stage stats);
      reads = suc reads;
    }

    from :
        (o : Option (EventData × Fifo EventData))
        → Fifo.try_pop slot.event_queue ≡ o
        → goal o slot.event_queue.items
    from none e =
        subst (goal none) (sym (Fifo.try_pop-none slot.event_queue e))
          (rw (recycle_room fits (record i { stack = [] })) (refl, refl, refl))
    from (some (ev, q)) e =
        subst (goal (some (ev, q))) (sym items) (elim (Option-cases (restored_values m ev)) [
          | inl r ↦ absurd ((subst (Unpacks m) items unpacks).0 r)
          | inr (vs, r) ↦ rw r (
              then-Ensures (λ _ k'. Readied (loaded vs) (taken q) k') Full _ _ _
                (push-Readied (taken q) (loaded vs))
                (λ _ k' (ready, waits, slots). (
                  loaded vs,
                  vs,
                  refl,
                  (refl, refl, refl, refl),
                  ready,
                  waits,
                  slots
                      ∙ ap (λ c. (left (record { items = q.items; capacity = c })).slots)
                          (Fifo.try_pop-capacity slot.event_queue q ev e),
                )))
        ])
      where
        items : slot.event_queue.items ≡ ev ∷ q.items
        items = Fifo.try_pop-some slot.event_queue q ev e

-- `instance_release`, as a status: `Finished`.
pub released :
    (m : Marshal) (k : Kernel) (held : List Instance) (i : Instance)
    → i.stage < k.n_s
    → Unpacks m (k.slots i.stage).event_queue.items
    → Pool k (i ∷ held)
    → Ensures
        (λ _ k'. Finished m i (k.slots i.stage).event_queue.items k k')
        Full
        (instance_release m i k)
unfolding instance_release slot_at
released m k held i lt unpacks p = rw (lt→ltb _ _ lt) (
    serve-Finished m k held i (stats_update_time i.stage (k.clock (k.reads) -ℤ i.init_time) k.stats)
      (suc (k.reads)) unpacks p)

counted :
    (stage : ℕ) (con start : ℤ) (k : Kernel)
    → Ensures (λ _ k'. SameQueues k k') Full (count_cohort stage con start k)
counted stage (negsuc c) start k = (refl, refl)
counted stage (pos c) start k = (refl, refl)

-- The caller and the instance that it called.
answered :
    (p : Platform) (caller : Instance) (dst con : Value) (start : ℤ) (values : List Value)
    (held : List Instance) (k₀ : Kernel) (callee : Option Instance) (k : Kernel)
    → as_size (to_integer dst) < k.n_s
    → copy_each p.marshal values ≢ none
    → SameQueues k₀ k
    → Aquired (as_size (to_integer dst)) held callee k
    → Ensures
        (λ r k'. Called p caller (dst ∷ con ∷ values) r k₀ k')
        Full
        (cohort_to p caller (as_size (to_integer dst)) (to_integer con) start values callee k)
unfolding slot_at copy_values_directly
answered p caller dst con start values held k₀ none k lt copies (ready, waits) got =
    rw (lt→ltb _ _ lt) (
      then-Ensures (λ _ k'. Readied refusal k k') Full
        (λ r k'. Called p caller (dst ∷ con ∷ values) r k₀ k') _ _ (push-Readied k refusal)
        (λ _ k' (last, same, slots).
          (same ∙ waits, last ∙ ap (λ q. q.items ++ some refusal ∷ []) ready)))
  where
    refusal : Instance
    refusal = reply caller (nil_and "Cannot get a parallel instance of the stage.")
answered p caller dst con start values held k₀ (some callee) k lt copies (ready, waits)
      (own, fits) =
    elim (Option-cases (copy_each p.marshal values)) [
      | inl e ↦ absurd (copies e)
      | inr (vs, e) ↦ rw e (
          then-Ensures (λ _ k'. Readied accepted k k') Full _ _ _ (push-Readied k accepted)
            (λ _ k' (last, same, slots).
              then-Ensures (λ _ k''. SameQueues k' k'') Full _ _ _
                (counted caller.stage (to_integer con) start k')
                (λ _ k'' (ready', waits'). (
                  waits' ∙ same ∙ waits,
                  ap (λ q. q.items) ready' ∙ last ∙ ap (λ q. q.items ++ some accepted ∷ []) ready,
                  own,
                  refl,
                  (callee.stack ++ callee.handler ∷ [], vs, e, refl),
                ))))
    ]
  where
    accepted : Instance
    accepted = reply caller (boolean true ∷ [])

pub emmit_cohort-Called :
    (p : Platform) (k : Kernel) (held : List Instance) (caller : Instance) (dst con : Value)
    (values : List Value)
    → caller.stack ≡ dst ∷ con ∷ values
    → as_size (to_integer dst) < k.n_s
    → ((n : ℤ) → p.boot (as_size (to_integer dst)) n ≢ load_error)
    → copy_each p.marshal values ≢ none
    → Pool k (caller ∷ held)
    → Ensures (λ r k'. Called p caller caller.stack r k k') Full (emmit_cohort p caller k)
unfolding emmit_cohort
emmit_cohort-Called p k held caller dst con values args lt loads copies fits = rw args (
    then-Ensures
      (λ c k'.
        SameQueues later k'
        × (SameGraph p.marshal later k' × Aquired (as_size (to_integer dst)) (caller ∷ held) c k'))
      Full (λ r k'. Called p caller (dst ∷ con ∷ values) r k k') _ _
      (with-Kept _ Full later _
        (aquired p.marshal p.boot later (caller ∷ held) (as_size (to_integer dst)) Full lt loads
          fits)
        (instance_aquire-Kept p.boot later (as_size (to_integer dst))))
      (λ c k' (queues, (same, got)).
        answered p caller dst con (k.clock (k.reads)) values (caller ∷ held) k c k'
          (subst (λ n. as_size (to_integer dst) < n) (sym same.0) lt) copies queues got))
  where
    later : Kernel
    later = record k { reads = suc (k.reads) }
