-- ===== src/Scheduler/Delivery.antt =====
-- Where `emmit` puts an event, and that the values arrive unchanged.
use leda.Prelude.{
  ℕ, ◌<◌, ◌≡◌, refl, ap, sym, ◌∙◌, ◌⊎◌, inl, inr, true, false, none, some, Option, Option-cases,
  List, [], ◌∷◌, ◌++◌, length, lt→ltb,
}
use leda.Lua.{Value, boolean, Stack, nil_and, Marshal}
use leda.Queue.Fifo
use leda.Queue.Fifo.{Fifo}
use leda.Event.{◌>>=◌, EventData, extract_event, restored_values, copy_values_directly}
use leda.Event.Transfer.{queued-eq-direct, extracted_values}
use leda.Kernel.{Instance, Kernel, Run, ok, blocked, put_slot, pure, ◌>>◌}
use leda.Instance.{slot_at, instance_try_push_pending_event, push_ready_queue}
use leda.Scheduler.{deliver, enqueue}

-- The stage's queue is full, the event is refused and nothing changes; or it is not full, and the event
-- is the last of the stage's pending events, which keep their bound.
abbrev pub Queued : ℕ → EventData → Kernel → Run (Option (List Value)) → Type 0
Queued s e k r =
    ((Fifo.at_capacity (k.slots s).event_queue ≡ true)
      × (r ≡ ok (some (nil_and "Event queue for the stage is full.")) k))
    ⊎ ((q : Fifo EventData) × (Fifo.at_capacity (k.slots s).event_queue ≡ false)
        × (q.capacity ≡ (k.slots s).event_queue.capacity)
        × (q.items ≡ (k.slots s).event_queue.items ++ e ∷ [])
        × (r
            ≡ ok (some (boolean true ∷ []))
                (put_slot s (record (k.slots s) { event_queue = q }) k)))

-- The instance with the values on its handler.
abbrev pub with_values : Instance → List Value → Instance
with_values i values = record i {
  stack = i.stack ++ i.handler ∷ [] ++ values;
  args = length values;
}

-- The ready queue is full and the thread sleeps with the instance; or it is not full, and the instance
-- is its last.
abbrev pub Readied : Instance → Kernel → Run (Option (List Value)) → Type 0
Readied i k r =
    ((Fifo.at_capacity k.ready_queue ≡ true) × (r ≡ blocked (some i) k))
    ⊎ ((q : Fifo (Option Instance)) × (Fifo.at_capacity k.ready_queue ≡ false)
        × (q.capacity ≡ k.ready_queue.capacity)
        × (q.items ≡ k.ready_queue.items ++ some i ∷ [])
        × (r ≡ ok (some (boolean true ∷ [])) (record k { ready_queue = q })))

direct :
    (m : Marshal) (stack : Stack) (values : List Value) {e : EventData}
    → extract_event m values ≡ some e
    → copy_values_directly m stack values ≡ some (stack ++ values)
direct m stack values {e} h =
    sym (queued-eq-direct m stack values)
    ∙ ap (λ o. o >>= restored_values m >>= λ us. some (stack ++ us)) h
    ∙ ap (λ o. o >>= λ us. some (stack ++ us)) (extracted_values m values h)

enqueue-Queued :
    (s : ℕ) (e : EventData) (k : Kernel) → s < k.n_s → Queued s e k (enqueue s (some e) k)
unfolding instance_try_push_pending_event slot_at
enqueue-Queued s e k lt = elim (Option-cases (Fifo.try_push (k.slots s).event_queue e)) [
  | inl t ↦ rw (lt→ltb _ _ lt, t) (inl (Fifo.refused (k.slots s).event_queue e t, refl))
  | inr (q, t) ↦
      rw (lt→ltb _ _ lt, t)
        (inr (
          q,
          Fifo.taken (k.slots s).event_queue q e t,
          Fifo.try_push-capacity (k.slots s).event_queue q e t,
          Fifo.try_push-items (k.slots s).event_queue q e t,
          refl,
        ))
]

push-Readied :
    (i : Instance) (k : Kernel)
    → Readied i k ((push_ready_queue (some i) >> pure (some (boolean true ∷ []))) k)
unfolding push_ready_queue
push-Readied i k = elim (Option-cases (Fifo.try_push k.ready_queue (some i))) [
  | inl t ↦ rw (t, push_ready_queue) (inl (Fifo.refused k.ready_queue (some i) t, refl))
  | inr (q, t) ↦
      rw (t, push_ready_queue)
        (inr (
          q,
          Fifo.taken k.ready_queue q (some i) t,
          Fifo.try_push-capacity k.ready_queue q (some i) t,
          Fifo.try_push-items k.ready_queue q (some i) t,
          refl,
        ))
]

-- If the values can be taken off the sender's stack as an event, `emmit` without an instance reports that the queue of a stage of the graph is full, and changes nothing, exactly if it is full; otherwise it leaves just this event, as the last one, in that queue, whose bound stays; and restoring the event gives the same values.
pub deliver-Queued :
    (m : Marshal) (s : ℕ) (values : List Value) (k : Kernel) {e : EventData}
    → s < k.n_s
    → extract_event m values ≡ some e
    → Queued s e k (deliver m s values none k) × (restored_values m e ≡ some values)
unfolding deliver
deliver-Queued m s values k {e} lt h = (rw h (enqueue-Queued s e k lt), extracted_values m values h)

-- If the values can be taken off the sender's stack as an event, `emmit` with an instance sleeps with this instance, with exactly these values on its handler, exactly if the ready queue is full, and otherwise puts it at the end of the ready queue, whose bound stays.
pub deliver-Readied :
    (m : Marshal) (s : ℕ) (values : List Value) (i : Instance) (k : Kernel) {e : EventData}
    → extract_event m values ≡ some e
    → Readied (with_values i values) k (deliver m s values (some i) k)
unfolding deliver
deliver-Readied m s values i k h =
    rw (direct m (i.stack ++ i.handler ∷ []) values h) (push-Readied (with_values i values) k)
