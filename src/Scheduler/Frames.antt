-- ===== src/Scheduler/Frames.antt =====
-- Sending an event leaves the graph, the bounds and the network as they are, and pending events that can be
-- unpacked stay so.
use leda.Prelude.{
  ℕ, ◌≡◌, refl, ◌≢◌, sym, ◌∙◌, Bool-cases, Option, none, some, ltb, List, [], ◌∷◌, ◌++◌, inl, inr,
}
use leda.Prelude.Int.{ℤ, pos, negsuc}
use leda.Lua.{Value, Stack, Marshal}
use leda.Event.Transfer.{extracted_values}
use leda.Event.{restored_values, EventData, extract_event, copy_values_directly}
use leda.Kernel.{Instance}
use leda.Instance.Places.Frame.{
  SameGraph-refl, instance_aquire-Frames, Frames, bind-Frames, push_ready_queue-Frames,
  push_pending-Frames,
}
use leda.Scheduler.{
  Platform, count_sent, hand_over, enqueue, deliver, was_sent, count_if_sent, emmit_local,
}

pub deliver-Frames :
    (m : Marshal) (s : ℕ) (values : List Value) (dst : Option Instance)
    → Frames m (deliver m s values dst)
unfolding deliver
deliver-Frames m s values none = queued (extract_event m values) refl
  where
    queued : (o : Option EventData) → extract_event m values ≡ o → Frames m (enqueue s o)
    queued none h k = SameGraph-refl m k
    queued (some e) h k =
        bind-Frames m _ _ (push_pending-Frames m s e (known e h)) (λ fits k. SameGraph-refl m k) k
      where
        known : (e : EventData) → extract_event m values ≡ some e → restored_values m e ≢ none
        known e h no_values = cc (sym (extracted_values m values h) ∙ no_values)
deliver-Frames m s values (some dst) =
    handed (copy_values_directly m (dst.stack ++ dst.handler ∷ []) values)
  where
    handed : (o : Option Stack) → Frames m (hand_over dst values o)
    handed none k = SameGraph-refl m k
    handed (some st) k =
        bind-Frames m _ _ (push_ready_queue-Frames m _) (λ u k. SameGraph-refl m k) k

pub count_sent-Frames : (m : Marshal) (con start : ℤ) → Frames m (count_sent con start)
unfolding count_sent
count_sent-Frames m (negsuc c) start k = SameGraph-refl m k
count_sent-Frames m (pos c) start k = elim (Bool-cases (ltb c k.n_c)) [
  | inl e ↦ rw e (SameGraph-refl m k)
  | inr e ↦ rw e tt
]

pub count_if_sent-Frames :
    (m : Marshal) (con start : ℤ) (r : Option (List Value)) → Frames m (count_if_sent con start r)
count_if_sent-Frames m con start r k = elim (Bool-cases (was_sent r)) [
  | inl e ↦ rw e (bind-Frames m _ _ (count_sent-Frames m con start) (λ u k'. SameGraph-refl m k') k)
  | inr e ↦ rw e (SameGraph-refl m k)
]

pub emmit_local-Frames :
    (p : Platform) (start : ℤ) (s : ℕ) (con : ℤ) (values : List Value)
    → Frames p.marshal (emmit_local p start s con values)
unfolding emmit_local
emmit_local-Frames p start s con values =
    bind-Frames p.marshal _ _ (instance_aquire-Frames p.marshal p.boot s) (λ i.
      bind-Frames p.marshal _ _ (deliver-Frames p.marshal s values i)
        (count_if_sent-Frames p.marshal con start))
