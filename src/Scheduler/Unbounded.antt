-- ===== src/Scheduler/Unbounded.antt =====
-- With no bound on the ready queue and on the queues of pending events, as `leda_run` sets them up,
-- `emmit` to a local stage always finds a place for the event.
use leda.Prelude.{
  ℕ, ◌<◌, ◌≡◌, refl, ◌≢◌, subst, sym, ◌∙◌, true, Option, none, some, Option-cases, List, [], ◌∷◌,
  inl, inr, lt→ltb,
}
use leda.Prelude.Int.{ℤ, negsuc}
use leda.Lua.{Value, boolean, Marshal}
use leda.Queue.Fifo
use leda.Event.{extract_event, copy_each, copy_values_directly}
use leda.Kernel.{Instance, Kernel}
use leda.Instance.{load_error, slot_at, instance_try_push_pending_event, push_ready_queue}
use leda.Instance.Places.{Pool, Ensures, then-Ensures}
use leda.Instance.Places.Pool.{put_slot-Pool, Aquired, Never}
use leda.Instance.Places.Release.{push_ready_queue-Pool}
use leda.Instance.Places.Frame.{SameGraph, with-Framed}
use leda.Scheduler.{Platform, deliver, count_if_sent, emmit_local}
use leda.Scheduler.Sends.{Connects, pend-SlotOk, count_sent-Pool, aquired}
use leda.Scheduler.Frames.{deliver-Frames, emmit_local-Frames}

abbrev pub Unbounded : Kernel → Type 0
Unbounded k =
    (k.ready_queue.capacity ≡ negsuc 0) × ((s : ℕ) → (k.slots s).event_queue.capacity ≡ negsuc 0)

pub Unbounded-same : (m : Marshal) (k k' : Kernel) → SameGraph m k k' → Unbounded k → Unbounded k'
Unbounded-same m k k' (e, f, ready, shapes, net) (r, q) = (ready ∙ r, (λ s. (shapes s).1 ∙ q s))

push-Unbounded :
    (k : Kernel) (held : List Instance) (i : Instance)
    → Unbounded k
    → Pool k (i ∷ held)
    → Ensures (λ _ k'. Pool k' held) Never (push_ready_queue (some i) k)
unfolding push_ready_queue
push-Unbounded k held i (open_, queues) p =
    let e = Fifo.try_push-unbounded k.ready_queue (some i) open_ in
    let kept = push_ready_queue-Pool k held i p in
    rw (e, push_ready_queue) (rw (e, push_ready_queue) at kept)

-- What a send that succeeded leaves.
abbrev pub Placed : List Instance → Option (List Value) → Kernel → Type 0
Placed held r k = (r ≡ some (boolean true ∷ [])) × Pool k held

delivered :
    (m : Marshal) (s : ℕ) (values : List Value) (held : List Instance) (dst : Option Instance)
    (k : Kernel)
    → Unbounded k
    → s < k.n_s
    → copy_each m values ≢ none
    → extract_event m values ≢ none
    → Aquired s held dst k
    → Ensures (Placed held) Never (deliver m s values dst k)
unfolding deliver copy_values_directly instance_try_push_pending_event slot_at
delivered m s values held none k open_ lt copies extracts (none_rests, p) =
    elim (Option-cases (extract_event m values)) [
      | inl e ↦ absurd (extracts e)
      | inr (e, h) ↦
          rw (h, lt→ltb _ _ lt, Fifo.try_push-unbounded (k.slots s).event_queue e (open_.1 s))
            (
              refl,
              put_slot-Pool k held held s p (pend-SlotOk s _ (k.slots s) _ (p s) none_rests)
                  (λ j ne. refl),
            )
    ]
delivered m s values held (some dst) k open_ lt copies extracts (own, p) =
    elim (Option-cases (copy_each m values)) [
      | inl e ↦ absurd (copies e)
      | inr (vs, h) ↦ rw h (
          then-Ensures (λ _ k'. Pool k' held) Never (Placed held) _ _
            (push-Unbounded k held (record dst { stack = _; args = _ }) open_ p)
            (λ b k' fits. (refl, fits)))
    ]

counted :
    (con start : ℤ) (r : Option (List Value)) (k : Kernel) (held : List Instance)
    → Connects con k.n_c
    → Placed held r k
    → Ensures (Placed held) Never (count_if_sent con start r k)
counted con start r k held connects (sent, p) = rw sent (
    then-Ensures (λ _ k'. Pool k' held) Never (Placed held) _ _
      (count_sent-Pool con start k held Never connects p) (λ _ k' fits. (refl, fits)))

-- `emmit` to a local stage of the graph, with values that can be copied and encoded and a connector of the graph, where neither the ready queue nor any queue of pending events has a bound, returns true and never sleeps or faults; the graph and the bounds are as they were, and every stage's tables keep fitting.
pub emmit_local-Placed :
    (p : Platform) (start : ℤ) (s : ℕ) (con : ℤ) (values : List Value) (k : Kernel)
    (held : List Instance)
    → Unbounded k
    → s < k.n_s
    → Connects con k.n_c
    → ((n : ℤ) → p.boot s n ≢ load_error)
    → copy_each p.marshal values ≢ none
    → extract_event p.marshal values ≢ none
    → Pool k held
    → Ensures
        (λ r k'. SameGraph p.marshal k k' × Placed held r k')
        Never
        (emmit_local p start s con values k)
unfolding emmit_local
emmit_local-Placed p start s con values k held open_ lt connects loads copies extracts fits =
    with-Framed p.marshal (Placed held) Never k _
      (then-Ensures (λ i k'. SameGraph p.marshal k k' × Aquired s held i k') Never (Placed held) _ _
        (aquired p.marshal p.boot k held s Never lt loads fits)
        (λ i k' (same, got).
          then-Ensures (λ r k''. SameGraph p.marshal k' k'' × Placed held r k'') Never (Placed held)
            _ _
            (with-Framed p.marshal _ _ k' _
              (delivered p.marshal s values held i k' (Unbounded-same p.marshal k k' same open_)
                (subst (λ n. s < n) (sym same.0) lt) copies extracts got)
              (deliver-Frames p.marshal s values i k'))
            (λ r k'' (same', sent).
              counted con start r k'' held (subst (Connects con) (sym (same'.1 ∙ same.1)) connects)
                sent)))
      (emmit_local-Frames p start s con values k)
