-- ===== src/Scheduler/Sends.antt =====
-- Sending an event keeps every stage's tables fitting, and finds a place for it.
use leda.Prelude.{
  ℕ, ◌<◌, ◌≡◌, refl, ◌≢◌, subst, sym, ◌∙◌, Bool-cases, Option, none, some, Option-cases, List, [],
  ◌∷◌, inl, inr, lt→ltb,
}
use leda.Prelude.Int.{ℤ, pos, negsuc}
use leda.Lua.{Value, Marshal}
use leda.Queue.Fifo
use leda.Queue.Fifo.{Fifo}
use leda.Event.{EventData, extract_event, copy_each, copy_values_directly, event_new_packed_event}
use leda.Kernel.{Instance, Slot, Kernel, Run, ok}
use leda.Instance.{
  Boot, load_error, slot_at, push_event, instance_try_push_pending_event, instance_aquire,
  push_ready_queue,
}
use leda.Instance.Places.{SlotOk, Pool, Ensures, then-Ensures}
use leda.Instance.Places.Pool.{put_slot-Pool, Aquired, Never, instance_aquire-Pool}
use leda.Instance.Places.Release.{Sleeps, push_ready_queue-Pool}
use leda.Instance.Places.Frame.{SameGraph, with-Framed, instance_aquire-Frames}
use leda.Scheduler.Frames.{deliver-Frames}
use leda.Scheduler.{
  Platform, count_sent, deliver, was_sent, count_if_sent, emmit_local, deliver_packed,
  emmit_packed_event,
}

-- A sleep rule that does not sleep serves for any other.
pub never :
    {A : Type 0} (P : A → Kernel → Type 0) (Q : Option Instance → Kernel → Type 0) (r : Run A)
    → Ensures P Never r
    → Ensures P Q r
never P Q (ok a k) h = h
never P Q (Run.blocked i k) h = absurd h
never P Q Run.fault h = h

-- The connector id is negative or one of the graph.
abbrev pub Connects : ℤ → ℕ → Type 0
Connects (negsuc c) n = Unit
Connects (pos c) n = c < n

pub count_sent-Pool :
    (con start : ℤ) (k : Kernel) (held : List Instance) (Q : Option Instance → Kernel → Type 0)
    → Connects con k.n_c
    → Pool k held
    → Ensures (λ _ k'. Pool k' held) Q (count_sent con start k)
unfolding count_sent
count_sent-Pool (negsuc c) start k held Q lt p = p
count_sent-Pool (pos c) start k held Q lt p = rw (lt→ltb _ _ lt) p

-- Whatever comes back, the tables fit, and if that is an error none is held for it.
abbrev pub Sent : List Instance → Option (List Value) → Kernel → Type 0
Sent held r k = (r ≢ none) × Pool k held

-- A pending event finds no instance at rest.
pub pend-SlotOk :
    (s n : ℕ) (slot : Slot) (q : Fifo EventData)
    → SlotOk s slot n
    → slot.recycle_queue.items ≡ []
    → SlotOk s (record slot { event_queue = q }) n
pend-SlotOk s n slot q h none_rests = record {
  counted = h.counted;
  own = h.own;
  within = h.within;
  same = h.same;
  fair = inl none_rests;
}

pub push_pending-Pool :
    (k : Kernel) (held : List Instance) (s : ℕ) (e : EventData)
    (Q : Option Instance → Kernel → Type 0)
    → s < k.n_s
    → (k.slots s).recycle_queue.items ≡ []
    → Pool k held
    → Ensures (λ _ k'. Pool k' held) Q (instance_try_push_pending_event s e k)
unfolding instance_try_push_pending_event slot_at
push_pending-Pool k held s e Q lt none_rests p =
    rw (lt→ltb _ _ lt) (pushed (Fifo.try_push (k.slots s).event_queue e))
  where
    pushed :
        (o : Option (Fifo EventData))
        → Ensures (λ _ k'. Pool k' held) Q (push_event s (k.slots s) o k)
    pushed none = p
    pushed (some q) =
        put_slot-Pool k held held s p (pend-SlotOk s _ (k.slots s) q (p s) none_rests)
          (λ j ne. refl)

push_of :
    (k : Kernel) (held : List Instance) (s : ℕ) (dst : Instance)
    → dst.stage ≡ s
    → Pool k (dst ∷ held)
    → Ensures (λ _ k'. Pool k' held) (Sleeps held s) (push_ready_queue (some dst) k)
push_of k held s dst own p =
    subst (λ t. Ensures (λ _ k'. Pool k' held) (Sleeps held t) (push_ready_queue (some dst) k)) own
      (push_ready_queue-Pool k held dst p)

delivered :
    (m : Marshal) (s : ℕ) (values : List Value) (held : List Instance) (dst : Option Instance)
    (k : Kernel)
    → s < k.n_s
    → copy_each m values ≢ none
    → extract_event m values ≢ none
    → Aquired s held dst k
    → Ensures (Sent held) (Sleeps held s) (deliver m s values dst k)
unfolding deliver copy_values_directly
delivered m s values held none k lt copies extracts (none_rests, p) =
    elim (Option-cases (extract_event m values)) [
      | inl e ↦ absurd (extracts e)
      | inr (e, h) ↦ rw h (
          then-Ensures (λ _ k'. Pool k' held) (Sleeps held s) (Sent held) _ _
            (push_pending-Pool k held s e (Sleeps held s) lt none_rests p)
            (λ b k' fits. ((λ z. cc), fits)))
    ]
delivered m s values held (some dst) k lt copies extracts (own, p) =
    elim (Option-cases (copy_each m values)) [
      | inl e ↦ absurd (copies e)
      | inr (vs, h) ↦ rw h (
          then-Ensures (λ _ k'. Pool k' held) (Sleeps held s) (Sent held) _ _
            (push_of k held s (record dst { stack = _; args = _ }) own p)
            (λ b k' fits. ((λ z. cc), fits)))
    ]

count_if_sent-Pool :
    (con start : ℤ) (r : Option (List Value)) (k : Kernel) (held : List Instance) (s : ℕ)
    → Connects con k.n_c
    → Sent held r k
    → Ensures (Sent held) (Sleeps held s) (count_if_sent con start r k)
count_if_sent-Pool con start r k held s connects (got, p) = elim (Bool-cases (was_sent r)) [
  | inl e ↦ rw e (
      then-Ensures (λ _ k'. Pool k' held) (Sleeps held s) (Sent held) _ _
        (count_sent-Pool con start k held (Sleeps held s) connects p) (λ _ k' fits. (got, fits)))
  | inr e ↦ rw e (got, p)
]

pub aquired :
    (m : Marshal) (boot : ℕ → ℤ → Boot) (k : Kernel) (held : List Instance) (s : ℕ)
    (Q : Option Instance → Kernel → Type 0)
    → s < k.n_s
    → ((n : ℤ) → boot s n ≢ load_error)
    → Pool k held
    → Ensures (λ i k'. SameGraph m k k' × Aquired s held i k') Q (instance_aquire boot s k)
aquired m boot k held s Q lt loads fits =
    never (λ i k'. SameGraph m k k' × Aquired s held i k') Q (instance_aquire boot s k)
      (with-Framed m (Aquired s held) Never k _ (instance_aquire-Pool boot k held s lt loads fits)
        (instance_aquire-Frames m boot s k))

-- `emmit` to a local stage of the graph, with values that can be copied and encoded and a connector of the graph, raises no error and never faults: whether it takes an instance, makes one, or leaves the event in the stage's queue, every stage's tables keep fitting and no instance is lost; it sleeps only with the acquired instance still held, for a place in the ready queue.
pub emmit_local-Pool :
    (p : Platform) (start : ℤ) (s : ℕ) (con : ℤ) (values : List Value) (k : Kernel)
    (held : List Instance)
    → s < k.n_s
    → Connects con k.n_c
    → ((n : ℤ) → p.boot s n ≢ load_error)
    → copy_each p.marshal values ≢ none
    → extract_event p.marshal values ≢ none
    → Pool k held
    → Ensures (Sent held) (Sleeps held s) (emmit_local p start s con values k)
unfolding emmit_local
emmit_local-Pool p start s con values k held lt connects loads copies extracts fits =
    then-Ensures (λ i k'. SameGraph p.marshal k k' × Aquired s held i k') (Sleeps held s)
      (Sent held) _ _ (aquired p.marshal p.boot k held s (Sleeps held s) lt loads fits)
      (λ i k' (same, got).
        then-Ensures (λ r k''. SameGraph p.marshal k' k'' × Sent held r k'') (Sleeps held s)
          (Sent held) _ _
          (with-Framed p.marshal _ _ k' _
            (delivered p.marshal s values held i k' (subst (λ n. s < n) (sym same.0) lt) copies
              extracts got)
            (deliver-Frames p.marshal s values i k'))
          (λ r k'' (same', sent).
            count_if_sent-Pool con start r k'' held s
              (subst (Connects con) (sym (same'.1 ∙ same.1)) connects) sent))

packed_delivered :
    (s : ℕ) (e : EventData) (held : List Instance) (dst : Option Instance) (k : Kernel)
    → s < k.n_s
    → Aquired s held dst k
    → Ensures (λ _ k'. Pool k' held) (Sleeps held s) (deliver_packed s e dst k)
packed_delivered s e held none k lt (none_rests, p) =
    then-Ensures (λ _ k'. Pool k' held) (Sleeps held s) (λ _ k'. Pool k' held) _ _
      (push_pending-Pool k held s e (Sleeps held s) lt none_rests p) (λ b k' fits. fits)
packed_delivered s e held (some dst) k lt (own, p) =
    then-Ensures (λ _ k'. Pool k' held) (Sleeps held s) (λ _ k'. Pool k' held) _ _
      (push_of k held s (record dst { packed_event = some e }) own p) (λ b k' fits. fits)

-- `emmit_packed_event` for a stage of the graph never faults, whatever bytes the network brought: every stage's tables keep fitting and no instance is lost; it sleeps only with the acquired instance still held, for a place in the ready queue.
pub emmit_packed_event-Pool :
    (p : Platform) (s : ℕ) (bytes : List ℕ) (k : Kernel) (held : List Instance)
    → s < k.n_s
    → ((n : ℤ) → p.boot s n ≢ load_error)
    → Pool k held
    → Ensures (λ _ k'. Pool k' held) (Sleeps held s) (emmit_packed_event p s bytes k)
unfolding emmit_packed_event
emmit_packed_event-Pool p s bytes k held lt loads fits =
    then-Ensures (λ i k'. SameGraph p.marshal k k' × Aquired s held i k') (Sleeps held s)
      (λ _ k'. Pool k' held) _ _ (aquired p.marshal p.boot k held s (Sleeps held s) lt loads fits)
      (λ i k' (same, got).
        packed_delivered s (event_new_packed_event bytes) held i k'
          (subst (λ n. s < n) (sym same.0) lt) got)
