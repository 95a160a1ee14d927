-- ===== src/Instance/Places/Release.antt =====
-- `instance_release` and `push_ready_queue` keep every stage's tables fitting.
use leda.Prelude.{
  ℕ, suc, ◌+◌, ◌<◌, ◌≡◌, refl, ◌≢◌, sym, ap, subst, Option, none, some, List, [], ◌∷◌, ◌++◌, All,
  lt→ltb, arith,
}
use leda.Prelude.Int.{pos}
use leda.Lua.{Marshal, Value}
use leda.Queue.Fifo
use leda.Queue.Fifo.{Fifo}
use leda.Event.{EventData, restored_values, restore_event}
use leda.Kernel.{Instance, Slot, Kernel, put_slot}
use leda.Instance.{slot_at, push_ready_queue, serve, instance_release}
use leda.Instance.Places.{of_stage, ready_at, busy, SlotOk, Pool, Ensures, then-Ensures}
use leda.Instance.Places.Slots.{served-SlotOk, recycle_room, rest-SlotOk}
use leda.Instance.Places.Pool.{put_slot-Pool, hold, hold_other}

ready_at-snoc :
    (s : ℕ) (i : Instance) (is : List (Option Instance))
    → ready_at s (is ++ some i ∷ []) ≡ ready_at s is + of_stage s i
ready_at-snoc s i [] = omega arith
ready_at-snoc s i (none ∷ is) = ready_at-snoc s i is
ready_at-snoc s i (some j ∷ is) = omega (arith, ready_at-snoc s i is)

-- An instance that falls asleep in `queue_push` is still held.
abbrev pub Sleeps : List Instance → ℕ → Option Instance → Kernel → Type 0
Sleeps held s none k = ⊥
Sleeps held s (some i) k = (i.stage ≡ s) × Pool k (i ∷ held)

-- `push_ready_queue` of a held instance never faults: it returns with the instance no longer held but in the queue, or sleeps with the instance still held; every stage's tables keep fitting.
pub push_ready_queue-Pool :
    (k : Kernel) (held : List Instance) (i : Instance)
    → Pool k (i ∷ held)
    → Ensures (λ _ k'. Pool k' held) (Sleeps held i.stage) (push_ready_queue (some i) k)
unfolding push_ready_queue
push_ready_queue-Pool k held i p = from (Fifo.try_push k.ready_queue (some i)) refl
  where
    moved :
        (q : Fifo (Option Instance))
        → Fifo.try_push k.ready_queue (some i) ≡ some q
        → (s : ℕ) → busy k (i ∷ held) s ≡ busy (record k { ready_queue = q }) held s
    moved q e s = omega (
      arith,
      ap (ready_at s) (Fifo.try_push-items k.ready_queue q (some i) e),
      ready_at-snoc s i k.ready_queue.items,
    )

    from :
        (o : Option (Fifo (Option Instance)))
        → Fifo.try_push k.ready_queue (some i) ≡ o
        → Ensures (λ _ k'. Pool k' held) (Sleeps held i.stage) (push_ready_queue (some i) k)
    from none e = rw (e, push_ready_queue) (refl, p)
    from (some q) e =
        rw (e, push_ready_queue) (λ s. subst (SlotOk s (k.slots s)) (moved q e s) (p s))

-- The pending events of the stage can be unpacked.
abbrev pub Unpacks : Marshal → List EventData → Type 0
Unpacks m = All (λ e. restored_values m e ≢ none)

serve-Pool :
    (m : Marshal) (k : Kernel) (held : List Instance) (i : Instance)
    → i.stage < k.n_s
    → Unpacks m (k.slots i.stage).event_queue.items
    → Pool k (i ∷ held)
    → Ensures
        (λ r k'. (r ≡ pos 0) × Pool k' held)
        (Sleeps held i.stage)
        (serve m i (k.slots i.stage) (Fifo.try_pop (k.slots i.stage).event_queue) k)
unfolding restore_event
serve-Pool m k held i lt unpacks p = from (Fifo.try_pop slot.event_queue) refl
  where
    slot : Slot
    slot = k.slots i.stage

    fits : SlotOk i.stage slot (suc (busy k held i.stage))
    fits = subst (SlotOk i.stage slot) (hold k held i i.stage refl) (p i.stage)

    from :
        (o : Option (EventData × Fifo EventData))
        → Fifo.try_pop slot.event_queue ≡ o
        → Ensures (λ r k'. (r ≡ pos 0) × Pool k' held) (Sleeps held i.stage) (serve m i slot o k)
    from none e = rw (recycle_room fits i) (
      refl,
      put_slot-Pool k (i ∷ held) held i.stage p
          (rest-SlotOk fits i refl (Fifo.try_pop-none slot.event_queue e))
          (λ j ne. sym (hold_other k held i i.stage j refl ne)),
    )
    from (some (ev, q)) e = unpacked (restored_values m ev) refl
      where
        known : restored_values m ev ≢ none
        known = (subst (Unpacks m) (Fifo.try_pop-some slot.event_queue q ev e) unpacks).0

        kept : Pool (put_slot i.stage (record slot { event_queue = q }) k) (i ∷ held)
        kept =
            put_slot-Pool k (i ∷ held) (i ∷ held) i.stage p (served-SlotOk (p i.stage) e)
              (λ j ne. refl)

        unpacked :
            (o : Option (List Value))
            → restored_values m ev ≡ o
            → Ensures
                (λ r k'. (r ≡ pos 0) × Pool k' held)
                (Sleeps held i.stage)
                (serve m i slot (some (ev, q)) k)
        unpacked none r = absurd (known r)
        unpacked (some vs) r = rw r (
            then-Ensures (λ _ k'. Pool k' held) (Sleeps held i.stage)
              (λ r' k'. (r' ≡ pos 0) × Pool k' held) _ _ (push_ready_queue-Pool _ held _ kept)
              (λ _ k'' fits. (refl, fits)))

-- `instance_release` never faults, returns 0 (it never destroys an instance: the recycle queue has room), and keeps every stage's tables fitting, for a held instance of a stage of the graph whose pending events can be unpacked; it sleeps only with the instance still held, for a place in the ready queue.
pub instance_release-Pool :
    (m : Marshal) (k : Kernel) (held : List Instance) (i : Instance)
    → i.stage < k.n_s
    → Unpacks m (k.slots i.stage).event_queue.items
    → Pool k (i ∷ held)
    → Ensures (λ r k'. (r ≡ pos 0) × Pool k' held) (Sleeps held i.stage) (instance_release m i k)
unfolding instance_release slot_at
instance_release-Pool m k held i lt unpacks p =
    rw (lt→ltb _ _ lt) (serve-Pool m _ held (record i { stack = [] }) lt unpacks p)
