-- ===== src/Scheduler/Placed.antt =====
-- Where the instance of a turn is afterwards, for each status that it can yield.
use leda.Prelude.{ℕ, length, ◌≡◌, true, Option, none, some, List, [], ◌∷◌, ◌++◌}
use leda.Prelude.Int.{ℤ}
use leda.Lua.{Value, boolean, arg, Stack, Marshal, nil_and, number_of, string_of, to_integer}
use leda.Event.{EventData, restored_values, copy_each}
use leda.Kernel.{Instance, acknowledgement, Slot, Kernel, put_slot}
use leda.Instance.{as_size, uncount}
use leda.Scheduler.{
  Platform, Status, ended, emmit_cohort_status, emmit_remote_status, wait_io_status, file_io, sleep,
  pcall_error, destroy, nice, unknown,
}
use leda.Scheduler.Turn.{tail, without_status}
use leda.Wait.{reply}
use leda.Wait.Handed.{Readied, Handed, asked_io, asked_sleep, asked_file}

-- The tables of one stage have changed; nothing else has moved.
abbrev pub Changed : ℕ → Slot → Kernel → Kernel → Type 0
Changed s slot k k' =
    (k'.slots ≡ (put_slot s slot k).slots)
    × (k'.ready_queue ≡ k.ready_queue)
    × (k'.waiting ≡ k.waiting)

-- The instance is in no place, and its stage counts one less.
abbrev pub Gone : Instance → Kernel → Kernel → Type 0
Gone i k k' = Changed i.stage (uncount (k.slots i.stage)) k k'

-- An instance of the same stage with the same handler, with these values for its next call.
abbrev pub Loaded : Instance → List Value → Instance → Type 0
Loaded i values j =
    (j.stage ≡ i.stage)
    × (j.handler ≡ i.handler)
    × (j.stack ≡ i.handler ∷ values)
    × (j.args ≡ length values)

-- With no pending event, the instance is the last that rests in its stage, with an empty stack.
-- Otherwise it takes the first event and is the last one in the ready queue, with the event's values.
abbrev pub Finished : Marshal → Instance → List EventData → Kernel → Kernel → Type 0
Finished m i [] k k' =
    let slot = k.slots i.stage in
    Changed i.stage
      (record slot {
        recycle_queue = record (slot.recycle_queue) {
          items = slot.recycle_queue.items ++ record i { stack = [] } ∷ [];
        };
      })
      k k'
Finished m i (e ∷ es) k k' =
    let slot = k.slots i.stage in
    (j : Instance) × (values : List Value) × (restored_values m e ≡ some values)
    × Loaded i values j
    × (k'.ready_queue.items ≡ k.ready_queue.items ++ some j ∷ [])
    × (k'.waiting ≡ k.waiting)
    × (k'.slots
        ≡ (put_slot i.stage (record slot { event_queue = record (slot.event_queue) { items = es } })
            k).slots)

-- What `emmit_cohort` leaves, for the number of the stage and the values: the thread has an instance
-- of that stage with copies of the values and the caller is ready with true, or the thread has none
-- and the caller is ready with nil and a message.
abbrev pub Called : Platform → Instance → Stack → Option Instance → Kernel → Kernel → Type 0
Called p i (dst ∷ con ∷ values) none k k' =
    (k'.waiting ≡ k.waiting)
    × (k'.ready_queue.items
        ≡ k.ready_queue.items
          ++ some (reply i (nil_and "Cannot get a parallel instance of the stage.")) ∷ [])
Called p i (dst ∷ con ∷ values) (some callee) k k' =
    (k'.waiting ≡ k.waiting)
    × (k'.ready_queue.items ≡ k.ready_queue.items ++ some (reply i (boolean true ∷ [])) ∷ [])
    × (callee.stage ≡ as_size (to_integer dst))
    × (callee.args ≡ length values)
    × ((before : Stack) × (copies : List Value) × (copy_each p.marshal values ≡ some copies)
        × (callee.stack ≡ before ++ copies))
Called p i _ r k k' = ⊥

-- The instance waits for the answer of another process, on the socket that it sent to.
abbrev pub Awaits : Instance → Kernel → Kernel → Type 0
Awaits i k k' =
    (j : Instance) × (fd : ℤ) × (j.stage ≡ i.stage)
    × (j.handler ≡ i.handler)
    × (k'.waiting ≡ k.waiting ++ (j, acknowledgement fd) ∷ [])
    × (k'.ready_queue ≡ k.ready_queue)

abbrev pub Alone : Option Instance → Type 0 → Type 0
Alone r P = (r ≡ none) × P

-- Where a status leaves the instance, and the instance that the thread goes on with.
abbrev pub Placed : Platform → Kernel → Instance → Status → Option Instance → Kernel → Type 0
Placed p k i ended r k' = Alone r (Finished p.marshal i (k.slots i.stage).event_queue.items k k')
Placed p k i pcall_error r k' = Alone r (Gone i k k')
Placed p k i destroy r k' = Alone r (Gone i k k')
Placed p k i unknown r k' = Alone r (Gone i k k')
Placed p k i emmit_cohort_status r k' = Called p (without_status i) (tail i.stack) r k k'
Placed p k i emmit_remote_status r k' = Alone r (Awaits i k k')
Placed p k i wait_io_status r k' =
    let stack = tail i.stack in
    Alone r (
      Handed (asked_io (number_of (arg 1 stack)) (number_of (arg 2 stack))) (without_status i) k k')
Placed p k i file_io r k' =
    let stack = tail i.stack in
    Alone r (
      Handed
        (asked_file (number_of (arg 2 stack)) (number_of (arg 3 stack)) (string_of (arg 3 stack)))
        (without_status i) k k')
Placed p k i sleep r k' =
    Alone r (
      Handed (asked_sleep p.timer_added (number_of (arg 1 (tail i.stack)))) (without_status i) k k')
Placed p k i nice r k' = Alone r (Readied (reply i (boolean true ∷ [])) k k')
