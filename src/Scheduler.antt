-- ===== src/Scheduler.antt =====
-- Sending events and running instances: src/kernel/scheduler.c. A Lua function called from C takes
-- the values on its stack and returns values, or raises a Lua error, which is `none`; the changes it
-- made before the error stay. Messages leave out the names of stages.
pub mod Turn
pub mod Frames
pub mod Sends
pub mod Unbounded
pub mod Turns
pub mod Placed
mod Ends
pub mod Settled
pub mod Runs
pub mod Delivery
pub mod Send
pub mod Samples
pub mod Yield
pub mod Descriptor
pub mod Receive
pub mod Arrival
mod Examples
use leda.Prelude.{
  ℕ, zero, suc, ◌-◌, Bool, true, false, Option, none, some, List, [], ◌∷◌, ◌++◌, length, leb, ltb,
  if◌then◌else◌,
}
use leda.Prelude.Int.{ℤ, pos, negsuc, ◌-ℤ◌, leb_ℤ}
use leda.Lua.{Value, nil, boolean, number, string, Stack, codes, nil_and, to_integer, Marshal}
use leda.Stats.{stats_update_events, stats_update_error, stats_inactive_instance}
use leda.Event.{
  EventData, event_new_packed_event, extract_event, restore_event, copy_values_directly,
}
use leda.Kernel.{
  Instance, Slot, Kernel, Run, ok, blocked, fault, M, pure, ◌>>=◌, ◌>>◌, expect, now_secs,
  change_stats,
}
use leda.Instance.{
  Boot, as_size, slot_at, push_ready_queue, instance_try_push_pending_event, instance_destroy,
  instance_aquire, instance_release,
}
use leda.Remote.Connection.{Link, send_sync_event}
use leda.Wait.{reply, resume_with, event_wait_io, event_sleep, event_do_file_aio}

-- What runs outside this code: how the Lua state of a new instance comes out, the marshalling
-- library, the network, and whether an event can be registered, a timer be set and a file operation be
-- submitted.
pub record Platform : Type 0 where
  pub boot : ℕ → ℤ → Boot
  pub marshal : Marshal
  pub link : Link
  pub registered : Bool
  pub timer_added : Bool
  pub submitted : Bool

-- The `p` of a connector.
abbrev pub producer_of : ℕ → M ℕ
producer_of c k = if ltb c k.n_c then ok (k.producer c) k else fault

-- `if(con_id>=0) STATS_UPDATE_EVENTS(CONNECTOR(con_id)->p,1,con_id,...)`
unfoldable pub count_sent : ℤ → ℤ → M (Unit {0})
count_sent (negsuc c) start = pure tt
count_sent (pos c) start = do
  now ← now_secs
  p ← producer_of c
  change_stats (stats_update_events p (pos 1) c (now -ℤ start))

-- The copied values go to the acquired instance.
abbrev pub hand_over : Instance → List Value → Option Stack → M (Option (List Value))
hand_over dst values none = pure none
hand_over dst values (some stack) =
    push_ready_queue (some (record dst { stack = stack; args = length values }))
    >> pure (some (boolean true ∷ []))

abbrev pub enqueue : ℕ → Option EventData → M (Option (List Value))
enqueue s none = pure none
enqueue s (some e) = do
  fits ← instance_try_push_pending_event s e
  pure (some (if fits then boolean true ∷ [] else nil_and "Event queue for the stage is full."))

-- To an instance if one was acquired, else to the stage's event queue.
unfoldable pub deliver : Marshal → ℕ → List Value → Option Instance → M (Option (List Value))
deliver m s values none = enqueue s (extract_event m values)
deliver m s values (some dst) =
    hand_over dst values (copy_values_directly m (dst.stack ++ dst.handler ∷ []) values)

-- Only an event that was delivered is counted.
abbrev pub was_sent : Option (List Value) → Bool
was_sent (some (boolean b ∷ _)) = b
was_sent _ = false

abbrev pub count_if_sent : ℤ → ℤ → Option (List Value) → M (Option (List Value))
count_if_sent con start result =
    if was_sent result then count_sent con start >> pure result else pure result

-- The local part of `emmit`.
unfoldable pub emmit_local : Platform → ℤ → ℕ → ℤ → List Value → M (Option (List Value))
emmit_local p start s con values = do
  dst ← instance_aquire p.boot s
  result ← deliver p.marshal s values dst
  count_if_sent con start result

abbrev pub send_encoded : Platform → ℤ → ℤ → ℤ → Option (List ℕ) → M (Option (List Value))
send_encoded p dst con start none = pure none
send_encoded p dst con start (some bytes) = do
  response ← send_sync_event p.link dst bytes
  count_sent con start
  pure (some response)

-- `emmit_remote_sync`. `mar_encode` returns a string or raises an error.
unfoldable pub emmit_remote_sync : Platform → ℤ → ℤ → List Value → M (Option (List Value))
emmit_remote_sync p dst con values = do
  start ← now_secs
  send_encoded p dst con start (p.marshal.encode_all values)

abbrev pub emmit_to : Platform → ℤ → ℤ → ℤ → List Value → Slot → M (Option (List Value))
emmit_to p start dst con values slot =
    if slot.local
    then emmit_local p start (as_size dst) con values
    else emmit_remote_sync p dst con values

-- `emmit`, for a stage id, a connector id and the values of the event.
unfoldable pub emmit : Platform → List Value → M (Option (List Value))
emmit p (dst ∷ con ∷ values) = do
  start ← now_secs
  slot ← slot_at (as_size (to_integer dst))
  emmit_to p start (to_integer dst) (to_integer con) values slot
emmit p _ = λ k. fault

abbrev pub deliver_packed : ℕ → EventData → Option Instance → M ℤ
deliver_packed s e none = do
  fits ← instance_try_push_pending_event s e
  pure (if fits then pos 0 else negsuc 0)
deliver_packed s e (some dst) =
    push_ready_queue (some (record dst { packed_event = some e })) >> pure (pos 0)

-- `emmit_packed_event`, for an event from the network.
unfoldable pub emmit_packed_event : Platform → ℕ → List ℕ → M ℤ
emmit_packed_event p s bytes = do
  dst ← instance_aquire p.boot s
  deliver_packed s (event_new_packed_event bytes) dst

-- The status codes of scheduler.h, which count up from 0xF1F21AB.
pub data Status : Type 0 where
  ended emmit_cohort_status emmit_remote_status wait_io_status file_io sleep pcall_error destroy
        nice unknown :
      Status

abbrev pub ended_code : ℕ
ended_code = 253698475

unfoldable pub status_after : ℕ → Status
status_after zero = ended
status_after (suc zero) = emmit_cohort_status
status_after (suc (suc zero)) = emmit_remote_status
status_after (suc (suc (suc zero))) = wait_io_status
status_after (suc (suc (suc (suc zero)))) = file_io
status_after (suc (suc (suc (suc (suc zero))))) = sleep
status_after (suc (suc (suc (suc (suc (suc zero)))))) = pcall_error
status_after (suc (suc (suc (suc (suc (suc (suc zero))))))) = destroy
status_after (suc (suc (suc (suc (suc (suc (suc (suc zero)))))))) = nice
status_after _ = unknown

unfoldable pub status_of : ℤ → Status
status_of (pos n) = if leb ended_code n then status_after (n - ended_code) else unknown
status_of (negsuc n) = unknown

-- `get_return_status_name`
unfoldable pub get_return_status_name : ℤ → List ℕ
get_return_status_name code = elim (status_of code) [
  | ended ↦ codes "ENDED"
  | emmit_cohort_status ↦ codes "EMMIT_COHORT"
  | pcall_error ↦ codes "PCALL_ERROR"
  | emmit_remote_status ↦ codes "EMMIT_REMOTE"
  | nice ↦ codes "NICE"
  | wait_io_status ↦ codes "WAIT_IO"
  | file_io ↦ codes "FILE_IO"
  | sleep ↦ codes "SLEEP"
  | destroy ↦ codes "DESTROY"
  | unknown ↦ codes "UNKNOWN"
]
