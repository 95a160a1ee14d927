-- ===== src/Scheduler/Examples.antt =====
-- The theorems on src/kernel/scheduler.c for the sample graph.
use leda.Prelude.{ℕ, ◌++◌, some, ◌≡◌, refl, true, none, [], ◌∷◌, List, arith}
use leda.Prelude.Int.{pos, negsuc}
use leda.Lua.{number}
use leda.Lua.Samples.{by_number}
use leda.Scheduler.Delivery.{Queued, Readied, with_values, deliver-Queued, deliver-Readied}
use leda.Event.{
  EventData, unpacked, number_element, restored_values, extract_event, copy_elements,
  copy_event_element,
}
use leda.Kernel.{Instance, fault, and_then, pure}
use leda.Instance.{instance_aquire}
use leda.Scheduler.Send.{leda_send, n_s-faults}
use leda.Instance.Samples.{runner, running, running-Pool, boots, boots_load}
use leda.Scheduler.Samples.{platform, message, message_copies, message_extracts}
use leda.Remote.Wire.{frame, header, le_bytes, int_bits, Got, got, got_again}
use leda.Remote.Wire.Transfer.{arrives}
use leda.Scheduler.Receive.{read_event, acknowledge}
use leda.Scheduler.Arrival.{read_event-frame, read_event-faults}
use leda.Instance.Places.{Ensures}
use leda.Instance.Places.Release.{Sleeps}
use leda.Scheduler.{deliver, emmit_local, emmit_packed_event}
use leda.Scheduler.Sends.{Sent, emmit_local-Pool}
use leda.Scheduler.{ended_code}
use leda.Scheduler.Turn.{Handler, emits, returns}
use leda.Scheduler.Settled.{Settled}

emmit_local-Pool_example :
    Ensures
      (Sent (runner ∷ []))
      (Sleeps (runner ∷ []) 1)
      (emmit_local platform (pos 0) 1 (pos 0) message running)
emmit_local-Pool_example =
    emmit_local-Pool platform (pos 0) 1 (pos 0) message running (runner ∷ []) (omega arith)
      (omega arith) boots_load message_copies message_extracts running-Pool

abbrev message_event : EventData
message_event = unpacked (number_element (pos 7) ∷ [])

message_taken : extract_event by_number message ≡ some message_event
unfolding extract_event copy_elements copy_event_element
message_taken = refl

deliver-Queued_example :
    Queued 1 message_event running (deliver by_number 1 message none running)
    × (restored_values by_number message_event ≡ some message)
deliver-Queued_example = deliver-Queued by_number 1 message running (omega arith) message_taken

deliver-Readied_example :
    Readied (with_values runner message) running (deliver by_number 1 message (some runner) running)
deliver-Readied_example = deliver-Readied by_number 1 message runner running message_taken

n_s-faults_example :
    (leda_send platform (number (pos 2) ∷ message) running ≡ fault)
    × (instance_aquire boots 2 running ≡ fault)
n_s-faults_example = n_s-faults platform message running

abbrev payload : List ℕ
payload = 7 ∷ 8 ∷ []

-- The header comes in one piece, the payload in two, and a byte of the next frame follows.
abbrev header_bytes : List ℕ
header_bytes = 1 ∷ 0 ∷ 0 ∷ 0 ∷ 2 ∷ 0 ∷ 0 ∷ 0 ∷ 0 ∷ 0 ∷ 0 ∷ 0 ∷ []

abbrev stream : List Got
stream = got 7 [] ∷ got_again ∷ got 8 (28 ∷ []) ∷ []

framed : 28 ∷ header_bytes ++ arrives stream ≡ frame (pos 1) payload ++ 28 ∷ []
unfolding frame header le_bytes int_bits
framed = refl

read_event-frame_example :
    read_event platform true [] (got 28 header_bytes ∷ stream) running
    ≡ and_then (emmit_packed_event platform 1 payload running) (λ res. pure (acknowledge true res))
read_event-frame_example =
    read_event-frame platform true [] (pos 1) payload (28 ∷ []) 28 header_bytes stream running
      (omega arith) (omega arith) (omega arith) (omega arith) (omega arith) framed

-- It sends the message to stage 1, and ends.
abbrev sender : Handler
sender k i =
    emits (number (pos 1) ∷ number (negsuc 0) ∷ message)
      (λ r. returns (number (pos ended_code) ∷ []))

-- The same frame for stage 7 of a graph of two stages.
abbrev foreign_bytes : List ℕ
foreign_bytes = 7 ∷ 0 ∷ 0 ∷ 0 ∷ 2 ∷ 0 ∷ 0 ∷ 0 ∷ 0 ∷ 0 ∷ 0 ∷ 0 ∷ []

foreign : 28 ∷ foreign_bytes ++ arrives stream ≡ frame (pos 7) payload ++ 28 ∷ []
unfolding frame header le_bytes int_bits
foreign = refl

read_event-faults_example :
    read_event platform true [] (got 28 foreign_bytes ∷ stream) running ≡ fault
read_event-faults_example =
    read_event-faults platform true [] (pos 7) payload (28 ∷ []) 28 foreign_bytes stream running
      (omega arith) (omega arith) (omega arith) (omega arith) (omega arith) (omega arith) foreign
