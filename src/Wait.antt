-- ===== src/Wait.antt =====
-- Instances that wait in the event loop of src/kernel/event.c, and what wakes them. The stack of an
-- instance holds what it yielded, without the status code. libevent and the file operations are the
-- environment's: whether an event could be registered, a timer
-- added or a request submitted is an argument.
pub mod Held
pub mod Handed
mod Examples
use leda.Prelude.{
  ℕ, Bool, true, false, Option, none, some, List, [], ◌∷◌, ◌++◌, length, if◌then◌else◌,
}
use leda.Prelude.Int.{ℤ, pos, ltb_ℤ, eqb_ℤ}
use leda.Lua.{Value, boolean, number, string, nil_and, arg, number_of, string_of, userdata_of}
use leda.Kernel.{Instance, Wake, socket, timer, file, Kernel, Run, ok, fault, M}
use leda.Instance.{push_ready_queue}

-- `lua_settop(L,0); GET_HANDLER(L)`, the pushed values, and `i->args`, their number.
abbrev pub reply : Instance → List Value → Instance
reply i vs = record i { stack = i.handler ∷ vs; args = length vs }

abbrev pub resume_with : Instance → List Value → M (Unit {0})
resume_with i vs = push_ready_queue (some (reply i vs))

-- The event loop holds the instance from now on.
abbrev pub park : Instance → Wake → M (Unit {0})
park i w k = ok tt (record k { waiting = k.waiting ++ (i, w) ∷ [] })

-- `io_ready`
unfoldable pub io_ready : Instance → M (Unit {0})
io_ready i = resume_with i (boolean true ∷ [])

-- `EV_READ` and `EV_WRITE` for a mode.
unfoldable pub modes : ℤ → Option (Bool × Bool)
modes mode =
    if eqb_ℤ mode (pos 1)
    then some (true, false)
    else if eqb_ℤ mode (pos 2)
    then some (false, true)
    else if eqb_ℤ mode (pos 3)
    then some (true, true)
    else none

-- `event_base_once`; nothing looks at an instance that was not registered.
abbrev pub register : Bool → Instance → Wake → M (Unit {0})
register true i w k = park i w k
register false i w k = ok tt k

abbrev pub wait_on : Bool → Instance → ℤ → Option (Bool × Bool) → M (Unit {0})
wait_on registered i fd none = resume_with i (nil_and "Invalid argument")
wait_on registered i fd (some (reads, writes)) = register registered i (socket fd reads writes)

abbrev pub wait_io_args : Bool → Instance → Option ℤ → Option ℤ → M (Unit {0})
wait_io_args registered i none mode = resume_with i (nil_and "Invalid argument")
wait_io_args registered i (some fd) none = resume_with i (nil_and "Invalid argument")
wait_io_args registered i (some fd) (some mode) = wait_on registered i fd (modes mode)

-- `event_wait_io`, for a descriptor and a mode; `registered` tells whether `event_base_once` succeeds,
-- which the source does not look at.
unfoldable pub event_wait_io : Bool → Instance → M (Unit {0})
event_wait_io registered i =
    wait_io_args registered i (number_of (arg 1 i.stack)) (number_of (arg 2 i.stack))

abbrev pub set_timer : Bool → Instance → ℤ → M (Unit {0})
set_timer true i time = park i (timer time)
set_timer false i time = resume_with i (nil_and "Error setting timer event")

abbrev pub sleep_args : Bool → Instance → Option ℤ → M (Unit {0})
sleep_args added i none = resume_with i (nil_and "Invalid argument")
sleep_args added i (some time) =
    if ltb_ℤ time (pos 0) then resume_with i (nil_and "Invalid timer") else set_timer added i time

-- `event_sleep`; `added` tells whether `event_add` succeeds.
unfoldable pub event_sleep : Bool → Instance → M (Unit {0})
event_sleep added i = sleep_args added i (number_of (arg 1 i.stack))

-- A request that was submitted keeps the instance; nothing looks at one that was not.
abbrev pub submit : Bool → Instance → M (Unit {0})
submit true i k = park i file k
submit false i k = ok tt k

abbrev pub if_given {ℓ} : {A : Type ℓ} → Instance → Option A → M (Unit {0}) → M (Unit {0})
if_given i none next = resume_with i (nil_and "Invalid argument")
if_given i (some a) next = next

abbrev pub aio_mode : Bool → Instance → Option ℤ → M (Unit {0})
aio_mode submitted i none = resume_with i (nil_and "Invalid argument")
aio_mode submitted i (some mode) =
    if eqb_ℤ mode (pos 1)
    then if_given i (number_of (arg 3 i.stack)) (submit submitted i)
    else if eqb_ℤ mode (pos 2)
    then if_given i (string_of (arg 3 i.stack)) (submit submitted i)
    else resume_with i (nil_and "Invalid argument")

abbrev pub aio_args : Bool → Instance → Option ℕ → M (Unit {0})
aio_args submitted i none k = fault
aio_args submitted i (some f) k = aio_mode submitted i (number_of (arg 2 i.stack)) k

-- `event_do_file_aio`: a first argument that is no file raises an error that nothing catches.
unfoldable pub event_do_file_aio : Bool → Instance → M (Unit {0})
event_do_file_aio submitted i = aio_args submitted i (userdata_of (arg 1 i.stack))

-- What a file operation did: the result and the bytes of a read, or the result of a write.
pub data Completion : Type 0 where
  read_done : ℤ → List ℕ → Completion
  write_done : ℤ → Completion

unfoldable pub completion_values : Completion → List Value
completion_values (read_done res bytes) =
    if ltb_ℤ (pos 0) res then string bytes ∷ [] else nil_and "EOF"
completion_values (write_done res) =
    if ltb_ℤ (pos 0) res then number res ∷ [] else nil_and "Write error"

-- One round of the loop in `event_aio_op_ready`.
unfoldable pub aio_op_ready : Instance → Completion → M (Unit {0})
aio_op_ready i c = resume_with i (completion_values c)
