-- ===== src/Dispatch.antt =====
-- The dispatch of the kernel's event base and the end of a run: `leda_raise_yield_event`, the callbacks
-- `kernel_yield_event`, `kernel_error_event`, `kernel_event_event`, `kernel_release_event` and
-- `kernel_timer_event`, and the last part of `leda_run`, in src/kernel/kernel.c. libevent runs
-- the callbacks of active events one after the other: the list of those that it runs is an argument.
pub mod Quit
mod Examples
use Prim.Native.String.{String}
use leda.Prelude.{
  ℕ, ◌+◌, ◌-◌, Bool, true, false, Option, none, some, List, [], ◌∷◌, ◌++◌, length, drop,
  if◌then◌else◌,
}
use leda.Prelude.Int.{ℤ, pos, ◌+ℤ◌}
use leda.Lua.{Value, number, Marshal}
use leda.Stats.{Raised, release_event, event_event, error_event}
use leda.Event.{EventData, event_new_packed_event, restore_event}
use leda.Scheduler.{ended_code}

-- Which callbacks the controller's table holds when they are looked up, and whether a call of them
-- comes back; a Lua error leaves the dispatch.
pub record Callbacks : Type 0 where
  pub on_error : Bool
  pub on_event : Bool
  pub on_release : Bool
  pub on_timer : Bool
  pub finish : Bool
  pub comes_back : String → List Value → Bool

-- What an event that `event_active` or a timer makes run holds.
pub data Active : Type 0 where
  raised : Raised → Active
  yielded : EventData → Active
  ticked : ℤ → Active

-- The values on `L_main` above the arguments of `leda_run`, `L_main_args`, whether
-- `event_base_loopexit` was called, and the calls of the controller's functions so far.
pub record Main : Type 0 where
  pub stack : List Value
  pub main_args : ℕ
  pub exits : Bool
  pub calls : List (String × List Value)

-- `lua_getfield`, and `lua_call` if that gives a function, else `lua_pop`: either way the stack is as it was.
abbrev pub call_if : Callbacks → Bool → String → List Value → Main → Option Main
call_if cb false name args m = some m
call_if cb true name args m =
    if cb.comes_back name args
    then some (record m { calls = m.calls ++ (name, args) ∷ [] })
    else none

-- An id of the kernel counts from 0, one of Lua from 1.
abbrev pub lua_id : ℕ → Value
lua_id id = number (pos id +ℤ pos 1)

-- `kernel_error_event`
unfoldable pub kernel_error_event : Callbacks → ℕ → Main → Option Main
kernel_error_event cb id m = call_if cb cb.on_error "on_error" (lua_id id ∷ []) m

-- `kernel_event_event`
unfoldable pub kernel_event_event : Callbacks → ℕ → ℤ → ℕ → ℤ → ℤ → Main → Option Main
kernel_event_event cb id ev c_id c_ev time m =
    call_if cb cb.on_event "on_event"
      (lua_id id ∷ number ev ∷ lua_id c_id ∷ number c_ev ∷ number time ∷ []) m

-- `kernel_release_event`
unfoldable pub kernel_release_event : Callbacks → ℕ → ℤ → Main → Option Main
kernel_release_event cb id time m =
    call_if cb cb.on_release "on_release" (lua_id id ∷ number time ∷ []) m

-- `kernel_timer_event`
unfoldable pub kernel_timer_event : Callbacks → ℤ → Main → Option Main
kernel_timer_event cb n m = call_if cb cb.on_timer "on_timer" (number n ∷ []) m

abbrev pub leave_with : Main → Option (List Value × ℕ) → Option Main
leave_with m none = none
leave_with m (some (stack, args)) =
    some (record m { stack = stack; main_args = args; exits = true })

-- `kernel_yield_event`
unfoldable pub kernel_yield_event : Marshal → EventData → Main → Option Main
kernel_yield_event l e m = leave_with m (restore_event l (m.stack) e)

-- The callback of an active event.
unfoldable pub run_active : Marshal → Callbacks → Active → Main → Option Main
run_active l cb (raised (error_event id)) m = kernel_error_event cb id m
run_active l cb (raised (event_event id ev c_id c_ev time)) m =
    kernel_event_event cb id ev c_id c_ev time m
run_active l cb (raised (release_event id time)) m = kernel_release_event cb id time m
run_active l cb (yielded e) m = kernel_yield_event l e m
run_active l cb (ticked n) m = kernel_timer_event cb n m

abbrev pub then_main : Option Main → (Main → Option Main) → Option Main
then_main none f = none
then_main (some m) f = f m

-- `event_base_dispatch`, up to its return.
unfoldable pub dispatch : Marshal → Callbacks → List Active → Main → Option Main
dispatch l cb [] m = some m
dispatch l cb (a ∷ ran) m = then_main (run_active l cb a m) (dispatch l cb ran)

-- The topmost `n` values.
abbrev pub top : ℕ → List Value → List Value
top n vs = drop (length vs - n) vs

-- `return L_main_args`, after the call of `finish`.
abbrev pub results : Main → List Value
results m = top m.main_args m.stack

abbrev pub at_main : Option Main → Option (List Value)
at_main none = none
at_main (some m) = some (results m)

-- `leda_run` from its dispatch on: what it returns to Lua, or a Lua error.
unfoldable pub finish_run : Marshal → Callbacks → List Active → Main → Option (List Value)
finish_run l cb ran m = at_main (then_main (dispatch l cb ran m) (call_if cb cb.finish "finish" []))

abbrev pub quit_with : List Value → Option (List ℕ) → Option (EventData × List Value)
quit_with values none = none
quit_with values (some bytes) =
    some (event_new_packed_event bytes, number (pos (ended_code + 7)) ∷ values)

-- `leda_raise_yield_event`: the event that becomes active, and what the handler yields; none is the Lua
-- error of an encoding that fails.
unfoldable pub leda_raise_yield_event : Marshal → List Value → Option (EventData × List Value)
leda_raise_yield_event l values = quit_with values (l.encode_all values)
