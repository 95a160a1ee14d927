-- ===== src/Scheduler/Yield.antt =====
-- The functions of src/kernel/scheduler.c with which a handler yields: each puts its status code under
-- its arguments. The thread reads the code back.
use leda.Prelude.{ℕ, ◌+◌, ◌≡◌, refl, ◌∷◌}
use leda.Prelude.Int.{pos}
use leda.Lua.{number, Stack}
use leda.Scheduler.{
  emmit_cohort_status, wait_io_status, file_io, sleep, destroy, ended_code, status_of, status_after,
}
use leda.Scheduler.Turn.{status_in, tail}

abbrev yield_with : ℕ → Stack → Stack
yield_with n args = number (pos (ended_code + n)) ∷ args

-- `cohort`
pub cohort : Stack → Stack
cohort args = yield_with 1 args

-- `wait_io`
pub wait_io : Stack → Stack
wait_io args = yield_with 3 args

-- `do_file_aio`
pub do_file_aio : Stack → Stack
do_file_aio args = yield_with 4 args

-- `leda_sleep`
pub leda_sleep : Stack → Stack
leda_sleep args = yield_with 5 args

-- `leda_destroy`
pub leda_destroy : Stack → Stack
leda_destroy args = yield_with 7 args

-- What a handler yields is what the thread acts on: the status that the thread reads is that of the function called, and `lua_remove` leaves the function's arguments.
pub yield-status :
    (args : Stack)
    → ((status_in (cohort args) ≡ emmit_cohort_status) × (tail (cohort args) ≡ args))
      × ((status_in (wait_io args) ≡ wait_io_status) × (tail (wait_io args) ≡ args))
      × ((status_in (do_file_aio args) ≡ file_io) × (tail (do_file_aio args) ≡ args))
      × ((status_in (leda_sleep args) ≡ sleep) × (tail (leda_sleep args) ≡ args))
      × ((status_in (leda_destroy args) ≡ destroy) × (tail (leda_destroy args) ≡ args))
unfolding cohort wait_io do_file_aio leda_sleep leda_destroy status_of status_after
yield-status args = ((refl, refl), (refl, refl), (refl, refl), (refl, refl), (refl, refl))
