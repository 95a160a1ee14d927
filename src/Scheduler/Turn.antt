-- ===== src/Scheduler/Turn.antt =====
-- The turns of a thread: src/kernel/scheduler.c from `thread_resume_instance` to `thread_main`.
use leda.Prelude.{ℕ, zero, suc, true, Option, none, some, List, [], ◌∷◌, ◌++◌, length}
use leda.Prelude.Int.{ℤ, pos, negsuc, ◌-ℤ◌}
use leda.Lua.{Value, boolean, number, Stack, nil_and, to_integer}
use leda.Queue.Fifo
use leda.Queue.Fifo.{Fifo}
use leda.Atomic.{add_to}
use leda.Stats.{stats_update_events, stats_update_error, stats_inactive_instance}
use leda.Event.{EventData, restore_event, copy_values_directly}
use leda.Kernel.{Instance, Kernel, ok, fault, M, pure, ◌>>=◌, ◌>>◌, expect, now_secs, change_stats}
use leda.Instance.{
  as_size, slot_at, push_ready_queue, instance_destroy, instance_aquire, instance_release,
}
use leda.Remote.Connection.{send_async_event}
use leda.Wait.{resume_with, event_wait_io, event_sleep, event_do_file_aio}
use leda.Scheduler.{
  Platform, emmit, Status, ended, emmit_cohort_status, emmit_remote_status, wait_io_status, file_io,
  sleep, pcall_error, destroy, nice, unknown, status_of,
}

-- What a handler does when it is resumed: it raises an error, returns or yields values, or calls
-- `emmit` and goes on with what that returns.
pub data Script : Type 0 where
  raises : Script
  returns : List Value → Script
  emits : List Value → (Option (List Value) → Script) → Script

abbrev pub Handler : Type 0
Handler = Kernel → Instance → Script

unfoldable pub run_script : Platform → Script → M (Option (List Value))
run_script p raises = pure none
run_script p (returns vs) = pure (some vs)
run_script p (emits vs next) = emmit p vs >>= λ r. run_script p (next r)

-- `emmit_self`
unfoldable pub emmit_self : Instance → M (Unit {0})
emmit_self i = resume_with i (boolean true ∷ [])

abbrev pub count_cohort : ℕ → ℤ → ℤ → M (Unit {0})
count_cohort stage (negsuc c) start = pure tt
count_cohort stage (pos c) start = do
  now ← now_secs
  change_stats (stats_update_events stage (pos 1) c (now -ℤ start))

abbrev pub cohort_to :
    Platform → Instance → ℕ → ℤ → ℤ → List Value → Option Instance → M (Option Instance)
cohort_to p caller s con start values none =
    slot_at s
    >> resume_with caller (nil_and "Cannot get a parallel instance of the stage.")
    >> pure none
cohort_to p caller s con start values (some callee) = do
  stack ← expect (copy_values_directly p.marshal (callee.stack ++ callee.handler ∷ []) values)
  resume_with caller (boolean true ∷ [])
  count_cohort caller.stage con start
  pure (some (record callee { stack = stack; args = length values }))

-- `emmit_cohort`: the instance that the thread goes on with, if any.
abbrev pub cohort_args : Platform → Instance → Stack → M (Option Instance)
cohort_args p caller (dst ∷ con ∷ values) = do
  start ← now_secs
  callee ← instance_aquire p.boot (as_size (to_integer dst))
  cohort_to p caller (as_size (to_integer dst)) (to_integer con) start values callee
cohort_args p caller _ = λ k. fault

unfoldable pub emmit_cohort : Platform → Instance → M (Option Instance)
emmit_cohort p caller = cohort_args p caller caller.stack

-- What `send_async_event` returns is not looked at.
abbrev pub remote_args : Platform → Instance → Stack → M (Unit {0})
remote_args p caller (dst ∷ con ∷ values) = do
  start ← now_secs
  bytes ← expect (p.marshal.encode_all values)
  send_async_event p.link (record caller { stack = dst ∷ values }) (to_integer dst) (to_integer con)
      start bytes
  pure tt
remote_args p caller _ = λ k. fault

-- `emmit_remote`. `mar_encode` returns a string or raises an error, which nothing catches here.
unfoldable pub emmit_remote : Platform → Instance → M (Unit {0})
emmit_remote p caller = remote_args p caller caller.stack

abbrev pub tail : Stack → Stack
tail [] = []
tail (v ∷ vs) = vs

-- `lua_remove(i->L,1)`
abbrev pub without_status : Instance → Instance
without_status i = record i { stack = tail i.stack }

-- The `switch` of `thread_resume_instance`.
unfoldable pub act : Platform → Instance → Status → M (Option Instance)
act p i ended = instance_release p.marshal i >> pure none
act p i pcall_error =
    change_stats (stats_update_error i.stage (pos 1))
    >> change_stats (stats_inactive_instance i.stage)
    >> instance_destroy i
    >> pure none
act p i destroy = change_stats (stats_inactive_instance i.stage) >> instance_destroy i >> pure none
act p i emmit_cohort_status = emmit_cohort p (without_status i)
act p i emmit_remote_status = emmit_remote p (without_status i) >> pure none
act p i wait_io_status = event_wait_io p.registered (without_status i) >> pure none
act p i file_io = event_do_file_aio p.submitted (without_status i) >> pure none
act p i sleep = event_sleep p.timer_added (without_status i) >> pure none
act p i nice = emmit_self i >> pure none
act p i unknown = instance_destroy i >> pure none

-- The status is 0, which is no code, if the first result is no number.
abbrev pub status_in : Stack → Status
status_in (number n ∷ _) = status_of n
status_in _ = unknown

abbrev pub after_call : Platform → Instance → Option (List Value) → M (Option Instance)
after_call p i none = act p i pcall_error
after_call p i (some vs) = act p (record i { stack = vs }) (status_in vs)

abbrev pub unpack_event : Platform → Instance → Option EventData → M Instance
unpack_event p i none = pure i
unpack_event p i (some e) = do
  (stack, args) ← expect (restore_event p.marshal (i.stack ++ i.handler ∷ []) e)
  pure (record i { stack = stack; args = args; packed_event = none })

-- `thread_resume_instance`, up to the call of itself at the end of `emmit_cohort`: the instance to
-- resume next, if any.
unfoldable pub thread_resume_instance : Platform → Handler → Instance → M (Option Instance)
thread_resume_instance p h i = do
  j ← unpack_event p i i.packed_event
  r ← λ k. run_script p (h k j) k
  after_call p j r

abbrev pub go_on : (Instance → M (Option Instance)) → Option Instance → M (Option Instance)
go_on resume none = pure none
go_on resume (some callee) = resume callee

-- At most that many instances, one after the other: the one that is left to resume, if any.
unfoldable pub run_turns : ℕ → Platform → Handler → Instance → M (Option Instance)
run_turns zero p h i = pure (some i)
run_turns (suc fuel) p h i =
    thread_resume_instance p h i >>= go_on (λ callee. run_turns fuel p h callee)

-- What became of a thread: it waits in `queue_pop`, has ended, or has run instances.
pub data Turned : Type 0 where
  waits ends : Turned
  ran : Option Instance → Turned

abbrev pub turn :
    ℕ → Platform → Handler → Option (Option Instance × Fifo (Option Instance)) → M Turned
turn fuel p h none = pure waits
turn fuel p h (some (none, q)) =
    λ k. ok ends (record k { ready_queue = q; pool_size = add_to k.pool_size (negsuc 0) })
turn fuel p h (some (some i, q)) =
    λ k. (run_turns fuel p h i >>= λ left. pure (ran left)) (record k { ready_queue = q })

-- One round of `thread_main`, for a thread that takes its instance while no other waits in
-- `queue_pop`; Queue.queue_pop has the wait.
unfoldable pub thread_main_round : ℕ → Platform → Handler → M Turned
thread_main_round fuel p h k = turn fuel p h (Fifo.try_pop k.ready_queue) k

-- `thread_kill`
unfoldable pub thread_kill : M (Unit {0})
thread_kill = push_ready_queue none

-- `thread_new`, where the thread starts.
unfoldable pub thread_new : M (Unit {0})
thread_new k = ok tt (record k { pool_size = add_to k.pool_size (pos 1) })
