-- ===== src/Wait/Held.antt =====
-- An instance that yields to the event loop is handed over once: to the loop or to the ready queue.
use leda.Prelude.{
  ℕ, ◌+◌, ◌≡◌, subst, Bool, true, false, Bool-cases, Option, none, some, List, [], ◌∷◌, ◌++◌, inl,
  inr, arith,
}
use leda.Prelude.Int.{ℤ, pos, ltb_ℤ, eqb_ℤ}
use leda.Lua.{Value, userdata, arg, number_of, string_of}
use leda.Kernel.{Instance, Wake, Kernel}
use leda.Instance.Places.{of_stage, waiting_at, busy, SlotOk, Pool, Ensures}
use leda.Instance.Places.Release.{Sleeps, push_ready_queue-Pool}
use leda.Wait.{
  reply, resume_with, park, modes, wait_on, wait_io_args, event_wait_io, set_timer, sleep_args,
  event_sleep, submit, if_given, aio_mode, event_do_file_aio,
}

waiting_at-snoc :
    (s : ℕ) (i : Instance) (w : Wake) (is : List (Instance × Wake))
    → waiting_at s (is ++ (i, w) ∷ []) ≡ waiting_at s is + of_stage s i
waiting_at-snoc s i w [] = omega arith
waiting_at-snoc s i w ((j, v) ∷ is) = omega (arith, waiting_at-snoc s i w is)

abbrev pub Given : List Instance → Unit {0} → Kernel → Type 0
Given held u k = Pool k held

pub park-Pool :
    (k : Kernel) (held : List Instance) (i : Instance) (w : Wake)
    → Pool k (i ∷ held)
    → Ensures (Given held) (Sleeps held i.stage) (park i w k)
park-Pool k held i w p s = subst (SlotOk s (k.slots s)) moved (p s)
  where
    moved : busy k (i ∷ held) s ≡ busy (record k { waiting = k.waiting ++ (i, w) ∷ [] }) held s
    moved = omega (arith, waiting_at-snoc s i w k.waiting)

pub resume-Pool :
    (k : Kernel) (held : List Instance) (i : Instance) (vs : List Value)
    → Pool k (i ∷ held)
    → Ensures (Given held) (Sleeps held i.stage) (resume_with i vs k)
resume-Pool k held i vs p = push_ready_queue-Pool k held (reply i vs) p

-- `event_wait_io`, whatever was yielded, if its event can be registered, never loses the instance: it ends in the event loop, or in the ready queue with an error message, and every stage's tables keep fitting.
pub event_wait_io-Pool :
    (k : Kernel) (held : List Instance) (i : Instance)
    → Pool k (i ∷ held)
    → Ensures (Given held) (Sleeps held i.stage) (event_wait_io true i k)
unfolding event_wait_io
event_wait_io-Pool k held i p = args (number_of (arg 1 i.stack)) (number_of (arg 2 i.stack))
  where
    on :
        (fd : ℤ) (m : Option (Bool × Bool))
        → Ensures (Given held) (Sleeps held i.stage) (wait_on true i fd m k)
    on fd none = resume-Pool k held i _ p
    on fd (some (reads, writes)) = park-Pool k held i _ p

    args : (a b : Option ℤ) → Ensures (Given held) (Sleeps held i.stage) (wait_io_args true i a b k)
    args none b = resume-Pool k held i _ p
    args (some fd) none = resume-Pool k held i _ p
    args (some fd) (some mode) = on fd (modes mode)

-- `event_sleep`, whatever was yielded and whether or not the timer can be set, never loses the instance: it ends in the event loop, or in the ready queue with an error message, and every stage's tables keep fitting.
pub event_sleep-Pool :
    (added : Bool) (k : Kernel) (held : List Instance) (i : Instance)
    → Pool k (i ∷ held)
    → Ensures (Given held) (Sleeps held i.stage) (event_sleep added i k)
unfolding event_sleep
event_sleep-Pool added k held i p = args (number_of (arg 1 i.stack))
  where
    timed :
        (b : Bool) (time : ℤ) → Ensures (Given held) (Sleeps held i.stage) (set_timer b i time k)
    timed true time = park-Pool k held i _ p
    timed false time = resume-Pool k held i _ p

    args : (a : Option ℤ) → Ensures (Given held) (Sleeps held i.stage) (sleep_args added i a k)
    args none = resume-Pool k held i _ p
    args (some time) = elim (Bool-cases (ltb_ℤ time (pos 0))) [
      | inl e ↦ rw e (resume-Pool k held i _ p)
      | inr e ↦ rw e (timed added time)
    ]

-- `event_do_file_aio` of a yielded file never loses the instance if the request can be submitted: it ends in the event loop, or in the ready queue with an error message, and every stage's tables keep fitting.
pub event_do_file_aio-Pool :
    (k : Kernel) (held : List Instance) (i : Instance) (f : ℕ)
    → arg 1 i.stack ≡ userdata f
    → Pool k (i ∷ held)
    → Ensures (Given held) (Sleeps held i.stage) (event_do_file_aio true i k)
unfolding event_do_file_aio
event_do_file_aio-Pool k held i f is_file p = rw is_file (moded (number_of (arg 2 i.stack)))
  where
    given :
        {A : Type 0} (o : Option A)
        → Ensures (Given held) (Sleeps held i.stage) (if_given i o (submit true i) k)
    given none = resume-Pool k held i _ p
    given (some a) = park-Pool k held i _ p

    moded : (o : Option ℤ) → Ensures (Given held) (Sleeps held i.stage) (aio_mode true i o k)
    moded none = resume-Pool k held i _ p
    moded (some mode) = elim (Bool-cases (eqb_ℤ mode (pos 1))) [
      | inl e ↦ rw e (given (number_of (arg 3 i.stack)))
      | inr e ↦ elim (Bool-cases (eqb_ℤ mode (pos 2))) [
        | inl e' ↦ rw (e, e') (given (string_of (arg 3 i.stack)))
        | inr e' ↦ rw (e, e') (resume-Pool k held i _ p)
      ]
    ]
