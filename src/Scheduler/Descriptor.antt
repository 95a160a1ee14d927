-- ===== src/Scheduler/Descriptor.antt =====
-- The thread descriptors of src/kernel/scheduler.c. A descriptor that was freed is `none`.
use leda.Prelude.{
  ◌≡◌, refl, Bool, true, not, ◌||◌, Bool-cases, Option, none, some, List, [], ◌∷◌, inl, inr,
  if◌then◌else◌, arith,
}
use leda.Prelude.Int.{ℤ, pos, eqb_ℤ}
use leda.Lua.{Value, boolean, number, nil_and}

-- `struct thread_data`, without the system's thread.
pub record Thread : Type 0 where
  pub status : ℤ
  pub destroy : Bool

-- DONE and CANCELLED.
abbrev pub is_done : Thread → Bool
is_done t = eqb_ℤ t.status (pos 3)

abbrev pub is_cancelled : Thread → Bool
is_cancelled t = eqb_ℤ t.status (pos 5)

abbrev pub after_free : Thread → Option Thread
after_free t = if t.destroy then none else some t

-- `thread_destroy`
pub thread_destroy : Thread → List Value × Option Thread
thread_destroy t =
    if not (is_done t) || not (is_cancelled t)
    then (nil_and "Tried to destroy an ongoing Thread.", some t)
    else (boolean true ∷ [], after_free t)

-- `thread_gc`
pub thread_gc : Thread → List Value × Option Thread
thread_gc t =
    if is_done t
    then thread_destroy (record t { destroy = true })
    else ([], some (record t { destroy = true }))

-- `thread_rawkill`, on the descriptor.
pub thread_rawkill : Thread → List Value × Option Thread
thread_rawkill t = ([], some (record t { destroy = true }))

-- `thread_status`
pub thread_status : Thread → List Value × Option Thread
thread_status t = (number t.status ∷ [], some t)

-- The end of `thread_main`.
pub thread_end : Thread → Option Thread
thread_end t = after_free (record t { status = pos 3 })

-- The calls that Lua can make on a descriptor.
pub data Call : Type 0 where
  calls_destroy calls_gc calls_rawkill calls_status : Call

pub call : Call → Thread → List Value × Option Thread
call calls_destroy t = thread_destroy t
call calls_gc t = thread_gc t
call calls_rawkill t = thread_rawkill t
call calls_status t = thread_status t

abbrev pub call_more : (Thread → Option Thread) → Option Thread → Option Thread
call_more next none = none
call_more next (some t) = next t

pub run_calls : List Call → Thread → Option Thread
run_calls [] t = some t
run_calls (c ∷ cs) t = call_more (run_calls cs) (call c t).1

destroy-keeps : (t : Thread) → (thread_destroy t).1 ≡ some t
unfolding thread_destroy
destroy-keeps t = ground arith

call-keeps : (c : Call) (t : Thread) → (u : Thread) × ((call c t).1 ≡ some u)
unfolding call thread_gc thread_rawkill thread_status
call-keeps calls_destroy t = (t, destroy-keeps t)
call-keeps calls_gc t = elim (Bool-cases (is_done t)) [
  | inl e ↦ (record t { destroy = true }, rw e (destroy-keeps (record t { destroy = true })))
  | inr e ↦ (record t { destroy = true }, rw e refl)
]
call-keeps calls_rawkill t = (_, refl)
call-keeps calls_status t = (t, refl)

-- Whatever Lua calls on a thread's descriptor, also once the thread has ended or was killed, the descriptor is never freed.
pub run_calls-keeps : (cs : List Call) (t : Thread) → (u : Thread) × (run_calls cs t ≡ some u)
unfolding run_calls
run_calls-keeps [] t = (t, refl)
run_calls-keeps (c ∷ cs) t =
    let (u, e) = call-keeps c t in let (v, f) = run_calls-keeps cs u in (v, rw e f)
