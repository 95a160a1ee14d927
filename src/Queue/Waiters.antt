-- ===== src/Queue/Waiters.antt =====
-- Threads that block in `queue_pop`. A step is one stay under the mutex; a thread that waits may be
-- woken at any time, also for no reason. `queue_pop` lowers the size before it waits, so with `w`
-- threads waiting the size is the number of cells less `w`.
use leda.Prelude.{ℕ, suc, ◌<◌, ◌≡◌, ◌≢◌, true, false, none, some, List, [], ◌∷◌, ◌++◌, length}
use leda.Prelude.Int.{pos, ◌+ℤ◌}
use leda.Queue.Cells.{Cell, values}
use leda.Queue.Linked.{Linked}
use leda.Queue.{
  Store, Signal, done, wait, is_drained, queue_try_push, queue_pop, pop_resume, queue_try_pop,
}

-- The queue, the number of threads that wait in `queue_pop`, and the history: what the successful
-- pushes put in and what the pops took out, both oldest first.
pub record Sys : Type 0 where
  pub store : Store
  pub waiting : ℕ
  pub pushed : List ℕ
  pub popped : List ℕ

-- A queue whose size is not positive has no cell: no push may come between the wake-up call for a
-- waiting thread and that thread.
abbrev pub IsClear : Store → Type 0
IsClear s = is_drained s ≡ true → s.queue.head ≡ 0

pub data Step (x : Sys) : Sys → Type 0 where
  pushes :
      (el v : ℕ) {sig : Signal} {s : Store}
      → el ≢ 0
      → x.store.heap el ≡ none
      → queue_try_push el v x.store ≡ done true sig s
      → Step x (record x { store = s; pushed = x.pushed ++ v ∷ [] })
  refuses :
      (el v : ℕ) {sig : Signal} {s : Store}
      → queue_try_push el v x.store ≡ done false sig s
      → Step x (record x { store = s })
  tries :
      {v : ℕ} {sig : Signal} {s : Store}
      → queue_try_pop x.store ≡ done (some v) sig s
      → Step x (record x { store = s; popped = x.popped ++ v ∷ [] })
  misses :
      {sig : Signal} {s : Store}
      → queue_try_pop x.store ≡ done none sig s
      → Step x (record x { store = s })
  pops :
      {v : ℕ} {sig : Signal} {s : Store}
      → queue_pop x.store ≡ done (some v) sig s
      → Step x (record x { store = s; popped = x.popped ++ v ∷ [] })
  blocks :
      {sig : Signal} {s : Store}
      → queue_pop x.store ≡ wait sig s
      → Step x (record x { store = s; waiting = suc x.waiting })
  resumes :
      (w : ℕ) {v : ℕ} {sig : Signal} {s : Store}
      → x.waiting ≡ suc w
      → pop_resume x.store ≡ done (some v) sig s
      → Step x (record x { store = s; waiting = w; popped = x.popped ++ v ∷ [] })
  blocks_again :
      {sig : Signal} {s : Store}
      → 0 < x.waiting
      → pop_resume x.store ≡ wait sig s
      → Step x (record x { store = s })

pub data Reach (x : Sys) : Sys → Type 0 where
  here : Reach x x
  next : {y z : Sys} → Reach x y → Step y z → Reach x z

-- Every push of a run finds the queue clear.
abbrev pub PushClear : {x y : Sys} → Step x y → Type 0
PushClear {x} (pushes el v nz free r) = IsClear x.store
PushClear _ = Unit

abbrev pub RunClear : {x y : Sys} → Reach x y → Type 0
RunClear here = Unit
RunClear (next r st) = RunClear r × PushClear st

-- The cells are linked, the size is their number less the waiting threads, and what was pushed is
-- what was popped and then what is still linked, in this order.
pub record Sound (x : Sys) : Type 0 where
  pub cells : List Cell
  pub linked : Linked x.store cells
  pub balance : x.store.queue.size +ℤ pos x.waiting ≡ pos (length cells)
  pub order : x.pushed ≡ x.popped ++ values cells
