-- ===== src/Queue.antt =====
-- The locked queue of src/kernel/queue.c on an explicit heap of `struct queue_element` cells.
-- A function that locks the mutex is one step on the queue and the heap; a step that has to wait on
-- a condition variable returns `wait` with the state in which it gave the mutex up, and goes on
-- from the test of its loop. `malloc` is the environment's: its result is an argument, 0 for NULL.
pub mod Fifo
mod Cells
mod Linked
pub mod Refine
pub mod Free
pub mod Waiters
pub mod Blocking
pub mod Conserve
mod Examples
use leda.Prelude.{
  ℕ, zero, suc, ◌≡◌, Bool, true, false, ◌&&◌, Option, none, some, List, [], ◌∷◌, ◌==◌, update,
  if◌then◌else◌,
}
use leda.Prelude.Int.{ℤ, pos, negsuc, ◌+ℤ◌, ◌-ℤ◌, ltb_ℤ, leb_ℤ, eqb_ℤ}

-- `struct queue_element`. An address is a number, and 0 is NULL.
pub record Element : Type 0 where
  pub ptr : ℕ
  pub next : ℕ

-- The cells that are allocated.
abbrev pub Heap : Type 0
Heap = ℕ → Option Element

-- `struct LFQueue`, without its lock and its two condition variables.
pub record LfQueue : Type 0 where
  pub head : ℕ
  pub tail : ℕ
  pub size : ℤ
  pub capacity : ℤ

pub record Store : Type 0 where
  pub heap : Heap
  pub queue : LfQueue

-- Which condition variable a call signals when it leaves.
pub data Signal : Type 0 where
  silent full_queue empty_queue : Signal

-- `fault` is a read or a write through a pointer to no cell, or through NULL.
pub data Run {ℓ} (A : Type ℓ) : Type ℓ where
  done : A → Signal → Store → Run A
  wait : Signal → Store → Run A
  fault : Run A

-- `queue_new`; false stands for a failed `malloc`.
pub queue_new : Bool → Option LfQueue
queue_new false = none
queue_new true = some (record { head = 0; tail = 0; size = pos 0; capacity = negsuc 0 })

-- `queue_set_capacity`
pub queue_set_capacity : ℤ → Store → Store
queue_set_capacity capacity s = record s { queue = record (s.queue) { capacity = capacity } }

-- `queue_capacity`
pub queue_capacity : Store → ℤ
queue_capacity s = s.queue.capacity

-- `queue_size`
pub queue_size : Store → ℤ
queue_size s = s.queue.size

-- The test `size<=0`.
pub is_drained : Store → Bool
is_drained s = leb_ℤ s.queue.size (pos 0)

-- `queue_isempty`
pub queue_isempty : Store → Bool
unfolding is_drained
queue_isempty s = is_drained s

-- The test on the capacity in `queue_push` and `queue_try_push`.
pub is_full : Store → Bool
is_full s = leb_ℤ (pos 0) s.queue.capacity && eqb_ℤ s.queue.size s.queue.capacity

-- The new cell, `el->ptr=*source; el->next=NULL`.
abbrev pub new_element : ℕ → Element
new_element source = record { ptr = source; next = 0 }

-- `q->head=q->tail=el; ++ q->size`, with the signal that follows.
pub push_first : ℕ → ℕ → Store → Run Bool
push_first el source s = done true empty_queue (record {
  heap = update s.heap el (some (new_element source));
  queue = record (s.queue) { head = el; tail = el; size = s.queue.size +ℤ pos 1 };
})

-- `q->tail->next=el; q->tail=el; ++ q->size`.
pub push_last : ℕ → ℕ → Store → Run Bool
push_last el source s = elim (update s.heap el (some (new_element source)) s.queue.tail) [
  | none ↦ fault
  | some last ↦ done true silent (record {
    heap =
        update (update s.heap el (some (new_element source))) s.queue.tail
          (some (record last { next = el }));
    queue = record (s.queue) { tail = el; size = s.queue.size +ℤ pos 1 };
  })
]

-- The test of the loop in `queue_push`, which does not look at the sign of the capacity any more.
pub at_size : Store → Bool
at_size s = eqb_ℤ s.queue.size s.queue.capacity

-- `queue_push` after its loop. `el` is what `malloc` returns.
pub push_element : ℕ → ℕ → Store → Run Bool
push_element el source s =
    if el == 0
    then fault
    else if s.queue.tail == 0
    then push_first el source s
    else push_last el source s

-- The loop of `queue_push`, from its test or from a wake-up.
pub push_resume : ℕ → ℕ → Store → Run Bool
push_resume el source s = if at_size s then wait silent s else push_element el source s

-- `queue_push`: whether there is a bound is tested once, before the loop.
pub queue_push : ℕ → ℕ → Store → Run Bool
queue_push el source s =
    if leb_ℤ (pos 0) s.queue.capacity then push_resume el source s else push_element el source s

-- `queue_try_push`
pub queue_try_push : ℕ → ℕ → Store → Run Bool
queue_try_push el source s =
    if is_full s
    then done false silent s
    else if el == 0
    then fault
    else if is_drained s
    then push_first el source s
    else push_last el source s

-- The signal at the end of `queue_pop` and `queue_try_pop`: the queue was full.
abbrev pub pop_signal : LfQueue → Signal
pop_signal q =
    if ltb_ℤ (pos 0) q.capacity && eqb_ℤ (q.size +ℤ pos 1) q.capacity then full_queue else silent

-- `*destination=q->head->ptr; q->head=el->next; free(el)`, after which the call signals.
-- `q->tail` stays as it is.
pub unlink_head : Store → Run (Option ℕ)
unlink_head s = elim (s.heap s.queue.head) [
  | none ↦ fault
  | some el ↦ done (some el.ptr) (pop_signal s.queue) (record {
    heap = update s.heap s.queue.head none;
    queue = record (s.queue) { head = el.next };
  })
]

abbrev pub decrement_size : Store → Store
decrement_size s = record s { queue = record (s.queue) { size = s.queue.size -ℤ pos 1 } }

-- The loop of `queue_pop`, from the first test or from a wake-up.
pub pop_resume : Store → Run (Option ℕ)
pop_resume s = if s.queue.head == 0 then wait silent s else unlink_head s

-- `queue_pop`: the size falls before the wait.
pub queue_pop : Store → Run (Option ℕ)
queue_pop s = pop_resume (decrement_size s)

-- `queue_try_pop`; `none` stands for FALSE.
pub queue_try_pop : Store → Run (Option ℕ)
queue_try_pop s = if is_drained s then done none silent s else unlink_head (decrement_size s)

-- What `queue_free` does: the pointers it frees, in order, a fault, or no end within the fuel.
pub data Freed : Type 0 where
  freed : List ℕ → Freed
  crashed : Freed
  running : Freed

pub free_after : ℕ → Freed → Freed
free_after p (freed ps) = freed (p ∷ ps)
free_after p crashed = crashed
free_after p running = running

-- `while(q->head) { if(queue_try_pop(q,&p)) free(p); }`
pub queue_free : ℕ → Store → Freed
queue_free zero s = running
queue_free (suc fuel) s = elim (s.queue.head == 0) [
  | true ↦ freed []
  | false ↦ elim (queue_try_pop s) [
    | done (some p) _ s' ↦ free_after p (queue_free fuel s')
    | done none _ s' ↦ queue_free fuel s'
    | wait _ s' ↦ queue_free fuel s'
    | fault ↦ crashed
  ]
]
