-- ===== src/Queue/Examples.antt =====
-- Runs of src/kernel/queue.c on a small heap: tests, and the theorems on concrete queues.
use leda.Prelude.{ℕ, ◌≡◌, refl, ◌≢◌, true, false, none, some, List, [], ◌∷◌, ◌⊎◌, update, arith}
use leda.Prelude.Int.{pos, negsuc, ◌+ℤ◌, ◌-ℤ◌}
use leda.Queue.Fifo
use leda.Queue.Fifo.{Fifo}
use leda.Queue.Cells.{Cell}
use leda.Queue.Linked.{Linked}
use leda.Queue.Refine.{Holds, Pushes, Pops, try_push_refines, try_pop_refines, pop_refines}
use leda.Queue.Free.{queue_free_frees, queue_free_spins}
use leda.Queue.Waiters.{Sys, pushes, blocks, resumes, Reach, here, next, Sound}
use leda.Queue.Conserve.{Reach-Sound, push_overwrites}
use leda.Queue.{
  Heap, Store, silent, empty_queue, done, wait, freed, running, is_full, is_drained, queue_try_push,
  push_first, unlink_head, decrement_size, queue_pop, pop_resume, queue_try_pop, queue_free,
}

-- 70 and then 80, in the cells 7 and 8.
abbrev two_cells : List Cell
two_cells = (7, 70) ∷ (8, 80) ∷ []

abbrev two_heap : Heap
two_heap =
    update (update (λ _. none) 7 (some (record { ptr = 70; next = 8 }))) 8
      (some (record { ptr = 80; next = 0 }))

abbrev two_store : Store
two_store = record {
  heap = two_heap;
  queue = record { head = 7; tail = 8; size = pos 2; capacity = pos 3 };
}

abbrev two_fifo : Fifo ℕ
two_fifo = record { items = 70 ∷ 80 ∷ []; capacity = pos 3 }

two-Linked : Linked two_store two_cells
two-Linked = record {
  head = refl;
  tail = refl;
  chain = (omega arith, refl, ((omega arith, tt)), ((omega arith, refl, tt, tt)));
}

two-Holds : Holds two_store two_fifo
two-Holds = record {
  cells = two_cells;
  linked = two-Linked;
  items = refl;
  size = refl;
  capacity = refl;
}

try_push_refines_example :
    Pushes two_store (queue_try_push 9 90 two_store) (Fifo.try_push two_fifo 90)
try_push_refines_example = try_push_refines 9 90 (omega arith) refl two-Holds

try_pop_refines_example : Pops two_store (queue_try_pop two_store) (Fifo.try_pop two_fifo)
try_pop_refines_example = try_pop_refines two-Holds

pop_refines_example :
    ((two_fifo.items ≡ []) × (queue_pop two_store ≡ wait silent (decrement_size two_store)))
    ⊎ ((two_fifo.items ≢ []) × (queue_pop two_store ≡ queue_try_pop two_store))
pop_refines_example = pop_refines two-Holds

queue_free_frees_example : queue_free 3 two_store ≡ freed (70 ∷ 80 ∷ [])
queue_free_frees_example = queue_free_frees 3 two-Holds (omega arith)

-- A queue with one cell that a waiting thread has already taken off its size.
abbrev owed_store : Store
owed_store = record {
  heap = update (λ _. none) 7 (some (record { ptr = 70; next = 0 }));
  queue = record { head = 7; tail = 7; size = pos 0; capacity = negsuc 0 };
}

owed_drained : is_drained owed_store ≡ true
unfolding is_drained
owed_drained = refl

queue_free_spins_example : queue_free 100 owed_store ≡ running
queue_free_spins_example = queue_free_spins owed_store 100 (omega arith) owed_drained

abbrev owed_sys : Sys
owed_sys = record { store = owed_store; waiting = 1; pushed = 70 ∷ []; popped = [] }

owed-Linked : Linked owed_store ((7, 70) ∷ [])
owed-Linked = record { head = refl; tail = refl; chain = (omega arith, refl, tt, tt) }

owed_sound : Sound owed_sys
unfolding ◌+ℤ◌
owed_sound = record { cells = (7, 70) ∷ []; linked = owed-Linked; balance = refl; order = refl }

owed_room : is_full owed_store ≡ false
unfolding is_full
owed_room = refl

push_overwrites_example :
    (s : Store) × (queue_try_push 9 90 owed_store ≡ done true empty_queue s)
    × Linked s ((9, 90) ∷ [])
unfolding owed_sound
push_overwrites_example =
    push_overwrites owed_sys 9 90 owed_sound (omega arith) owed_room (omega arith)

-- A thread waits on the empty queue, another pushes 50, and the first one wakes up and takes it.
abbrev empty_store : Store
empty_store = record {
  heap = λ _. none;
  queue = record { head = 0; tail = 0; size = pos 0; capacity = negsuc 0 };
}

abbrev start : Sys
start = record { store = empty_store; waiting = 0; pushed = []; popped = [] }

start-Sound : Sound start
unfolding ◌+ℤ◌
start-Sound = record {
  cells = [];
  linked = record { head = refl; tail = tt; chain = tt };
  balance = refl;
  order = refl;
}

abbrev asleep : Store
asleep = decrement_size empty_store

abbrev pushed_store : Store
pushed_store = record {
  heap = update (λ _. none) 9 (some (record { ptr = 50; next = 0 }));
  queue = record { head = 9; tail = 9; size = pos 0; capacity = negsuc 0 };
}

abbrev popped_store : Store
popped_store = record {
  heap = update (pushed_store.heap) 9 none;
  queue = record { head = 0; tail = 9; size = pos 0; capacity = negsuc 0 };
}

abbrev end : Sys
end = record { store = popped_store; waiting = 0; pushed = 50 ∷ []; popped = 50 ∷ [] }

waits : queue_pop empty_store ≡ wait silent asleep
unfolding queue_pop pop_resume
waits = refl

puts : queue_try_push 9 50 asleep ≡ done true empty_queue pushed_store
unfolding queue_try_push is_full is_drained push_first ◌-ℤ◌ ◌+ℤ◌
puts = refl

gets : pop_resume pushed_store ≡ done (some 50) silent popped_store
unfolding pop_resume unlink_head ◌-ℤ◌ ◌+ℤ◌
gets = refl

abbrev run : Reach start end
run =
    next (next (next here (blocks waits)) (pushes 9 50 (omega arith) refl puts))
      (resumes 0 refl gets)

Reach-Sound_example : Sound end
Reach-Sound_example = Reach-Sound start-Sound run ((((tt, tt), λ _. refl)), tt)
