-- ===== src/Queue/Refine.antt =====
-- With no thread waiting in `queue_pop`, the linked queue of queue.c is the queue of queue.h.
use leda.Prelude.{
  ℕ, ◌≡◌, refl, ◌≢◌, sym, ap, subst, ◌∙◌, ◌⊎◌, inl, inr, Bool, true, false, Bool-cases, Option,
  none, some, List, [], ◌∷◌, ◌++◌, length, length-append, ◌==◌, arith,
}
use leda.Prelude.Int.{pos, ◌+ℤ◌, ◌-ℤ◌, pos-+ℤ-one, pos_suc-sub-one}
use leda.Queue.Fifo
use leda.Queue.Fifo.{Fifo}
use leda.Queue.Cells.{Cell, first, values, values-snoc, length-values}
use leda.Queue.Linked.{Linked, push_first-Linked, push_last-Linked, unlink_head-Linked}
use leda.Queue.{
  Store, Signal, silent, empty_queue, Run, done, wait, is_full, is_drained, push_first, push_last,
  queue_try_push, unlink_head, decrement_size, queue_pop, pop_resume, queue_try_pop,
}

-- The store holds this queue, and no thread waits in `queue_pop`: the size is the number of cells.
pub record Holds (s : Store) (q : Fifo ℕ) : Type 0 where
  pub cells : List Cell
  pub linked : Linked s cells
  pub items : values cells ≡ q.items
  pub size : s.queue.size ≡ pos (length cells)
  pub capacity : s.queue.capacity ≡ q.capacity

-- A call that returns `r` does to the store what the queue operation does to the queue.
abbrev pub Pushes : Store → Run Bool → Option (Fifo ℕ) → Type 0
Pushes s r none = r ≡ done false silent s
Pushes s r (some q) = (sig : Signal) × (s' : Store) × (r ≡ done true sig s') × Holds s' q

abbrev pub Pops : Store → Run (Option ℕ) → Option (ℕ × Fifo ℕ) → Type 0
Pops s r none = r ≡ done none silent s
Pops s r (some (v, q)) = (sig : Signal) × (s' : Store) × (r ≡ done (some v) sig s') × Holds s' q

is_full-Holds : {s : Store} {q : Fifo ℕ} → Holds s q → is_full s ≡ Fifo.at_capacity q
unfolding is_full Fifo.at_capacity Fifo.size
is_full-Holds {s} {q} h = rw (h.size, h.capacity, ← h.items, length-values h.cells) refl

-- What linking a cell into a queue that is not full comes to.
abbrev pub Appends : Store → Fifo ℕ → ℕ → Run Bool → Type 0
Appends s q v r =
    (sig : Signal) × (s' : Store) × (r ≡ done true sig s')
    × Holds s' (record q { items = q.items ++ v ∷ [] })

append-Holds :
    {s s' : Store} {q : Fifo ℕ} (el v : ℕ) (h : Holds s q)
    → Linked s' (h.cells ++ (el, v) ∷ [])
    → s'.queue.size ≡ s.queue.size +ℤ pos 1
    → s'.queue.capacity ≡ s.queue.capacity
    → Holds s' (record q { items = q.items ++ v ∷ [] })
append-Holds el v h l sz cap = record {
  cells = h.cells ++ (el, v) ∷ [];
  linked = l;
  items = values-snoc h.cells el v ∙ ap (λ xs. xs ++ v ∷ []) h.items;
  size =
      sz
      ∙ ap (λ n. n +ℤ pos 1) h.size
      ∙ pos-+ℤ-one (length h.cells)
      ∙ ap pos (sym (length-append h.cells ((el, v) ∷ [])));
  capacity = cap ∙ h.capacity;
}

push_first-Appends :
    {s : Store} {q : Fifo ℕ} (el v : ℕ) (h : Holds s q)
    → el ≢ 0
    → h.cells ≡ []
    → Appends s q v (push_first el v s)
push_first-Appends {s} el v h nz e =
    let (s', r, l, sz, cap) = push_first-Linked s el v nz in
    (
      empty_queue,
      s',
      r,
      append-Holds el v h (subst (λ cs. Linked s' (cs ++ (el, v) ∷ [])) (sym e) l) sz cap,
    )

push_last-Appends :
    {s : Store} {q : Fifo ℕ} (el v : ℕ) (h : Holds s q) (a w : ℕ) (cs : List Cell)
    → el ≢ 0
    → s.heap el ≡ none
    → h.cells ≡ (a, w) ∷ cs
    → Appends s q v (push_last el v s)
push_last-Appends {s} el v h a w cs nz free e =
    let (s', r, l, sz, cap) =
      push_last-Linked s el v a w cs nz free (subst (Linked s) e h.linked) in
    (
      silent,
      s',
      r,
      append-Holds el v h (subst (λ ds. Linked s' (ds ++ (el, v) ∷ [])) (sym e) l) sz cap,
    )

pub List-cases :
    (cs : List Cell) → (cs ≡ []) ⊎ ((a : ℕ) × (w : ℕ) × (rest : List Cell) × (cs ≡ (a, w) ∷ rest))
List-cases [] = inl refl
List-cases ((a, w) ∷ cs) = inr (a, w, cs, refl)

pub ==-eq_false : {el : ℕ} → el ≢ 0 → (el == 0) ≡ false
==-eq_false nz = ground arith

drained_of_nil : {s : Store} {q : Fifo ℕ} (h : Holds s q) → h.cells ≡ [] → is_drained s ≡ true
unfolding is_drained
drained_of_nil h e = rw (h.size, ap length e) refl

not_drained :
    {s : Store} {q : Fifo ℕ} (h : Holds s q) (a w : ℕ) (cs : List Cell)
    → h.cells ≡ (a, w) ∷ cs
    → is_drained s ≡ false
unfolding is_drained
not_drained h a w cs e = rw (h.size, ap length e) (ground arith)

try_push-Appends :
    {s : Store} {q : Fifo ℕ} (el v : ℕ)
    → el ≢ 0
    → s.heap el ≡ none
    → is_full s ≡ false
    → Holds s q
    → Appends s q v (queue_try_push el v s)
unfolding queue_try_push
try_push-Appends {s} el v nz free room h = elim (List-cases h.cells) [
  | inl e ↦ rw (room, ==-eq_false nz, drained_of_nil h e) (push_first-Appends el v h nz e)
  | inr (a, w, cs, e) ↦
      rw (room, ==-eq_false nz, not_drained h a w cs e) (push_last-Appends el v h a w cs nz free e)
]

-- On a store that holds a queue, with no thread waiting in `queue_pop`, `queue_try_push` is `try_push` of the promised queue: a full queue is left alone and FALSE comes
-- back; otherwise the value goes to the end, whatever fresh cell `malloc` returns.
pub try_push_refines :
    {s : Store} {q : Fifo ℕ} (el v : ℕ)
    → el ≢ 0
    → s.heap el ≡ none
    → Holds s q
    → Pushes s (queue_try_push el v s) (Fifo.try_push q v)
unfolding queue_try_push Fifo.try_push
try_push_refines {s} {q} el v nz free h = elim (Bool-cases (is_full s)) [
  | inl full ↦ rw (full, sym (is_full-Holds h) ∙ full) refl
  | inr room ↦ rw (sym (is_full-Holds h) ∙ room) (try_push-Appends el v nz free room h)
]

unlink_head-Holds :
    {s : Store} {q : Fifo ℕ} (h : Holds s q) (a v : ℕ) (cs : List Cell)
    → h.cells ≡ (a, v) ∷ cs
    → (sig : Signal) × (s' : Store) × (unlink_head (decrement_size s) ≡ done (some v) sig s')
      × Holds s' (record { items = values cs; capacity = q.capacity })
unlink_head-Holds {s} h a v cs e =
    let l = subst (Linked s) e h.linked in
    let (s', r, l', sz, cap) =
      unlink_head-Linked (decrement_size s) a v cs
        (record { head = l.head; tail = l.tail; chain = l.chain }) in
    (
      _,
      s',
      r,
      record {
        cells = cs;
        linked = l';
        items = refl;
        size =
            sz
            ∙ ap (λ n. n -ℤ pos 1) (h.size ∙ ap (λ ds. pos (length ds)) e)
            ∙ pos_suc-sub-one (length cs);
        capacity = cap ∙ h.capacity;
      },
    )

-- On a store that holds a queue, with no thread waiting in `queue_pop`, `queue_try_pop` is `try_pop` of the promised queue: an empty queue is left alone and FALSE comes
-- back; otherwise the oldest value comes out and its cell is freed.
pub try_pop_refines :
    {s : Store} {q : Fifo ℕ} → Holds s q → Pops s (queue_try_pop s) (Fifo.try_pop q)
unfolding queue_try_pop Fifo.try_pop Fifo.pop_front
try_pop_refines {s} {q} h = elim (List-cases h.cells) [
  | inl e ↦ rw (drained_of_nil h e, sym h.items ∙ ap values e) refl
  | inr (a, w, cs, e) ↦
      rw (not_drained h a w cs e, sym h.items ∙ ap values e) (unlink_head-Holds h a w cs e)
]

pub head-ne-zero :
    {s : Store} {q : Fifo ℕ} (h : Holds s q) (a w : ℕ) (cs : List Cell)
    → h.cells ≡ (a, w) ∷ cs
    → s.queue.head ≢ 0
head-ne-zero {s} h a w cs e z = let l = subst (Linked s) e h.linked in l.chain.0 (sym l.head ∙ z)

-- On a store that holds a queue, with no other thread waiting in it, `queue_pop` waits on an empty queue, and otherwise does what `queue_try_pop` does.
pub pop_refines :
    {s : Store} {q : Fifo ℕ}
    → Holds s q
    → ((q.items ≡ []) × (queue_pop s ≡ wait silent (decrement_size s)))
      ⊎ ((q.items ≢ []) × (queue_pop s ≡ queue_try_pop s))
unfolding queue_pop pop_resume queue_try_pop
pop_refines {s} {q} h = elim (List-cases h.cells) [
  | inl e ↦ inl (sym h.items ∙ ap values e, rw (h.linked.head ∙ ap first e) refl)
  | inr (a, w, cs, e) ↦ inr (
    (λ no. cc (sym (ap values e) ∙ h.items ∙ no)),
    rw (not_drained h a w cs e, ==-eq_false (head-ne-zero h a w cs e)) refl,
  )
]
