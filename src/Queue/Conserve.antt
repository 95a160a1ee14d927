-- ===== src/Queue/Conserve.antt =====
-- Threads that push, pop and wait on queue.c: nothing is lost or reordered as long as no push comes
-- between a wake-up call and the thread that it is for; such a push loses what is queued.
use leda.Prelude.{
  ℕ, suc, ◌≤◌, ◌≡◌, ◌≢◌, sym, ap, subst, ◌∙◌, inl, inr, true, false, Bool-cases, Option, none, List,
  [], ◌∷◌, ◌++◌, length, length-append, ◌==◌, arith,
}
use mathlib.Core.List.{append_assoc}
use leda.Prelude.Int.{pos, ◌+ℤ◌}
use leda.Queue.Cells.{Cell, first, values, values-snoc}
use leda.Queue.Linked.{Linked, push_first-Linked, push_last-Linked}
use leda.Queue.Refine.{List-cases, ==-eq_false}
use leda.Queue.{
  Store, Signal, empty_queue, Run, done, wait, is_full, is_drained, push_first, push_last,
  queue_try_push, decrement_size, queue_pop, pop_resume, queue_try_pop,
}
use leda.Queue.Blocking.{
  done-injective, unlinks, decrement-Linked, nil_of_head, balance_block, balance_push, cells_of,
  pops-Sound, resumes-Sound, tries-Sound, head_of,
}
use leda.Queue.Waiters.{
  Sys, IsClear, Step, pushes, refuses, tries, misses, pops, blocks, resumes, blocks_again, Reach,
  here, next, Sound, PushClear, RunClear,
}

wait-injective :
    {g h : Signal} {s t : Store} → ◌≡◌ {A = Run (Option ℕ)} (wait g s) (wait h t) → s ≡ t
wait-injective e = cc

==-eq_true : {n : ℕ} → n ≡ 0 → (n == 0) ≡ true
==-eq_true e = ground arith

moved :
    (x : Sys) (s : Store) (w : ℕ) (so : Sound x)
    → Linked s so.cells
    → s.queue.size +ℤ pos w ≡ pos (length so.cells)
    → Sound (record x { store = s; waiting = w })
moved x s w so l bal = record { cells = so.cells; linked = l; balance = bal; order = so.order }

-- The steps that change nothing.
stays : (x : Sys) {s : Store} → Sound x → x.store ≡ s → Sound (record x { store = s })
stays x so e = subst (λ s. Sound (record x { store = s })) e so

misses-Sound :
    (x : Sys) {sig : Signal} {s : Store}
    → Sound x
    → queue_try_pop x.store ≡ done none sig s
    → Sound (record x { store = s })
unfolding queue_try_pop
misses-Sound x so r = elim (Bool-cases (is_drained x.store)) [
  | inl d ↦ stays x so (done-injective (rw d at r)).1
  | inr d ↦
      let (a, w, rest, e) = cells_of x so d in
      let (_, _, hit) =
        unlinks (decrement_size x.store) a w rest so.cells e (decrement-Linked so.linked)
          (rw d at r) in
      cc hit
]

blocks-Sound :
    (x : Sys) {sig : Signal} {s : Store}
    → Sound x
    → queue_pop x.store ≡ wait sig s
    → Sound (record x { store = s; waiting = suc x.waiting })
unfolding queue_pop pop_resume
blocks-Sound x {sig} {s} so r = elim (List-cases so.cells) [
  | inl e ↦
      let same = rw (==-eq_true (so.linked.head ∙ ap first e)) at r in
      subst (λ t. Sound (record x { store = t; waiting = suc x.waiting })) (wait-injective same)
        (moved x (decrement_size x.store) (suc x.waiting) so (decrement-Linked so.linked)
          (balance_block x.store.queue.size x.waiting ∙ so.balance))
  | inr (a, w, rest, e) ↦
      let (_, _, hit) =
        unlinks (decrement_size x.store) a w rest so.cells e (decrement-Linked so.linked)
          (rw (==-eq_false (head_of so a w rest e)) at r) in
      cc hit
]

blocks_again-Sound :
    (x : Sys) {sig : Signal} {s : Store}
    → Sound x
    → pop_resume x.store ≡ wait sig s
    → Sound (record x { store = s })
unfolding pop_resume
blocks_again-Sound x so r = elim (List-cases so.cells) [
  | inl e ↦ stays x so (wait-injective (rw (==-eq_true (so.linked.head ∙ ap first e)) at r))
  | inr (a, w, rest, e) ↦
      let (_, _, hit) =
        unlinks x.store a w rest so.cells e so.linked
          (rw (==-eq_false (head_of so a w rest e)) at r) in
      cc hit
]

push_last-ne-false :
    (el v : ℕ) (s : Store) (sig : Signal) (s' : Store) → push_last el v s ≢ done false sig s'
unfolding push_last
push_last-ne-false el v s sig s' e = ground arith

refuses-Sound :
    (x : Sys) (el v : ℕ) {sig : Signal} {s : Store}
    → Sound x
    → queue_try_push el v x.store ≡ done false sig s
    → Sound (record x { store = s })
unfolding queue_try_push push_first
refuses-Sound x el v {sig} {s} so r =
    stays x so (ground (arith, push_last-ne-false el v x.store sig s))

drained_of_few : (x : Sys) (so : Sound x) → length so.cells ≤ x.waiting → is_drained x.store ≡ true
unfolding is_drained ◌+ℤ◌
drained_of_few x so few = ground (arith, so.balance)

after_push :
    (x : Sys) (el v : ℕ) (s : Store) (so : Sound x)
    → Linked s (so.cells ++ (el, v) ∷ [])
    → s.queue.size ≡ x.store.queue.size +ℤ pos 1
    → Sound (record x { store = s; pushed = x.pushed ++ v ∷ [] })
after_push x el v s so l sz = record {
  cells = so.cells ++ (el, v) ∷ [];
  linked = l;
  balance =
      rw sz (balance_push x.store.queue.size x.waiting (length so.cells) so.balance)
      ∙ ap pos (sym (length-append so.cells ((el, v) ∷ [])));
  order =
      ap (λ ys. ys ++ v ∷ []) so.order
      ∙ append_assoc x.popped (values so.cells) (v ∷ [])
      ∙ ap (λ ys. x.popped ++ ys) (sym (values-snoc so.cells el v));
}

pushes_drained :
    (x : Sys) (el v : ℕ) {sig : Signal} {s : Store} (so : Sound x)
    → el ≢ 0
    → so.cells ≡ []
    → push_first el v x.store ≡ done true sig s
    → Sound (record x { store = s; pushed = x.pushed ++ v ∷ [] })
pushes_drained x el v so nz e r =
    let (t, r', l, sz, _) = push_first-Linked x.store el v nz in
    subst (λ u. Sound (record x { store = u; pushed = x.pushed ++ v ∷ [] }))
      (done-injective (sym r' ∙ r)).1
      (after_push x el v t so (subst (λ cs. Linked t (cs ++ (el, v) ∷ [])) (sym e) l) sz)

pushes_behind :
    (x : Sys) (el v a w : ℕ) (rest : List Cell) {sig : Signal} {s : Store} (so : Sound x)
    → el ≢ 0
    → x.store.heap el ≡ none
    → so.cells ≡ (a, w) ∷ rest
    → push_last el v x.store ≡ done true sig s
    → Sound (record x { store = s; pushed = x.pushed ++ v ∷ [] })
pushes_behind x el v a w rest so nz free e r =
    let (t, r', l, sz, _) =
      push_last-Linked x.store el v a w rest nz free (subst (Linked x.store) e so.linked) in
    subst (λ u. Sound (record x { store = u; pushed = x.pushed ++ v ∷ [] }))
      (done-injective (sym r' ∙ r)).1
      (after_push x el v t so (subst (λ cs. Linked t (cs ++ (el, v) ∷ [])) (sym e) l) sz)

pushes-Sound :
    (x : Sys) (el v : ℕ) {sig : Signal} {s : Store}
    → Sound x
    → el ≢ 0
    → x.store.heap el ≡ none
    → IsClear x.store
    → queue_try_push el v x.store ≡ done true sig s
    → Sound (record x { store = s; pushed = x.pushed ++ v ∷ [] })
unfolding queue_try_push
pushes-Sound x el v {sig} {s} so nz free clear r = elim (Bool-cases (is_full x.store)) [
  | inl full ↦ cc (rw full at r)
  | inr room ↦ elim (Bool-cases (is_drained x.store)) [
    | inl d ↦
        pushes_drained x el v so nz (nil_of_head x.store so.cells so.linked (clear d))
          (rw (room, ==-eq_false nz, d) at r)
    | inr d ↦
        let (a, w, rest, e) = cells_of x so d in
        pushes_behind x el v a w rest so nz free e (rw (room, ==-eq_false nz, d) at r)
  ]
]

Step-Sound : {x y : Sys} → Sound x → (st : Step x y) → PushClear st → Sound y
Step-Sound {x} so (pushes el v nz free r) clear = pushes-Sound x el v so nz free clear r
Step-Sound {x} so (refuses el v r) _ = refuses-Sound x el v so r
Step-Sound {x} so (tries r) _ = tries-Sound x so r
Step-Sound {x} so (misses r) _ = misses-Sound x so r
Step-Sound {x} so (pops r) _ = pops-Sound x so r
Step-Sound {x} so (blocks r) _ = blocks-Sound x so r
Step-Sound {x} so (resumes w ws r) _ = resumes-Sound x w so ws r
Step-Sound {x} so (blocks_again lt r) _ = blocks_again-Sound x so r

-- Whatever threads do on a sound queue with `queue_try_push`, `queue_try_pop` and `queue_pop`, if every successful push finds the queue clear (no cell is left on a queue whose size is not positive), the queue stays sound: its cells are linked, the size is their number less the waiting threads, and the values pushed are, in order, those popped and then those still linked.
pub Reach-Sound : {x y : Sys} → Sound x → (r : Reach x y) → RunClear r → Sound y
Reach-Sound so here clear = so
Reach-Sound so (next r st) (before, now) = Step-Sound (Reach-Sound so r before) st now

-- On a sound queue that is not full and has no more cells than threads wait, a push reports success, and its value is all that is linked afterwards: every value queued before is lost.
pub push_overwrites :
    (x : Sys) (el v : ℕ) (so : Sound x)
    → el ≢ 0
    → is_full x.store ≡ false
    → length so.cells ≤ x.waiting
    → (s : Store) × (queue_try_push el v x.store ≡ done true empty_queue s)
      × Linked s ((el, v) ∷ [])
unfolding queue_try_push
push_overwrites x el v so nz room few =
    let (s, r, l, _, _) = push_first-Linked x.store el v nz in
    (s, rw (room, ==-eq_false nz, drained_of_few x so few) r, l)
