-- ===== src/Queue/Blocking.antt =====
-- The steps of queue.c that take a value out keep a queue with waiting threads sound.
use leda.Prelude.{
  ℕ, suc, ◌+◌, ◌<◌, ◌≡◌, refl, ◌≢◌, sym, ap, subst, ◌∙◌, inl, inr, false, Bool-cases, Option, some,
  List, [], ◌∷◌, ◌++◌, length, arith,
}
use mathlib.Core.List.{append_assoc}
use leda.Prelude.Int.{ℤ, pos, ◌+ℤ◌, ◌-ℤ◌, int_laws, pos_part, neg_part}
use leda.Queue.Cells.{Cell, first, values}
use leda.Queue.Linked.{Linked, unlink_head-Linked}
use leda.Queue.Refine.{List-cases, ==-eq_false}
use leda.Queue.{
  Store, Signal, Run, done, is_drained, unlink_head, decrement_size, queue_pop, pop_resume,
  queue_try_pop,
}
use leda.Queue.Waiters.{Sys, Sound}

pub done-injective :
    {A : Type 0} {a b : A} {g h : Signal} {s t : Store}
    → done a g s ≡ done b h t
    → (a ≡ b) × (s ≡ t)
done-injective e = (cc, cc)

-- What an unlinking call hands out and leaves.
abbrev Taken : Store → List Cell → ℕ → Store → Type 0
Taken s cs v s' =
    (rest : List Cell) × (values cs ≡ v ∷ values rest)
    × (length cs ≡ suc (length rest))
    × Linked s' rest
    × (s'.queue.size ≡ s.queue.size)

taken :
    (s : Store) (a w : ℕ) (rest cs : List Cell) {v : ℕ} {sig : Signal} {s' : Store}
    → cs ≡ (a, w) ∷ rest
    → Linked s cs
    → unlink_head s ≡ done (some v) sig s'
    → Taken s cs v s'
taken s a w rest cs {v} {s' = s'} e l r =
    let (t, r', l', sz, _) = unlink_head-Linked s a w rest (subst (Linked s) e l) in
    let (same, end) = done-injective (sym r' ∙ r) in
    (
      rest,
      ap values e ∙ cc,
      ap length e,
      subst (λ u. Linked u rest) end l',
      ap (λ u. u.queue.size) (sym end) ∙ sz,
    )

-- With a cell at the head, unlinking hands out a value.
pub unlinks :
    (s : Store) (a w : ℕ) (rest cs : List Cell) {r : Run (Option ℕ)}
    → cs ≡ (a, w) ∷ rest
    → Linked s cs
    → unlink_head s ≡ r
    → (sig : Signal) × (s' : Store) × (r ≡ done (some w) sig s')
unlinks s a w rest cs e l r =
    let (t, r', _, _, _) = unlink_head-Linked s a w rest (subst (Linked s) e l) in
    (_, t, sym r ∙ r')

pub decrement-Linked : {s : Store} {cs : List Cell} → Linked s cs → Linked (decrement_size s) cs
decrement-Linked l = record { head = l.head; tail = l.tail; chain = l.chain }

-- The balance of sizes tells an empty queue from one with cells.
pub cells_of_size :
    (s : Store) (w : ℕ) (cs : List Cell)
    → s.queue.size +ℤ pos w ≡ pos (length cs)
    → is_drained s ≡ false
    → 0 < length cs
unfolding is_drained ◌+ℤ◌
cells_of_size s w cs bal d = ground arith

pub nil_of_head : (s : Store) (cs : List Cell) → Linked s cs → s.queue.head ≡ 0 → cs ≡ []
nil_of_head s [] l z = refl
nil_of_head s ((a, w) ∷ cs) l z = absurd (l.chain.0 (sym l.head ∙ z))

one_less : (z b : ℤ) (w n : ℕ) → z +ℤ pos w +ℤ pos 1 ≡ b → b ≡ pos (suc n) → z +ℤ pos w ≡ pos n
one_less z b w n e f = omega (int_laws, ap pos_part e, ap neg_part e, ap pos_part f, ap neg_part f)

balance_pop : (z : ℤ) (w : ℕ) → z -ℤ pos 1 +ℤ pos w +ℤ pos 1 ≡ z +ℤ pos w
balance_pop z w = omega int_laws

balance_resume : (z : ℤ) (w : ℕ) → z +ℤ pos w +ℤ pos 1 ≡ z +ℤ pos (suc w)
balance_resume z w = omega int_laws

pub balance_block : (z : ℤ) (w : ℕ) → z -ℤ pos 1 +ℤ pos (suc w) ≡ z +ℤ pos w
balance_block z w = omega int_laws

pub balance_push : (z : ℤ) (w n : ℕ) → z +ℤ pos w ≡ pos n → z +ℤ pos 1 +ℤ pos w ≡ pos (n + 1)
balance_push z w n e = omega (int_laws, ap pos_part e, ap neg_part e)

after_take :
    (x : Sys) (so : Sound x) (s : Store) {v w : ℕ} {s' : Store}
    → Taken s so.cells v s'
    → s.queue.size +ℤ pos w +ℤ pos 1 ≡ x.store.queue.size +ℤ pos x.waiting
    → Sound (record { store = s'; waiting = w; pushed = x.pushed; popped = x.popped ++ v ∷ [] })
after_take x so s {v} {w} {s'} (rest, vs, len, l, sz) bal = record {
  cells = rest;
  linked = l;
  balance = rw sz (one_less s.queue.size _ w (length rest) bal (so.balance ∙ ap pos len));
  order =
      so.order ∙ ap (λ ys. x.popped ++ ys) vs ∙ sym (append_assoc x.popped (v ∷ []) (values rest));
}

pub head_of :
    {x : Sys} (so : Sound x) (a w : ℕ) (rest : List Cell)
    → so.cells ≡ (a, w) ∷ rest
    → x.store.queue.head ≢ 0
head_of {x} so a w rest e z =
    let l = subst (Linked x.store) e so.linked in l.chain.0 (sym l.head ∙ z)

pub cells_of :
    (x : Sys) (so : Sound x)
    → is_drained x.store ≡ false
    → (a : ℕ) × (w : ℕ) × (rest : List Cell) × (so.cells ≡ (a, w) ∷ rest)
cells_of x so d = elim (List-cases so.cells) [
  | inl e ↦
      let some_cell =
        subst (λ cs. 0 < length cs) e (cells_of_size x.store _ so.cells so.balance d) in
      absurd (omega arith)
  | inr c ↦ c
]

pub pops-Sound :
    (x : Sys) {v : ℕ} {sig : Signal} {s : Store}
    → Sound x
    → queue_pop x.store ≡ done (some v) sig s
    → Sound (record x { store = s; popped = x.popped ++ v ∷ [] })
unfolding queue_pop pop_resume
pops-Sound x so r = elim (List-cases so.cells) [
  | inl e ↦ cc (rw (so.linked.head ∙ ap first e) at r)
  | inr (a, w, rest, e) ↦
      after_take x so (decrement_size x.store)
        (taken (decrement_size x.store) a w rest so.cells e (decrement-Linked so.linked)
          (rw (==-eq_false (head_of so a w rest e)) at r))
        (balance_pop x.store.queue.size x.waiting)
]

pub resumes-Sound :
    (x : Sys) (w : ℕ) {v : ℕ} {sig : Signal} {s : Store}
    → Sound x
    → x.waiting ≡ suc w
    → pop_resume x.store ≡ done (some v) sig s
    → Sound (record x { store = s; waiting = w; popped = x.popped ++ v ∷ [] })
unfolding pop_resume
resumes-Sound x w so ws r = elim (List-cases so.cells) [
  | inl e ↦ cc (rw (so.linked.head ∙ ap first e) at r)
  | inr (a, u, rest, e) ↦
      after_take x so x.store
        (taken x.store a u rest so.cells e so.linked
          (rw (==-eq_false (head_of so a u rest e)) at r))
        (balance_resume x.store.queue.size w ∙ ap (λ n. x.store.queue.size +ℤ pos n) (sym ws))
]

pub tries-Sound :
    (x : Sys) {v : ℕ} {sig : Signal} {s : Store}
    → Sound x
    → queue_try_pop x.store ≡ done (some v) sig s
    → Sound (record x { store = s; popped = x.popped ++ v ∷ [] })
unfolding queue_try_pop
tries-Sound x so r = elim (Bool-cases (is_drained x.store)) [
  | inl d ↦ cc (rw d at r)
  | inr d ↦
      let (a, w, rest, e) = cells_of x so d in
      after_take x so (decrement_size x.store)
        (taken (decrement_size x.store) a w rest so.cells e (decrement-Linked so.linked)
          (rw d at r))
        (balance_pop x.store.queue.size x.waiting)
]
