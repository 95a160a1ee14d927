-- ===== src/Queue/Free.antt =====
-- `queue_free`: the loop that frees what the queue still holds.
use leda.Prelude.{
  ℕ, zero, suc, ◌<◌, ◌≡◌, refl, ◌≢◌, sym, ap, ◌∙◌, inl, inr, true, some, List, [], ◌∷◌, length,
  arith,
}
use leda.Prelude.Int.{ℤ}
use leda.Queue.Fifo
use leda.Queue.Fifo.{Fifo}
use leda.Queue.Cells.{first, values}
use leda.Queue.{
  Store, Signal, done, freed, running, free_after, queue_free, queue_try_pop, is_drained,
}
use leda.Queue.Refine.{Holds, List-cases, ==-eq_false, head-ne-zero, try_pop_refines}

free_step :
    (fuel : ℕ) (s : Store) {s' : Store} {v : ℕ} {sig : Signal}
    → s.queue.head ≢ 0
    → queue_try_pop s ≡ done (some v) sig s'
    → queue_free (suc fuel) s ≡ free_after v (queue_free fuel s')
unfolding queue_free
free_step fuel s nz e = rw (==-eq_false nz, queue_free, e) refl

head_of_nil : {s : Store} {q : Fifo ℕ} (h : Holds s q) → q.items ≡ [] → s.queue.head ≡ 0
head_of_nil h e = elim (List-cases h.cells) [
  | inl n ↦ h.linked.head ∙ ap first n
  | inr (a, w, cs, c) ↦ cc (sym (ap values c) ∙ h.items ∙ e)
]

head_of_cons :
    {s : Store} {q : Fifo ℕ} {v : ℕ} {vs : List ℕ} (h : Holds s q)
    → q.items ≡ v ∷ vs
    → s.queue.head ≢ 0
head_of_cons h e = elim (List-cases h.cells) [
  | inl n ↦ cc (sym (ap values n) ∙ h.items ∙ e)
  | inr (a, w, cs, c) ↦ head-ne-zero h a w cs c
]

free_all :
    (fuel : ℕ) (vs : List ℕ) (capacity : ℤ) (s : Store)
    → Holds s (record { items = vs; capacity = capacity })
    → length vs < fuel
    → queue_free fuel s ≡ freed vs
unfolding queue_free Fifo.try_pop Fifo.pop_front free_after
free_all zero vs capacity s h lt = absurd (omega arith)
free_all (suc fuel) [] capacity s h lt = rw (head_of_nil h refl) refl
free_all (suc fuel) (v ∷ vs) capacity s h lt =
    let (sig, s', e, h') = try_pop_refines h in
    free_step fuel s (head_of_cons h refl) e
    ∙ ap (free_after v) (free_all fuel vs capacity s' h' (omega arith))

-- With no thread waiting, `queue_free` ends within one more round than there are values, and frees
-- each of them once, oldest first.
pub queue_free_frees :
    {s : Store} {q : Fifo ℕ} (fuel : ℕ)
    → Holds s q
    → length q.items < fuel
    → queue_free fuel s ≡ freed q.items
queue_free_frees {s} {q} fuel h lt = free_all fuel q.items q.capacity s h lt

-- `queue_free` never ends on a queue that has a cell but whose size is not positive, which is what a
-- thread leaves behind that was killed while it waited in `queue_pop`.
pub queue_free_spins :
    (s : Store) (fuel : ℕ) → s.queue.head ≢ 0 → is_drained s ≡ true → queue_free fuel s ≡ running
unfolding queue_free queue_try_pop
queue_free_spins s zero nz d = refl
queue_free_spins s (suc fuel) nz d =
    rw (==-eq_false nz, queue_free, d) (queue_free_spins s fuel nz d)
