-- ===== src/Atomic/Sum.antt =====
-- Totals of amounts, and what `atomic_compare_and_swap` of atomic.c does.
use leda.Prelude.{◌≡◌, refl, ◌∙◌, sym, ◌⊎◌, inl, inr, List, [], ◌∷◌, Bool-cases, true, arith}
use leda.Prelude.Int.{ℤ, ◌+ℤ◌, eqb_ℤ}
use leda.Atomic.{Atomic, atomic_compare_and_swap}

abbrev pub sum_from : ℤ → List ℤ → ℤ
sum_from z [] = z
sum_from z (y ∷ ys) = sum_from (z +ℤ y) ys

eqb→eq : (a b : ℤ) → eqb_ℤ a b ≡ true → a ≡ b
eqb→eq a b h = ground arith

eq→eqb : (a b : ℤ) → a ≡ b → eqb_ℤ a b ≡ true
eq→eqb a b h = rw h (ground arith)

-- `atomic_compare_and_swap` returns the old value; it stores the new one exactly if that is the
-- expected one, and leaves the counter alone otherwise.
pub compare_and_swap_lem :
    (a : Atomic) (y z : ℤ)
    → let (old, a') = atomic_compare_and_swap a y z in
      (old ≡ a.i) × (((old ≡ z) × (a'.i ≡ y)) ⊎ ((¬ (old ≡ z)) × (a' ≡ a)))
unfolding atomic_compare_and_swap
compare_and_swap_lem a y z = elim (Bool-cases (eqb_ℤ a.i z)) [
  | inl e ↦ rw e (refl, inl (eqb→eq a.i z e, refl))
  | inr e ↦ rw e (refl, inr ((λ same. cc (sym (eq→eqb a.i z same) ∙ e)), refl))
]
