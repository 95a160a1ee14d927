-- ===== src/Graph/Outputs.antt =====
-- What the loop over the stages' outputs leaves in `output`.
use mathlib.Core.Option.{some-injective}
use leda.Prelude.{
  ℕ, zero, suc, ◌+◌, ◌≤◌, ◌<◌, ◌≡◌, refl, ap, ◌∙◌, false, Option, some, List, [], ◌∷◌, length,
  get_elem?, All, update, update_self, update_ne, lt→ltb, arith,
}
use leda.Prelude.Int.{ℤ, pos, ltb_ℤ}
use leda.Graph.{OutputKey, string_key, number_key, other_key, Output, Ids, id_of, built}
use leda.Graph.Build.{count_keys, written_at, collect}

-- An id of one of `n` things.
abbrev pub Within : ℕ → ℤ → Type 0
Within n z = (i : ℕ) × (z ≡ pos i) × (i < n)

abbrev pub Plain : OutputKey → Type 0
Plain other_key = ⊥
Plain _ = Unit

-- A key that is a string or a number, with a connector that has an id.
abbrev pub Leads : Ids → ℕ → OutputKey × ℕ → Type 0
Leads ids n_c (key, c) = Plain key × Within n_c (id_of ids (some c))

-- The entry for a key and its connector.
abbrev pub output_for : Ids → OutputKey × ℕ → Output
output_for ids (key, c) = record { key = key; value = id_of ids (some c) }

-- `output` holds an entry for each key, from number `k` on.
abbrev pub Holds : Ids → List (OutputKey × ℕ) → ℕ → (ℕ → Option Output) → Type 0
Holds ids os k out =
    (j : ℕ) (o : OutputKey × ℕ) → get_elem? os j ≡ some o → out (k + j) ≡ some (output_for ids o)

pub count_keys-plain :
    (ids : Ids) (n_c : ℕ) (os : List (OutputKey × ℕ))
    → All (Leads ids n_c) os
    → count_keys os ≡ length os
unfolding count_keys
count_keys-plain ids n_c [] h = refl
count_keys-plain ids n_c ((string_key s, c) ∷ os) (l, h) = ap suc (count_keys-plain ids n_c os h)
count_keys-plain ids n_c ((number_key n, c) ∷ os) (l, h) = ap suc (count_keys-plain ids n_c os h)
count_keys-plain ids n_c ((other_key, c) ∷ os) (l, h) = absurd l.0

written-Plain :
    (ids : Ids) (n_c : ℕ) (key : OutputKey) (c : ℕ) (old : Option Output)
    → Plain key
    → written_at ids key c old ≡ some (output_for ids (key, c))
written-Plain ids n_c (string_key s) c old h = refl
written-Plain ids n_c (number_key n) c old h = refl
written-Plain ids n_c other_key c old h = absurd h

not_negative : (n : ℕ) (z : ℤ) → Within n z → ltb_ℤ z (pos 0) ≡ false
not_negative n z (i, e, lt) = ap (λ y. ltb_ℤ y (pos 0)) e ∙ ground arith

-- What the second loop over the keys of one stage has done.
abbrev pub Collected : ℕ → Ids → List (OutputKey × ℕ) → ℕ → (ℕ → Option Output) → Type 0
Collected n ids os k out =
    (out' : ℕ → Option Output) × (collect n ids os k out ≡ built (some out'))
    × Holds ids os k out'
    × ((i : ℕ) → i < k → out' i ≡ out i)

pub collect-Collected :
    (n n_c : ℕ) (ids : Ids) (os : List (OutputKey × ℕ)) (k : ℕ) (out : ℕ → Option Output)
    → All (Leads ids n_c) os
    → k + length os ≤ n
    → Collected n ids os k out
unfolding collect
collect-Collected n n_c ids [] k out h fits = (out, refl, (λ j o e. absurd (cc)), (λ i lt. refl))
collect-Collected n n_c ids ((key, c) ∷ os) k out ((plain, within), h) fits =
    let (out', done, holds, same) =
      collect-Collected n n_c ids os (suc k) (update out k (some (output_for ids (key, c)))) h
        (omega arith) in
    (
      out',
      rw
          (
            written-Plain ids n_c key c (out k) plain,
            lt→ltb k n (omega arith),
            not_negative n_c (id_of ids (some c)) within,
          )
          done,
      held out' holds same,
      (λ i lt.
          same i (omega arith)
          ∙ update_ne out (some (output_for ids (key, c))) (λ e. absurd (omega arith))),
    )
  where
    held :
        (out' : ℕ → Option Output)
        → Holds ids os (suc k) out'
        → ((i : ℕ) → i < suc k → out' i ≡ update out k (some (output_for ids (key, c))) i)
        → Holds ids ((key, c) ∷ os) k out'
    held out' holds same zero o e =
        ap out' (omega arith)
        ∙ same k (omega arith)
        ∙ update_self out k (some (output_for ids (key, c)))
        ∙ ap (λ x. some (output_for ids x)) (some-injective (key, c) o e)
    held out' holds same (suc j) o e = ap out' (omega arith) ∙ holds j o e
