-- ===== src/Graph/Given.antt =====
-- The loops of `build_graph_representation` where the Lua graph has ids already, and the functions
-- that look an id up in a graph.
use leda.Prelude.{
  ℕ, ◌≡◌, ◌<◌, refl, ap, ◌∙◌, sym, subst, false, Bool-cases, ltb, ltb→lt, lt→ltb, ◌⊎◌, inl, inr,
  Option, some, none, List, [], ◌∷◌, All, update, arith,
}
use leda.Prelude.Int.{ℤ, pos, negsuc}
use leda.Instance.{as_size}
use leda.Graph.{Graph, Built, built, fault, Filled, id_of, store, enter, fill}
use leda.Graph.Build.{entry_at, graph_get_connector, graph_get_cluster, graph_get_stage}
use leda.Graph.Fill.{Makes}
use leda.Graph.Outputs.{Within}

module _ {A : Type 0} (n : ℕ) where
  -- A write to an array of `n`: it is done if the index is one of the array's, and is a fault if not.
  store-Within :
      (z : ℤ) (a : A) (t : Filled A)
      → Within n z
      → (t' : Filled A) × (store n z a t ≡ built t') × (t'.ids ≡ t.ids)
  store-Within z a t (i, e, lt) = (
    record t { entries = update t.entries i (some a) },
    ap (λ y. store n y a t) e ∙ rw (lt→ltb i n lt) refl,
    refl,
  )

  store-outside : (z : ℤ) (a : A) (t : Filled A) → (Within n z → ⊥) → store n z a t ≡ fault
  store-outside (negsuc i) a t out = refl
  store-outside (pos i) a t out = elim (Bool-cases (ltb i n)) [
    | inl e ↦ absurd (out (i, refl, ltb→lt i n e))
    | inr e ↦ rw e refl
  ]

Within-cases : (n : ℕ) (z : ℤ) → Within n z ⊎ (Within n z → ⊥)
Within-cases n (negsuc i) = inr (λ (j, e, lt). absurd (cc))
Within-cases n (pos i) = elim (Bool-cases (ltb i n)) [
  | inl e ↦ inl (i, refl, ltb→lt i n e)
  | inr e ↦ inr (λ (j, same, lt). let index : i ≡ j = ap as_size same in ground arith)
]

module _ {E A : Type 0} (object : E → ℕ) (make : E → Built A) (n : ℕ) where
  -- Every entry has an id, and it is an index of the array.
  abbrev pub AllWithin : List E → Filled A → Type 0
  AllWithin es t = All (λ e. Within n (id_of t.ids (some (object e)))) es

  AllWithin-ids :
      (es : List E) (t t' : Filled A) → t'.ids ≡ t.ids → AllWithin es t → AllWithin es t'
  AllWithin-ids es t t' e all =
      subst (λ ids. All (λ x. Within n (id_of ids (some (object x)))) es) (sym e) all

  given_within :
      (es : List E) (t : Filled A)
      → Makes object make es
      → AllWithin es t
      → (t' : Filled A) × (fill object make false n es t ≡ built t') × (t'.ids ≡ t.ids)
  unfolding fill enter
  given_within [] t makes all = (t, refl, refl)
  given_within (e ∷ es) t ((a, made), makes) (within, all) =
      let (t', done, same) = store-Within n (id_of t.ids (some (object e))) a t within in
      let (t'', rest, kept) = given_within es t' makes (AllWithin-ids es t t' same all) in
      (t'', rw (made, done) rest, kept ∙ same)

  given_outside :
      (es : List E) (t : Filled A)
      → Makes object make es
      → (AllWithin es t → ⊥)
      → fill object make false n es t ≡ fault
  unfolding fill enter
  given_outside [] t makes out = absurd (out tt)
  given_outside (e ∷ es) t ((a, made), makes) out =
      elim (Within-cases n (id_of t.ids (some (object e)))) [
        | inr outside ↦ rw (made, store-outside n (id_of t.ids (some (object e))) a t outside) refl
        | inl within ↦
            let (t', done, same) = store-Within n (id_of t.ids (some (object e))) a t within in
            rw (made, done)
              (given_outside es t' makes
                (λ all. out (within, AllWithin-ids es t' t (sym same) all)))
      ]

  -- A loop over a table whose entries have ids already, where each entry can be made, ends with the ids as they were if every id is an index of the array, and writes outside the array if one is not: the ids are not checked.
  pub fill-given :
      (es : List E) (t : Filled A)
      → Makes object make es
      → (AllWithin es t
          → (t' : Filled A) × (fill object make false n es t ≡ built t') × (t'.ids ≡ t.ids))
        × ((AllWithin es t → ⊥) → fill object make false n es t ≡ fault)
  fill-given es t makes = (given_within es t makes, given_outside es t makes)

-- What a read of `g->x[id]` in a graph whose arrays are full comes to.
abbrev pub Looks : {A : Type 0} → ℕ → (ℕ → Option A) → (ℤ → Built (Option A)) → Type 0
Looks n entries get =
    ((i : ℕ) → i < n → get (pos i) ≡ built (entries i))
    × (get (pos n) ≡ fault)
    × ((i : ℕ) → n < i → get (pos i) ≡ built none)

entry_at-Looks :
    {A : Type 0} (n : ℕ) (entries : ℕ → Option A)
    → Looks n entries (λ z. entry_at n entries (as_size z))
entry_at-Looks n entries = ((λ i lt. ground arith), ground arith, (λ i lt. ground arith))

-- `graph_get_connector`, `graph_get_cluster` and `graph_get_stage` of an id that is an index of the array return what is there, and NULL for one beyond the number of entries, but for the number itself they read past the end of the array.
pub graph_get-Looks :
    (g : Graph)
    → Looks g.n_c g.c (graph_get_connector (some g))
      × Looks g.n_cl g.cl (graph_get_cluster (some g))
      × Looks g.n_s g.s (graph_get_stage (some g))
unfolding graph_get_connector graph_get_cluster graph_get_stage
graph_get-Looks g = (entry_at-Looks g.n_c g.c, entry_at-Looks g.n_cl g.cl, entry_at-Looks g.n_s g.s)
