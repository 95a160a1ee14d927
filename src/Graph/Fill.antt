-- ===== src/Graph/Fill.antt =====
-- What the loops of `build_graph_representation` leave in an array and in a table of ids.
use leda.Prelude.{
  ℕ, zero, suc, ◌+◌, ◌≤◌, ◌<◌, ◌≡◌, ◌≢◌, refl, ap, subst, ◌∙◌, true, some, List, [], ◌∷◌, length,
  get_elem?, map, All, update, update_self, update_ne, lt→ltb, arith,
}
use mathlib.Core.Option.{some-injective}
use leda.Prelude.Int.{pos}
use leda.Lua.{number}
use leda.Graph.{Built, built, Filled, enter, fill}

-- No object comes twice.
abbrev pub Distinct : List ℕ → Type 0
Distinct [] = Unit
Distinct (x ∷ xs) = All (λ y. y ≢ x) xs × Distinct xs

module _ {E A : Type 0} (object : E → ℕ) (make : E → Built A) where
  -- What entry number `j` of a table has become: the array holds it, and its id is its index.
  pub record At (t : Filled A) (i : ℕ) (e : E) : Type 0 where
    pub entry : A
    pub made : make e ≡ built entry
    pub stored : t.entries i ≡ some entry
    pub known : t.ids (object e) ≡ number (pos i)

  -- Every entry has the next index, from `next` on; nothing else has changed.
  pub record Placed (es : List E) (t t' : Filled A) : Type 0 where
    pub each : (j : ℕ) (e : E) → get_elem? es j ≡ some e → At t' (t.next + j) e
    pub before : (i : ℕ) → i < t.next → t'.entries i ≡ t.entries i
    pub others : (o : ℕ) → All (λ x. x ≢ o) (map object es) → t'.ids o ≡ t.ids o

  abbrev pub Makes : List E → Type 0
  Makes es = All (λ e. (a : A) × (make e ≡ built a)) es

  pub fill-Placed :
      (n : ℕ) (es : List E) (t : Filled A)
      → Makes es
      → Distinct (map object es)
      → t.next + length es ≤ n
      → (t' : Filled A) × (fill object make true n es t ≡ built t') × Placed es t t'
  unfolding fill enter
  fill-Placed n [] t makes distinct fits =
      (t, refl, record { each = λ j e h. absurd (cc); before = λ i lt. refl; others = λ o h. refl })
  fill-Placed n (e ∷ es) t ((a, made), makes) (fresh, distinct) fits =
      let (t', done, rest) = fill-Placed n es next makes distinct (omega arith) in
      (t', rw (made, lt→ltb t.next n (omega arith)) done, placed t' rest)
    where
      next : Filled A
      next = record t {
        ids = update t.ids (object e) (number (pos t.next));
        next = suc t.next;
        entries = update t.entries t.next (some a);
      }

      each :
          (t' : Filled A)
          → Placed es next t'
          → (j : ℕ) (x : E) → get_elem? (e ∷ es) j ≡ some x
          → At t' (t.next + j) x
      each t' rest zero x h =
          subst (λ y. At t' (t.next + 0) y) (some-injective e x h)
            (record {
              entry = a;
              made = made;
              stored =
                  ap t'.entries (omega arith)
                  ∙ rest.before t.next (omega arith)
                  ∙ update_self t.entries t.next (some a);
              known =
                  rest.others (object e) fresh
                  ∙ update_self t.ids (object e) (number (pos t.next))
                  ∙ ap (λ i. number (pos i)) (omega arith);
            })
      each t' rest (suc j) x h =
          let moved : suc t.next + j ≡ t.next + suc j = omega arith in
          subst (λ i. At t' i x) moved (rest.each j x h)

      placed : (t' : Filled A) → Placed es next t' → Placed (e ∷ es) t t'
      placed t' rest = record {
        each = each t' rest;
        before = λ i lt.
            rest.before i (omega arith)
            ∙ update_ne t.entries (some a) (λ same. absurd (omega arith));
        others = λ o (ne, all). rest.others o all ∙ update_ne t.ids (number (pos t.next)) ne;
      }
