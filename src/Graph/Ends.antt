-- ===== src/Graph/Ends.antt =====
-- What the loop over the stages for their outputs leaves in the array of stages.
use mathlib.Core.Option.{some-injective}
use leda.Prelude.{
  ℕ, zero, suc, ◌+◌, ◌≤◌, ◌<◌, ◌≡◌, refl, sym, ap, subst, ◌∙◌, Option, some, none, List, [], ◌∷◌,
  length, get_elem?, All, update, update_self, update_ne, lt→ltb, arith,
}
use leda.Prelude.Int.{pos}
use leda.Graph.{OutputKey, Output, Stage, Ids, id_of, StageEntry, built}
use leda.Graph.Build.{output_round, output_loop}
use leda.Graph.Outputs.{Leads, Holds, count_keys-plain, collect-Collected}

-- A stage that has got the outputs of an entry, and is otherwise as it was.
abbrev pub Completed : Ids → StageEntry → Stage → Stage → Type 0
Completed ids e s x =
    (out : ℕ → Option Output) × (x ≡ record s { n_out = length e.get_output; output = out })
    × Holds ids e.get_output 0 out

module _ (stagesid connectorsid : Ids) (n_s n_c : ℕ) where
  abbrev Leading : StageEntry → Type 0
  Leading e = All (Leads connectorsid n_c) e.get_output

  round-Completed :
      (e : StageEntry) (stages : ℕ → Option Stage) (i : ℕ) (s : Stage)
      → Leading e
      → i < n_s
      → stages i ≡ some s
      → (x : Stage) × (output_round connectorsid n_s e stages (pos i)
          ≡ built (some (update stages i (some x))))
        × Completed connectorsid e s x
  unfolding output_round
  round-Completed e stages i s leads lt here = found e.get_output refl
    where
      x : (ℕ → Option Output) → Stage
      x out = record s { n_out = length e.get_output; output = out }

      found :
          (os : List (OutputKey × ℕ))
          → e.get_output ≡ os
          → (x : Stage) × (output_round connectorsid n_s e stages (pos i)
              ≡ built (some (update stages i (some x))))
            × Completed connectorsid e s x
      found [] same = (
        x (λ _. none),
        rw (lt→ltb i n_s lt, here, count_keys-plain connectorsid n_c e.get_output leads, same) refl,
        (
          (λ _. none),
          refl,
          subst (λ os. Holds connectorsid os 0 (λ _. none)) (sym same) (λ j o h. absurd (cc)),
        ),
      )
      found (o ∷ os) same =
          let (out, done, holds, _) =
            collect-Collected (length (o ∷ os)) n_c connectorsid (o ∷ os) 0 (λ _. none)
              (subst (All (Leads connectorsid n_c)) same leads) (omega arith) in
          (
            x out,
            rw
                (
                  lt→ltb i n_s lt,
                  here,
                  count_keys-plain connectorsid n_c e.get_output leads,
                  same,
                  done,
                )
                refl,
            (out, refl, subst (λ os. Holds connectorsid os 0 out) (sym same) holds),
          )

  -- The entries are those of the stages from `b` on.
  abbrev pub Stands : (ℕ → Option Stage) → ℕ → List StageEntry → Type 0
  Stands stages b es =
      (j : ℕ) (e : StageEntry)
      → get_elem? es j ≡ some e
      → (id_of stagesid (some e.object) ≡ pos (b + j)) × ((s : Stage) × (stages (b + j) ≡ some s))

  -- Each of these stages has got its outputs, and no stage before them has changed.
  abbrev pub AllCompleted : (ℕ → Option Stage) → ℕ → List StageEntry → (ℕ → Option Stage) → Type 0
  AllCompleted stages b es stages' =
      ((j : ℕ) (e : StageEntry) (s : Stage)
        → get_elem? es j ≡ some e
        → stages (b + j) ≡ some s
        → (x : Stage) × (stages' (b + j) ≡ some x) × Completed connectorsid e s x)
      × ((i : ℕ) → i < b → stages' i ≡ stages i)

  Stands-next :
      (stages : ℕ → Option Stage) (b : ℕ) (x : Stage) (e : StageEntry) (es : List StageEntry)
      → Stands stages b (e ∷ es)
      → Stands (update stages b (some x)) (suc b) es
  Stands-next stages b x e es stands j e' h =
      let (known, (s, here)) = stands (suc j) e' h in
      let moved : suc b + j ≡ b + suc j = omega arith in
      (
        known ∙ ap pos (sym moved),
        (s, update_ne stages (some x) (λ same. absurd (omega arith)) ∙ ap stages moved ∙ here),
      )

  Completed-next :
      (stages stages' : ℕ → Option Stage) (b : ℕ) (s x : Stage) (e : StageEntry)
      (es : List StageEntry)
      → stages b ≡ some s
      → Completed connectorsid e s x
      → AllCompleted (update stages b (some x)) (suc b) es stages'
      → AllCompleted stages b (e ∷ es) stages'
  Completed-next stages stages' b s x e es here completed (each, same) = (
    first_or,
    (λ i lt. same i (omega arith) ∙ update_ne stages (some x) (λ eq. absurd (omega arith))),
  )
    where
      first_or :
          (j : ℕ) (e' : StageEntry) (s' : Stage)
          → get_elem? (e ∷ es) j ≡ some e'
          → stages (b + j) ≡ some s'
          → (x' : Stage) × (stages' (b + j) ≡ some x') × Completed connectorsid e' s' x'
      first_or zero e' s' h was =
          let at : b + 0 ≡ b = omega arith in
          let same_stage : s ≡ s' = some-injective s s' (sym here ∙ ap stages (sym at) ∙ was) in
          (
            x,
            ap stages' at ∙ same b (omega arith) ∙ update_self stages b (some x),
            subst (λ y. Completed connectorsid y s' x) (some-injective e e' h)
                (subst (λ y. Completed connectorsid e y x) same_stage completed),
          )
      first_or (suc j) e' s' h was =
          let moved : suc b + j ≡ b + suc j = omega arith in
          let (x', stored, done) =
            each j e' s' h
              (update_ne stages (some x) (λ eq. absurd (omega arith)) ∙ ap stages moved ∙ was) in
          (x', ap stages' (sym moved) ∙ stored, done)

  pub output_loop-Completed :
      (es : List StageEntry) (b : ℕ) (stages : ℕ → Option Stage)
      → Stands stages b es
      → All Leading es
      → b + length es ≤ n_s
      → (stages' : ℕ → Option Stage) × (output_loop stagesid connectorsid n_s es stages
          ≡ built (some stages'))
        × AllCompleted stages b es stages'
  unfolding output_loop
  output_loop-Completed [] b stages stands leads fits =
      (stages, refl, ((λ j e s h. absurd (cc)), (λ i lt. refl)))
  output_loop-Completed (e ∷ es) b stages stands (lead, leads) fits =
      let (known, (s, found)) = stands 0 e refl in
      let here : stages b ≡ some s = ap stages (omega arith) ∙ found in
      let id_is : id_of stagesid (some e.object) ≡ pos b = known ∙ ap pos (omega arith) in
      let (x, done, completed) = round-Completed e stages b s lead (omega arith) here in
      let (stages', rest, all) =
        output_loop-Completed es (suc b) (update stages b (some x))
          (Stands-next stages b x e es stands) leads (omega arith) in
      (stages', rw (id_is, done) rest, Completed-next stages stages' b s x e es here completed all)
