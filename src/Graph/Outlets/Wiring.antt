-- ===== src/Graph/Outlets/Wiring.antt =====
-- The handlers see the connectors of the Lua graph.
use mathlib.Core.Option.{some-injective}
use leda.Prelude.{
  ℕ, zero, suc, ◌<◌, ◌≡◌, refl, ap, ◌∙◌, sym, subst, true, Option, some, List, [], ◌∷◌, length,
  get_elem?, All, All-at, All-imp, index-lt, lt→ltb, arith,
}
use leda.Prelude.Int.{pos}
use leda.Lua.{to_integer}
use leda.Graph.{
  OutputKey, Output, Graph, Ids, id_of, copied, StageEntry, ConnectorEntry, Description, built,
  make_connector,
}
use leda.Graph.Build.{Representation, graph_build}
use leda.Graph.Outputs.{output_for, Holds}
use leda.Graph.Regular.{Regular}
use leda.Graph.Faithful.{Faithful, graph_build-Faithful}
use leda.Graph.Sound.{built_or}
use leda.Graph.Outlets.{Outlet, outlet, outlets_from, output_table}

-- Each of the outlets is what a round makes of the output at its place.
abbrev pub Each : Graph → Ids → List (OutputKey × ℕ) → List Outlet → Type 0
Each g ids os ys =
    (k : ℕ) (o : OutputKey × ℕ)
    → get_elem? os k ≡ some o
    → (y : Outlet) × (get_elem? ys k ≡ some y) × (outlet g (some (output_for ids o)) ≡ built y)

Each-next :
    (g : Graph) (ids : Ids) (o : OutputKey × ℕ) (y : Outlet) (os : List (OutputKey × ℕ))
    (ys : List Outlet)
    → outlet g (some (output_for ids o)) ≡ built y
    → Each g ids os ys
    → Each g ids (o ∷ os) (y ∷ ys)
Each-next g ids o y os ys made each zero x h =
    (y, refl, subst (λ z. outlet g (some (output_for ids z)) ≡ built y) (some-injective o x h) made)
Each-next g ids o y os ys made each (suc k) x h = each k x h

outlets-Each :
    (g : Graph) (ids : Ids) (output : ℕ → Option Output) (os : List (OutputKey × ℕ)) (j : ℕ)
    → Holds ids os j output
    → All (λ o. (y : Outlet) × (outlet g (some (output_for ids o)) ≡ built y)) os
    → (ys : List Outlet) × (outlets_from g output (length os) j ≡ built ys) × Each g ids os ys
unfolding outlets_from
outlets-Each g ids output [] j holds all = ([], refl, (λ k o h. absurd (cc)))
outlets-Each g ids output (o ∷ os) j holds ((y, made), all) =
    let here : output j ≡ some (output_for ids o) = ap output (omega arith) ∙ holds 0 o refl in
    let (ys, done, each) =
      outlets-Each g ids output os (suc j) (λ k x h. ap output (omega arith) ∙ holds (suc k) x h)
        all in
    (y ∷ ys, rw (here, made, done) refl, Each-next g ids o y os ys made each)

module _ (d : Description) (r : Representation) (regular : Regular d)
    (faithful : Faithful d r) where
  -- What a key with a connector becomes.
  abbrev wired_to : OutputKey → ℕ → ConnectorEntry → Outlet
  wired_to key m ce = record {
    key = key;
    sendf = copied ce.method;
    id = pos m;
    consumer = id_of r.stagesid ce.consumer;
  }

  outlet_made :
      (key : OutputKey) (c m : ℕ) (ce : ConnectorEntry)
      → get_elem? d.connectors m ≡ some ce
      → ce.object ≡ c
      → outlet r.graph (some (output_for r.connectorsid (key, c))) ≡ built (wired_to key m ce)
  unfolding outlet make_connector
  outlet_made key c m ce at same =
      let (x, stored, known, made) = faithful.connectors m ce at in
      let id_is : id_of r.connectorsid (some c) ≡ pos m =
        ap (λ z. id_of r.connectorsid (some z)) (sym same) ∙ ap to_integer known in
      let within : m < r.graph.n_c =
        subst (λ n. m < n) (sym faithful.n_c) (index-lt d.connectors m ce at) in
      rw (id_is, lt→ltb m r.graph.n_c within, stored)
        (ap (λ z. built (record { key = key; sendf = z.send; id = pos m; consumer = z.c }))
          (ap (built_or x) (sym made)))

  outlets_made :
      (e : StageEntry) (i : ℕ)
      → get_elem? d.stages i ≡ some e
      → (ys : List Outlet) × (output_table r.graph i ≡ built ys)
        × Each r.graph r.connectorsid e.get_output ys
  unfolding output_table
  outlets_made e i at =
      let (env, cl, outs) = All-at _ d.stages i e regular.staged at in
      let (x, stored, known, (s, made, (out, is, holds))) = faithful.stages i e at in
      let within : i < r.graph.n_s =
        subst (λ n. i < n) (sym faithful.n_s) (index-lt d.stages i e at) in
      let (ys, done, each) = outlets-Each r.graph r.connectorsid out e.get_output 0 holds (
        All-imp
          (λ (key, c) (plain, (m, ce, here, same)).
            (wired_to key m ce, outlet_made key c m ce here same))
          e.get_output outs) in
      (
        ys,
        rw (lt→ltb i r.graph.n_s within, stored)
            (ap (λ y. outlets_from r.graph y.output y.n_out 0) is ∙ done),
        each,
      )

-- In the graph that `graph_build` makes of the description of a graph that has not run yet, an instance of a stage gets an entry in its table of outputs for each of the stage's keys, in their order: if the key leads to the m-th connector of the Lua graph, and that connector's consumer is the n-th stage, the entry has the connector's method, the id m and the consumer n.
pub output_table-wired :
    (d : Description) (i k m n : ℕ) (e se : StageEntry) (ce : ConnectorEntry) (key : OutputKey)
    → d.is_graph ≡ true
    → Regular d
    → get_elem? d.stages i ≡ some e
    → get_elem? e.get_output k ≡ some (key, ce.object)
    → get_elem? d.connectors m ≡ some ce
    → get_elem? d.stages n ≡ some se
    → ce.consumer ≡ some (se.object)
    → (r : Representation) × (graph_build d ≡ built r)
      × ((ys : List Outlet) × (output_table r.graph i ≡ built ys)
          × (get_elem? ys k
              ≡ some
                  (record { key = key; sendf = copied ce.method; id = pos m; consumer = pos n })))
output_table-wired d i k m n e se ce key is regular stage at connector to consumer =
    let (r, done, faithful) = graph_build-Faithful d is regular in
    let (ys, table_is, each) = outlets_made d r regular faithful e i stage in
    let (y, here, made) = each k (key, ce.object) at in
    let (x, stored, known, rest) = faithful.stages n se to in
    let consumer_is : id_of r.stagesid ce.consumer ≡ pos n =
      ap (id_of r.stagesid) consumer ∙ ap to_integer known in
    let y_is : y ≡ wired_to d r regular faithful key m ce =
      ap (built_or y)
        (sym made ∙ outlet_made d r regular faithful key ce.object m ce connector refl) in
    (
      r,
      done,
      (
        ys,
        table_is,
        here
            ∙ ap some (
                y_is
                ∙ ap (λ z. record { key = key; sendf = copied ce.method; id = pos m; consumer = z })
                    consumer_is),
      ),
    )
