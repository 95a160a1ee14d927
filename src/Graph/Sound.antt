-- ===== src/Graph/Sound.antt =====
-- Every id in the graph that `graph_build` makes of a regular description is an index of its array.
use leda.Prelude.{
  ℕ, ◌≡◌, ◌<◌, ap, ◌∙◌, subst, sym, true, Option, some, List, [], ◌∷◌, length, get_elem?, map, All,
  All-imp, All-at, index-lt, index-within, arith,
}
use leda.Lua.{to_integer}
use leda.Graph.{
  Process, Cluster, Stage, Connector, Output, Graph, Ids, id_of, ClusterEntry, StageEntry,
  ConnectorEntry, Description, Built, built, lua_error, fault, with_processes, with_env,
  make_cluster, make_stage, make_connector,
}
use leda.Graph.Build.{Representation, graph_build}
use leda.Graph.Outputs.{Within}
use leda.Graph.Ends.{Completed}
use leda.Graph.Regular.{
  Listed, Regular, process_object, cluster_object, stage_object, connector_object,
}
use leda.Graph.Faithful.{Mirrors, Faithful, graph_build-Faithful}

-- Every array is full, and every id that an entry holds is an index of the array that it is for.
pub record Sound (g : Graph) : Type 0 where
  pub processes : (i : ℕ) → i < g.n_d → (x : Process) × (g.d i ≡ some x)
  pub clusters :
      (i : ℕ) → i < g.n_cl → (x : Cluster) × (g.cl i ≡ some x) × All (Within g.n_d) x.processes
  pub stages :
      (i : ℕ)
      → i < g.n_s
      → (x : Stage) × (g.s i ≡ some x)
        × Within g.n_cl x.cluster
        × ((k : ℕ) → k < x.n_out → (o : Output) × (x.output k ≡ some o) × Within g.n_c o.value)
  pub connectors :
      (i : ℕ) → i < g.n_c → (x : Connector) × (g.c i ≡ some x) × Within g.n_s x.p × Within g.n_s x.c

Within-of :
    {E A : Type 0} (object : E → ℕ) (Is : E → A → Type 0) (es : List E) (ids : Ids)
    (entries : ℕ → Option A) (n o : ℕ)
    → n ≡ length es
    → Mirrors object Is es ids entries
    → Listed object es o
    → Within n (id_of ids (some o))
Within-of object Is es ids entries n o count mirrors (j, e, at, same) =
    let (a, stored, known, is) = mirrors j e at in
    (
      j,
      ap (λ x. id_of ids (some x)) (sym same) ∙ ap to_integer known,
      subst (λ m. j < m) (sym count) (index-lt es j e at),
    )

All-map :
    {A B : Type 0} (P : B → Type 0) (f : A → B) (xs : List A)
    → All (λ x. P (f x)) xs
    → All P (map f xs)
All-map P f [] h = tt
All-map P f (x ∷ xs) (p, h) = (p, All-map P f xs h)

-- What was built, or else something.
abbrev pub built_or : {A : Type 0} → A → Built A → A
built_or x (built a) = a
built_or x lua_error = x
built_or x fault = x

module _ (d : Description) (r : Representation) (regular : Regular d)
    (faithful : Faithful d r) where
  cluster-Within :
      (e : ClusterEntry) (x : Cluster) (i : ℕ)
      → get_elem? d.clusters i ≡ some e
      → make_cluster r.processesid e ≡ built x
      → All (Within r.graph.n_d) x.processes
  unfolding make_cluster
  cluster-Within e x i at made =
      let (addr, is, all) = All-at _ d.clusters i e regular.addressed at in
      subst (All (Within r.graph.n_d))
        (ap (λ b. (built_or x b).processes) (sym (ap (with_processes r.processesid e) is) ∙ made))
        (All-map (Within r.graph.n_d) _ addr (
          All-imp
            (λ p.
              Within-of process_object _ d.processes r.processesid _ _ p faithful.n_d
                faithful.processes)
            addr all))

  stage-Within :
      (e : StageEntry) (s : Stage) (i : ℕ)
      → get_elem? d.stages i ≡ some e
      → make_stage r.clustersid e ≡ built s
      → Within r.graph.n_cl s.cluster
  unfolding make_stage
  stage-Within e s i at made =
      let ((env, is), (c, cluster_is, listed), outs) = All-at _ d.stages i e regular.staged at in
      subst (Within r.graph.n_cl)
        (sym (ap (id_of r.clustersid) cluster_is)
          ∙ ap (λ b. (built_or s b).cluster) (sym (ap (with_env r.clustersid e) is) ∙ made))
        (Within-of cluster_object _ d.clusters r.clustersid _ _ c faithful.n_cl faithful.clusters
          listed)

  outputs-Within :
      (e : StageEntry) (s x : Stage) (i : ℕ)
      → get_elem? d.stages i ≡ some e
      → Completed r.connectorsid e s x
      → (k : ℕ) → k < x.n_out
      → (o : Output) × (x.output k ≡ some o) × Within r.graph.n_c o.value
  outputs-Within e s x i at (out, is, holds) k lt =
      let (env, cl, outs) = All-at _ d.stages i e regular.staged at in
      let ((key, c), here) =
        index-within e.get_output k (subst (λ n. k < n) (ap (λ y. y.n_out) is) lt) in
      let (plain, listed) = All-at _ e.get_output k (key, c) outs here in
      (
        record { key = key; value = id_of r.connectorsid (some c) },
        ap (λ y. y.output k) is ∙ ap out (omega arith) ∙ holds k (key, c) here,
        Within-of connector_object _ d.connectors r.connectorsid _ _ c faithful.n_c
            faithful.connectors listed,
      )

  joined-Within :
      (e : ConnectorEntry) (x : Connector) (i : ℕ)
      → get_elem? d.connectors i ≡ some e
      → make_connector r.stagesid e ≡ built x
      → Within r.graph.n_s x.p × Within r.graph.n_s x.c
  unfolding make_connector
  joined-Within e x i at made =
      let ((p, p_is, from), (c, c_is, to)) = All-at _ d.connectors i e regular.joined at in
      (
        subst (Within r.graph.n_s)
            (sym (ap (id_of r.stagesid) p_is) ∙ ap (λ b. (built_or x b).p) made)
            (Within-of stage_object _ d.stages r.stagesid _ _ p faithful.n_s faithful.stages from),
        subst (Within r.graph.n_s)
            (sym (ap (id_of r.stagesid) c_is) ∙ ap (λ b. (built_or x b).c) made)
            (Within-of stage_object _ d.stages r.stagesid _ _ c faithful.n_s faithful.stages to),
      )

  pub Faithful-Sound : Sound r.graph
  Faithful-Sound = record {
    processes = λ i lt.
        let (e, at) = index-within d.processes i (subst (λ n. i < n) faithful.n_d lt) in
        let (x, stored, known, is) = faithful.processes i e at in (x, stored);
    clusters = λ i lt.
        let (e, at) = index-within d.clusters i (subst (λ n. i < n) faithful.n_cl lt) in
        let (x, stored, known, is) = faithful.clusters i e at in
        (x, stored, cluster-Within e x i at is);
    stages = λ i lt.
        let (e, at) = index-within d.stages i (subst (λ n. i < n) faithful.n_s lt) in
        let (x, stored, known, (s, made, completed)) = faithful.stages i e at in
        let (out, is, holds) = completed in
        (
          x,
          stored,
          subst (Within r.graph.n_cl) (sym (ap (λ y. y.cluster) is)) (stage-Within e s i at made),
          outputs-Within e s x i at completed,
        );
    connectors = λ i lt.
        let (e, at) = index-within d.connectors i (subst (λ n. i < n) faithful.n_c lt) in
        let (x, stored, known, is) = faithful.connectors i e at in
        let (from, to) = joined-Within e x i at is in (x, stored, from, to);
  }

-- In the graph that `graph_build` makes of the description of a graph that has not run yet, every array is full, and every id that is stored (of a cluster's processes, of a stage's cluster and its outputs' connectors, of a connector's two stages) is an index of the array that it is for.
pub graph_build-Sound :
    (d : Description)
    → d.is_graph ≡ true
    → Regular d
    → (r : Representation) × (graph_build d ≡ built r) × Sound r.graph
graph_build-Sound d is regular =
    let (r, done, faithful) = graph_build-Faithful d is regular in
    (r, done, Faithful-Sound d r regular faithful)
