-- ===== src/Graph/Faithful.antt =====
-- The graph that `graph_build` makes of a regular description.
use leda.Prelude.{
  if◌then◌else◌, ℕ, ◌+◌, ◌≡◌, refl, ap, ◌∙◌, subst, sym, true, Option, some, none, List, length,
  get_elem?, All, All-imp, arith,
}
use leda.Prelude.Int.{pos}
use leda.Lua.{number, to_integer}
use leda.Instance.{as_size}
use leda.Graph.{
  Stage, Ids, StageEntry, Description, Filled, Built, built, lua_error, ◌>>=◌, before, make_process,
  make_cluster, make_stage, make_connector,
}
use leda.Graph.Build.{
  Representation, represented, build_graph_representation, or_error, graph_build,
}
use leda.Graph.Fill.{Placed, At}
use leda.Graph.Outputs.{Leads}
use leda.Graph.Ends.{Completed, Stands, AllCompleted, output_loop-Completed}
use leda.Graph.Phases.{Phases, phases}
use leda.Graph.Regular.{
  Regular, process_object, cluster_object, stage_object, connector_object, Listed-Within,
}

-- Entry by entry: what the code makes of it is in the array at its index, which is its id.
abbrev pub Mirrors :
    {E A : Type 0} → (E → ℕ) → (E → A → Type 0) → List E → Ids → (ℕ → Option A) → Type 0
Mirrors {E} {A} object Is es ids entries =
    (i : ℕ) (e : E)
    → get_elem? es i ≡ some e
    → (a : A) × (entries i ≡ some a) × (ids (object e) ≡ number (pos i)) × Is e a

-- A stage as the code makes it, with its outputs.
abbrev pub IsStage : Representation → StageEntry → Stage → Type 0
IsStage r e x = (s : Stage) × (make_stage r.clustersid e ≡ built s) × Completed r.connectorsid e s x

-- The arrays hold the description's entries, in their order.
pub record Faithful (d : Description) (r : Representation) : Type 0 where
  pub n_d : r.graph.n_d ≡ length d.processes
  pub n_cl : r.graph.n_cl ≡ length d.clusters
  pub n_s : r.graph.n_s ≡ length d.stages
  pub n_c : r.graph.n_c ≡ length d.connectors
  pub processes :
      Mirrors process_object (λ e a. make_process e ≡ built a) d.processes r.processesid r.graph.d
  pub clusters :
      Mirrors cluster_object
        (λ e a. make_cluster r.processesid e ≡ built a)
        d.clusters
        r.clustersid
        r.graph.cl
  pub stages : Mirrors stage_object (IsStage r) d.stages r.stagesid r.graph.s
  pub connectors :
      Mirrors connector_object
        (λ e a. make_connector r.stagesid e ≡ built a)
        d.connectors
        r.connectorsid
        r.graph.c

Placed-Mirrors :
    {E A : Type 0} (object : E → ℕ) (make : E → Built A) (es : List E) (t : Filled A)
    → Placed object make es (before none) t
    → Mirrors object (λ e a. make e ≡ built a) es t.ids t.entries
Placed-Mirrors object make es t placed i e h =
    let zero_plus : 0 + i ≡ i = omega arith in
    let at : At object make t i e =
      subst (λ n. At object make t n e) zero_plus (placed.each i e h) in
    (at.entry, at.stored, at.known, at.made)

module _ (d : Description) (regular : Regular d) where
  abbrev ph : Phases d
  ph = phases d regular

  stands :
      Stands ph.ss.ids ph.cs.ids
        (as_size d.count_stages)
        (length d.connectors)
        ph.ss.entries
        0
        d.stages
  stands j e h = let at = ph.ss_placed.each j e h in (ap to_integer at.known, (at.entry, at.stored))

  leads : All (λ e. All (Leads ph.cs.ids (length d.connectors)) e.get_output) d.stages
  leads =
      All-imp
        (λ e (env, cl, outs).
          All-imp
            (λ (key, c) (plain, listed).
              (plain, Listed-Within connector_object _ d.connectors ph.cs c ph.cs_placed listed))
            e.get_output outs)
        d.stages regular.staged

  represents :
      (stages : ℕ → Option Stage)
      → AllCompleted ph.ss.ids ph.cs.ids
          (as_size d.count_stages)
          (length d.connectors)
          ph.ss.entries
          0
          d.stages
          stages
      → Faithful d (represented d ph.ds ph.cls ph.ss ph.cs stages)
  represents stages (each, same) = record {
    n_d = regular.processes.counted;
    n_cl = regular.clusters.counted;
    n_s = regular.stages.counted;
    n_c = regular.connectors.counted;
    processes = Placed-Mirrors process_object _ d.processes ph.ds ph.ds_placed;
    clusters = Placed-Mirrors cluster_object _ d.clusters ph.cls ph.cls_placed;
    stages = λ i e h.
        let (s, stored, known, made) =
          Placed-Mirrors stage_object _ d.stages ph.ss ph.ss_placed i e h in
        let zero_plus : 0 + i ≡ i = omega arith in
        let (x, now, completed) = each i e s h (ap ph.ss.entries zero_plus ∙ stored) in
        (x, ap stages (sym zero_plus) ∙ now, known, (s, made, completed));
    connectors = Placed-Mirrors connector_object _ d.connectors ph.cs ph.cs_placed;
  }

  built_faithfully :
      (r : Representation) × (build_graph_representation d ≡ built (some r)) × Faithful d r
  unfolding build_graph_representation
  built_faithfully =
      let (stages, done, all) =
        output_loop-Completed ph.ss.ids ph.cs.ids (as_size d.count_stages) (length d.connectors)
          d.stages 0 ph.ss.entries stands leads (omega (arith, regular.stages.counted)) in
      (
        represented d ph.ds ph.cls ph.ss ph.cs stages,
        rw (ph.ds_built, ph.cls_built, ph.ss_built, ph.cs_built, done) refl,
        represents stages all,
      )

-- `graph_build` of the description of a graph that has not run yet neither faults nor raises an error: its arrays hold the description's entries in their order, each made from the entry's fields, each entry's id is its index, and each stage has its outputs in their order.
pub graph_build-Faithful :
    (d : Description)
    → d.is_graph ≡ true
    → Regular d
    → (r : Representation) × (graph_build d ≡ built r) × Faithful d r
unfolding graph_build
graph_build-Faithful d is regular =
    let (r, done, faithful) = built_faithfully d regular in
    (
      r,
      ap (λ b. if b then build_graph_representation d >>= or_error else lua_error) is
          ∙ ap (λ x. x >>= or_error) done,
      faithful,
    )
