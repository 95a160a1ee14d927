-- ===== src/Graph/Build.antt =====
-- `build_graph_representation` and `graph_build` of src/kernel/graph.c, from the four loops and the loop
-- over the outputs, with `graph_destroy` and the functions that look an id up.
use leda.Prelude.{ℕ, zero, suc, Option, none, some, List, [], ◌∷◌, update, ltb, if◌then◌else◌}
use leda.Prelude.Int.{ℤ, pos, negsuc, ltb_ℤ}
use leda.Instance.{as_size}
use leda.Graph.{
  Process, Cluster, OutputKey, string_key, number_key, other_key, Output, Stage, Connector, Graph,
  Ids, id_of, StageEntry, Description, Built, built, lua_error, fault, ◌>>=◌, copied, Filled,
  before, create, fill, make_process, make_cluster, make_stage, make_connector,
}

-- The number of keys that are strings or numbers.
unfoldable pub count_keys : List (OutputKey × ℕ) → ℕ
count_keys [] = 0
count_keys ((string_key s, c) ∷ os) = suc (count_keys os)
count_keys ((number_key n, c) ∷ os) = suc (count_keys os)
count_keys ((other_key, c) ∷ os) = count_keys os

-- What a round leaves in `s->output[k]`: an entry with any other key is not written.
abbrev pub written_at : Ids → OutputKey → ℕ → Option Output → Option Output
written_at ids (string_key s) c old =
    some (record { key = string_key s; value = id_of ids (some c) })
written_at ids (number_key n) c old =
    some (record { key = number_key n; value = id_of ids (some c) })
written_at ids other_key c old = old

-- `s->output[k].value`, which is 0 where nothing was written.
abbrev pub value_at : Option Output → ℤ
value_at none = pos 0
value_at (some o) = o.value

-- The second loop over the outputs of a stage: none is the return of NULL. Each round reads
-- `s->output[k]`, of which there are `n`.
unfoldable pub collect :
    ℕ → Ids → List (OutputKey × ℕ) → ℕ → (ℕ → Option Output) → Built (Option (ℕ → Option Output))
collect n ids [] k out = built (some out)
collect n ids ((key, c) ∷ os) k out =
    let now = written_at ids key c (out k) in
    let rest = collect n ids os (suc k) (update out k now) in
    if ltb k n then (if ltb_ℤ (value_at now) (pos 0) then built none else rest) else fault

abbrev pub outputs_from : Ids → StageEntry → ℕ → Built (Option (ℕ → Option Output))
outputs_from ids e zero = built (some (λ _. none))
outputs_from ids e (suc n) = collect (suc n) ids e.get_output 0 (λ _. none)

-- `g->s[idx]`, with its outputs.
abbrev pub set_outputs :
    ℕ → (ℕ → Option Stage) → ℕ → Stage → Option (ℕ → Option Output) → Option (ℕ → Option Stage)
set_outputs n stages i s none = none
set_outputs n stages i s (some out) =
    some (update stages i (some (record s { n_out = n; output = out })))

abbrev pub outputs_of :
    Ids → StageEntry → (ℕ → Option Stage) → ℕ → Option Stage → Built (Option (ℕ → Option Stage))
outputs_of ids e stages i none = fault
outputs_of ids e stages i (some s) = outputs_from ids e (count_keys e.get_output) >>= λ out.
    built (set_outputs (count_keys e.get_output) stages i s out)

-- One round of the loop over the stages for their outputs.
unfoldable pub output_round :
    Ids → ℕ → StageEntry → (ℕ → Option Stage) → ℤ → Built (Option (ℕ → Option Stage))
output_round ids n_s e stages (negsuc i) = fault
output_round ids n_s e stages (pos i) =
    if ltb i n_s then outputs_of ids e stages i (stages i) else fault

-- Nothing follows a return of NULL.
abbrev pub unless_null : {A B : Type 0} → (A → Built (Option B)) → Option A → Built (Option B)
unless_null f none = built none
unless_null f (some a) = f a

unfoldable pub output_loop :
    Ids → Ids → ℕ → List StageEntry → (ℕ → Option Stage) → Built (Option (ℕ → Option Stage))
output_loop stagesid connectorsid n_s [] stages = built (some stages)
output_loop stagesid connectorsid n_s (e ∷ es) stages =
    output_round connectorsid n_s e stages (id_of stagesid (some e.object))
    >>= unless_null (λ next. output_loop stagesid connectorsid n_s es next)

-- The graph, with the tables of ids that the Lua graph has from now on.
pub record Representation : Type 0 where
  pub graph : Graph
  pub stagesid : Ids
  pub connectorsid : Ids
  pub clustersid : Ids
  pub processesid : Ids

abbrev pub represented :
    Description
    → Filled Process
    → Filled Cluster
    → Filled Stage
    → Filled Connector
    → (ℕ → Option Stage)
    → Representation
represented d ds cls ss cs stages = record {
  graph = record {
    name = copied d.name;
    n_s = as_size d.count_stages;
    n_c = as_size d.count_connectors;
    n_cl = as_size d.count_clusters;
    n_d = as_size d.count_processes;
    s = stages;
    c = cs.entries;
    cl = cls.entries;
    d = ds.entries;
  };
  stagesid = ss.ids;
  connectorsid = cs.ids;
  clustersid = cls.ids;
  processesid = ds.ids;
}

-- The four loops.
unfoldable pub build_processes : Description → Built (Filled Process)
build_processes d =
    fill (λ e. e.object) make_process (create d.processesid) (as_size d.count_processes) d.processes
      (before d.processesid)

unfoldable pub build_clusters : Description → Ids → Built (Filled Cluster)
build_clusters d processesid =
    fill (λ e. e.object) (make_cluster processesid) (create d.clustersid) (as_size d.count_clusters)
      d.clusters (before d.clustersid)

unfoldable pub build_stages : Description → Ids → Built (Filled Stage)
build_stages d clustersid =
    fill (λ e. e.object) (make_stage clustersid) (create d.stagesid) (as_size d.count_stages)
      d.stages (before d.stagesid)

unfoldable pub build_connectors : Description → Ids → Built (Filled Connector)
build_connectors d stagesid =
    fill (λ e. e.object) (make_connector stagesid) (create d.connectorsid)
      (as_size d.count_connectors) d.connectors (before d.connectorsid)

-- `build_graph_representation`: none is NULL.
unfoldable pub build_graph_representation : Description → Built (Option Representation)
build_graph_representation d = build_processes d >>= λ ds. build_clusters d ds.ids >>= λ cls.
    build_stages d cls.ids >>= λ ss. build_connectors d ss.ids >>= λ cs.
    output_loop ss.ids cs.ids (as_size d.count_stages) d.stages ss.entries
    >>= unless_null (λ stages. built (some (represented d ds cls ss cs stages)))

abbrev pub or_error : Option Representation → Built Representation
or_error none = lua_error
or_error (some r) = built r

-- `graph_build`
unfoldable pub graph_build : Description → Built Representation
graph_build d = if d.is_graph then build_graph_representation d >>= or_error else lua_error

-- What `return g->x[id]` comes to, where `n` is compared: `id` is an `int` that turns into a `size_t`.
-- A built value is what is returned, NULL as none; a fault is a read outside the array.
abbrev pub entry_at : {A : Type 0} → ℕ → (ℕ → Option A) → ℕ → Built (Option A)
entry_at n entries i = if ltb n i then built none else if ltb i n then built (entries i) else fault

-- `graph_get_connector`, `graph_get_cluster` and `graph_get_stage`
unfoldable pub graph_get_connector : Option Graph → ℤ → Built (Option Connector)
graph_get_connector none id = built none
graph_get_connector (some g) id = entry_at g.n_c g.c (as_size id)

unfoldable pub graph_get_cluster : Option Graph → ℤ → Built (Option Cluster)
graph_get_cluster none id = built none
graph_get_cluster (some g) id = entry_at g.n_cl g.cl (as_size id)

unfoldable pub graph_get_stage : Option Graph → ℤ → Built (Option Stage)
graph_get_stage none id = built none
graph_get_stage (some g) id = entry_at g.n_s g.s (as_size id)
