-- ===== src/Graph/Regular.antt =====
-- What `build_graph_representation` relies on: the description of a graph that has not run yet, as the
-- Lua library makes it.
use leda.Prelude.{
  ℕ, ◌≡◌, ap, ◌∙◌, sym, Option, some, none, List, length, get_elem?, map, All, index-lt, arith,
}
use leda.Prelude.Int.{ℤ, pos}
use leda.Lua.{to_integer}
use leda.Instance.{as_size}
use leda.Graph.{
  Ids, id_of, ClusterEntry, StageEntry, ConnectorEntry, ProcessEntry, Description, Filled, Built,
  built, create, before, fill,
}
use leda.Graph.Fill.{Distinct, Makes, Placed, fill-Placed}
use leda.Graph.Outputs.{Plain, Within}

-- The object is one of the entries.
abbrev pub Listed : {E : Type 0} → (E → ℕ) → List E → ℕ → Type 0
Listed {E} object es o = (j : ℕ) × (e : E) × (get_elem? es j ≡ some e) × (object e ≡ o)

abbrev pub process_object : ProcessEntry → ℕ
process_object e = e.object

abbrev pub cluster_object : ClusterEntry → ℕ
cluster_object e = e.object

abbrev pub stage_object : StageEntry → ℕ
stage_object e = e.object

abbrev pub connector_object : ConnectorEntry → ℕ
connector_object e = e.object

-- One table: no ids yet, the count is the number of entries, and no object comes twice.
pub record Enumerated {E : Type 0} (object : E → ℕ) (ids : Option Ids) (count : ℤ) (es : List E)
    : Type 0 where
  pub fresh : ids ≡ none
  pub counted : as_size count ≡ length es
  pub distinct : Distinct (map object es)

-- A cluster has an address for each of its processes.
abbrev pub Addressed : List ProcessEntry → ClusterEntry → Type 0
Addressed ps e =
    (addr : List ℕ) × (e.process_addr ≡ some addr) × All (Listed process_object ps) addr

-- A stage can be encoded, has a cluster, and its outputs have plain keys and connectors.
abbrev pub Staged : List ClusterEntry → List ConnectorEntry → StageEntry → Type 0
Staged cls cs e =
    ((env : List ℕ) × (e.env ≡ some env))
    × ((c : ℕ) × (e.get_cluster ≡ some c) × Listed cluster_object cls c)
    × All (λ (key, c). Plain key × Listed connector_object cs c) e.get_output

-- A connector goes from a stage to a stage.
abbrev pub Joined : List StageEntry → ConnectorEntry → Type 0
Joined ss e =
    ((p : ℕ) × (e.producer ≡ some p) × Listed stage_object ss p)
    × ((c : ℕ) × (e.consumer ≡ some c) × Listed stage_object ss c)

pub record Regular (d : Description) : Type 0 where
  pub processes : Enumerated process_object d.processesid d.count_processes d.processes
  pub clusters : Enumerated cluster_object d.clustersid d.count_clusters d.clusters
  pub stages : Enumerated stage_object d.stagesid d.count_stages d.stages
  pub connectors : Enumerated connector_object d.connectorsid d.count_connectors d.connectors
  pub addressed : All (Addressed d.processes) d.clusters
  pub staged : All (Staged d.clusters d.connectors) d.stages
  pub joined : All (Joined d.stages) d.connectors

module _ {E A : Type 0} (object : E → ℕ) (make : E → Built A) where
  -- The loop over such a table gives each entry its index.
  pub Enumerated-Placed :
      (ids : Option Ids) (count : ℤ) (es : List E)
      → Enumerated object ids count es
      → Makes object make es
      → (t : Filled A) × (fill object make (create ids) (as_size count) es (before ids) ≡ built t)
        × Placed object make es (before none) t
  Enumerated-Placed ids count es regular makes =
      let (t, done, placed) =
        fill-Placed object make (as_size count) es (before none) makes regular.distinct
          (omega (arith, regular.counted)) in
      (t, rw (regular.fresh) done, placed)

  -- The id of what is listed.
  pub Listed-Within :
      (es : List E) (t : Filled A) (o : ℕ)
      → Placed object make es (before none) t
      → Listed object es o
      → Within (length es) (id_of t.ids (some o))
  Listed-Within es t o placed (j, e, at, same) = (
    j,
    ap (λ x. id_of t.ids (some x)) (sym same)
        ∙ ap to_integer ((placed.each j e at).known)
        ∙ ap pos (omega arith),
    index-lt es j e at,
  )
