-- ===== src/Graph/Phases.antt =====
-- The four loops of `build_graph_representation` on a regular description.
use leda.Prelude.{◌≡◌, refl, ap, none, List, All, All-always, All-imp}
use leda.Graph.{
  Process, Cluster, Stage, Connector, Ids, ClusterEntry, StageEntry, ConnectorEntry, ProcessEntry,
  Description, Filled, built, before, with_processes, with_env, make_process, make_cluster,
  make_stage, make_connector,
}
use leda.Graph.Build.{build_processes, build_clusters, build_stages, build_connectors}
use leda.Graph.Fill.{Placed, Makes}
use leda.Graph.Regular.{
  Addressed, Staged, Regular, process_object, cluster_object, stage_object, connector_object,
  Enumerated-Placed,
}

pub Makes-process : (es : List ProcessEntry) → Makes process_object make_process es
unfolding make_process
Makes-process es = All-always (λ e. (_, refl)) es

Makes-cluster :
    (ids : Ids) (ps : List ProcessEntry) (es : List ClusterEntry)
    → All (Addressed ps) es
    → Makes cluster_object (make_cluster ids) es
unfolding make_cluster
Makes-cluster ids ps es h = All-imp (λ e (addr, is, all). (_, ap (with_processes ids e) is)) es h

Makes-stage :
    (ids : Ids) (cls : List ClusterEntry) (cs : List ConnectorEntry) (es : List StageEntry)
    → All (Staged cls cs) es
    → Makes stage_object (make_stage ids) es
unfolding make_stage
Makes-stage ids cls cs es h = All-imp (λ e ((env, is), cl, outs). (_, ap (with_env ids e) is)) es h

Makes-connector :
    (ids : Ids) (es : List ConnectorEntry) → Makes connector_object (make_connector ids) es
unfolding make_connector
Makes-connector ids es = All-always (λ e. (_, refl)) es

-- The result of the four loops for a regular description.
pub record Phases (d : Description) : Type 0 where
  pub ds : Filled Process
  pub cls : Filled Cluster
  pub ss : Filled Stage
  pub cs : Filled Connector
  pub ds_built : build_processes d ≡ built ds
  pub cls_built : build_clusters d ds.ids ≡ built cls
  pub ss_built : build_stages d cls.ids ≡ built ss
  pub cs_built : build_connectors d ss.ids ≡ built cs
  pub ds_placed : Placed process_object make_process d.processes (before none) ds
  pub cls_placed : Placed cluster_object (make_cluster ds.ids) d.clusters (before none) cls
  pub ss_placed : Placed stage_object (make_stage cls.ids) d.stages (before none) ss
  pub cs_placed : Placed connector_object (make_connector ss.ids) d.connectors (before none) cs

pub phases : (d : Description) → Regular d → Phases d
unfolding build_processes build_clusters build_stages build_connectors
phases d regular =
    let (ds, a, a') =
      Enumerated-Placed process_object make_process _ _ _ regular.processes (Makes-process _) in
    let (cls, b, b') =
      Enumerated-Placed cluster_object (make_cluster ds.ids) _ _ _ regular.clusters
        (Makes-cluster ds.ids _ _ regular.addressed) in
    let (ss, c, c') =
      Enumerated-Placed stage_object (make_stage cls.ids) _ _ _ regular.stages
        (Makes-stage cls.ids _ _ _ regular.staged) in
    let (cs, e, e') =
      Enumerated-Placed connector_object (make_connector ss.ids) _ _ _ regular.connectors
        (Makes-connector ss.ids _) in
    record {
      ds = ds;
      cls = cls;
      ss = ss;
      cs = cs;
      ds_built = a;
      cls_built = b;
      ss_built = c;
      cs_built = e;
      ds_placed = a';
      cls_placed = b';
      ss_placed = c';
      cs_placed = e';
    }
