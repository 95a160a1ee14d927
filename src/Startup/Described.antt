-- ===== src/Startup/Described.antt =====
-- From the Lua graph to the dispatch: `graph_build` and then `leda_run`.
use leda.Prelude.{
  ℕ, ◌<◌, ◌≡◌, ◌≢◌, ap, ◌∙◌, sym, subst, true, some, List, [], get_elem?, All, All-at, All-imp,
  index-lt,
}
use leda.Prelude.Int.{ℤ, negsuc, ◌≤ℤ◌}
use leda.Lua.{Value, to_integer}
use leda.Kernel.{Kernel}
use leda.Instance.{load_error, as_size, instance_init, init_slot}
use leda.Instance.Places.{Ensures}
use leda.Instance.Places.Pool.{Never}
use leda.Scheduler.{Platform}
use leda.Graph.{
  id_of, StageEntry, ClusterEntry, Description, built, with_processes, with_env, make_cluster,
  make_stage,
}
use leda.Graph.Build.{Representation, graph_build}
use leda.Graph.Regular.{Regular}
use leda.Graph.Faithful.{Faithful, graph_build-Faithful}
use leda.Graph.Sound.{built_or}
use leda.Startup.{
  Pending, Controller, local_of, cluster_of, leda_run, set_up, set_main_graph, leda_thread_init,
  event_init_t,
}
use leda.Startup.Started.{Sendable, AllPlaced, Deliverable, leda_run-Placing}

-- The events are for a stage of the description, in a local cluster, whose chunk loads, and can be sent.
abbrev pub Described : Platform → Description → Pending → Type 0
Described p d x =
    (events : List (List Value)) × (x.events ≡ some events)
    × ((i m : ℕ) × (e : StageEntry) × (ce : ClusterEntry) × (get_elem? d.stages i ≡ some e)
        × (get_elem? d.clusters m ≡ some ce)
        × (e.object ≡ x.object)
        × (e.get_cluster ≡ some (ce.object))
        × (ce.is_local ≡ true)
        × ((n : ℤ) → p.boot i n ≢ load_error)
        × All (Sendable p) events)

module _ (d : Description) (r : Representation) (regular : Regular d)
    (faithful : Faithful d r) where
  made_local :
      (ce : ClusterEntry) (m : ℕ)
      → get_elem? d.clusters m ≡ some ce
      → ce.is_local ≡ true
      → local_of (r.graph.cl m) ≡ true
  unfolding make_cluster
  made_local ce m at local =
      let (z, stored, known, made) = faithful.clusters m ce at in
      let (addr, is, all) = All-at _ d.clusters m ce regular.addressed at in
      ap local_of stored
      ∙ sym (ap (λ b. (built_or z b).local) (sym (ap (with_processes r.processesid ce) is) ∙ made))
      ∙ local

  made_in :
      (e : StageEntry) (ce : ClusterEntry) (i m : ℕ)
      → get_elem? d.stages i ≡ some e
      → get_elem? d.clusters m ≡ some ce
      → e.get_cluster ≡ some (ce.object)
      → cluster_of (r.graph.s i) ≡ m
  unfolding make_stage
  made_in e ce i m at cluster_at of_it =
      let (x, stored, known, (s, made, (out, is, holds))) = faithful.stages i e at in
      let ((env, env_is), cl, outs) = All-at _ d.stages i e regular.staged at in
      let (z, z_stored, z_known, z_made) = faithful.clusters m ce cluster_at in
      ap cluster_of stored
      ∙ ap (λ y. as_size y.cluster) is
      ∙ ap as_size (
          sym (ap (λ b. (built_or s b).cluster) (sym (ap (with_env r.clustersid e) env_is) ∙ made))
          ∙ ap (id_of r.clustersid) of_it
          ∙ ap to_integer z_known)

  Described-Deliverable :
      (p : Platform) (maxpar : ℤ) (k : Kernel) (x : Pending)
      → Described p d x
      → Deliverable p (set_up r.graph maxpar k) r.stagesid x
  unfolding set_up event_init_t leda_thread_init set_main_graph instance_init init_slot
  Described-Deliverable p maxpar k x
        (events, are, (i, m, e, ce, at, cl_at, same, of_it, local, loads, sendable)) =
      let (y, stored, known, rest) = faithful.stages i e at in
      (
        events,
        are,
        (
          i,
          ap (λ o. id_of r.stagesid (some o)) (sym same) ∙ ap to_integer known,
          subst (λ n. i < n) (sym faithful.n_s) (index-lt d.stages i e at),
          ap (λ c. local_of (r.graph.cl c)) (made_in e ce i m at cl_at of_it)
              ∙ made_local ce m cl_at local,
          loads,
          sendable,
        ),
      )

-- `graph_build` of the description of a graph that has not run yet, and then `leda_run` with events that wait for stages in local clusters, whose chunks load and with values that can be copied and encoded, where nothing is in the event loop yet, the number of instances is unlimited or not negative and the controller has an `init` function: the graph is built, each send of a pending event returns true, no error is raised, nothing sleeps or faults, and every stage's tables fit.
pub leda_run-Described :
    (p : Platform) (d : Description) (c : Controller) (maxpar : ℤ) (stages : List Pending)
    (k : Kernel)
    → d.is_graph ≡ true
    → Regular d
    → negsuc 0 ≤ℤ maxpar
    → k.waiting ≡ []
    → c.init ≡ true
    → All (Described p d) stages
    → (r : Representation) × (graph_build d ≡ built r)
      × Ensures
          (AllPlaced p.marshal (set_up r.graph maxpar k))
          Never
          (leda_run p r.graph r.stagesid c maxpar stages k)
leda_run-Described p d c maxpar stages k is regular le idle has_init described =
    let (r, done, faithful) = graph_build-Faithful d is regular in
    (
      r,
      done,
      leda_run-Placing p r.graph r.stagesid c maxpar stages k le idle has_init
          (All-imp (Described-Deliverable d r regular faithful p maxpar k) stages described),
    )
