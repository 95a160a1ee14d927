-- ===== src/Startup/Wired.antt =====
-- The ids that the kernel goes by after `leda_run` has set it up, through the macros STAGE, CONNECTOR,
-- CLUSTER and PROCESS of src/kernel/graph.h.
use leda.Prelude.{ℕ, ◌<◌, refl, ap, sym, subst, List, [], ◌∷◌, length, map, All}
use leda.Prelude.Int.{ℤ}
use leda.Atomic.{atomic_new}
use leda.Kernel.{Kernel}
use leda.Instance.{as_size, instance_init}
use leda.Graph.{Graph}
use leda.Graph.Outputs.{Within}
use leda.Graph.Sound.{Sound}
use leda.Remote.Sending.{InTurn}
use leda.Startup.{
  cluster_of, processes_of, producer_in, set_main_graph, leda_thread_init, event_init_t, set_up,
}

pub as_size-Within : (n : ℕ) (z : ℤ) → Within n z → as_size z < n
as_size-Within n z (i, e, lt) = subst (λ m. m < n) (sym (ap as_size e)) lt

map-below : (n : ℕ) (zs : List ℤ) → All (Within n) zs → All (λ i. i < n) (map as_size zs)
map-below n [] h = tt
map-below n (z ∷ zs) (w, h) = (as_size-Within n z w, map-below n zs h)

-- The producers, the clusters of the stages and the processes of the clusters are entries of the graph,
-- and a cluster that has a process sends to its first one next.
abbrev pub Wired : Graph → Kernel → Type 0
Wired g k =
    ((c : ℕ) → c < k.n_c → k.producer c < k.n_s)
    × ((s : ℕ) → s < k.n_s → k.net.cluster s < g.n_cl)
    × ((c : ℕ) → c < g.n_cl → All (λ d. d < g.n_d) (k.net.processes c))
    × ((c : ℕ) → 0 < length (k.net.processes c) → InTurn k.net c)

module _ (g : Graph) (sound : Sound g) where
  producer_below : (c : ℕ) → c < g.n_c → producer_in (g.c c) < g.n_s
  producer_below c lt =
      let (x, e, p, to) = sound.connectors c lt in
      subst (λ o. producer_in o < g.n_s) (sym e) (as_size-Within g.n_s x.p p)

  cluster_below : (s : ℕ) → s < g.n_s → cluster_of (g.s s) < g.n_cl
  cluster_below s lt =
      let (x, e, cl, outs) = sound.stages s lt in
      subst (λ o. cluster_of o < g.n_cl) (sym e) (as_size-Within g.n_cl x.cluster cl)

  processes_below : (c : ℕ) → c < g.n_cl → All (λ d. d < g.n_d) (processes_of (g.cl c))
  processes_below c lt =
      let (x, e, ps) = sound.clusters c lt in
      subst (λ o. All (λ d. d < g.n_d) (processes_of o)) (sym e) (map-below g.n_d x.processes ps)

  -- After `leda_run` has set up a graph in which every id is an index of its array, the producer of each connector is a stage, the cluster of each stage is a cluster and the processes of each cluster are processes of the graph, and the counter of each cluster that has a process is the index of one.
  pub set_up-Wired : (maxpar : ℤ) (k : Kernel) → Wired g (set_up g maxpar k)
  unfolding set_up event_init_t leda_thread_init set_main_graph instance_init atomic_new
  set_up-Wired maxpar k = (producer_below, cluster_below, processes_below, (λ c lt. (0, refl, lt)))
