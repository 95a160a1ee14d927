-- ===== src/Startup.antt =====
-- How a run begins: `leda_run` of src/kernel/kernel.c up to the dispatch of its event base, with the
-- parts of the kernel that it sets up: `main_graph`, `leda_thread_init`, `instance_init`, `stats_init` and
-- `event_init_t`. What it returns tells whether the controller's `init` has been called; false is a Lua
-- error. An entry of the graph that is NULL has no flag and no id here.
pub mod Started
pub mod Described
pub mod Wired
pub mod Samples
mod Examples
use leda.Prelude.{ℕ, Bool, true, false, Option, none, some, List, [], ◌∷◌, map, if◌then◌else◌}
use leda.Prelude.Int.{ℤ, pos, negsuc}
use leda.Lua.{Value, nil, boolean, number}
use leda.Queue.Fifo
use leda.Atomic.{atomic_new}
use leda.Stats.{Stats, stats_init}
use leda.Kernel.{Slot, Net, Kernel, ok, fault, M, pure, ◌>>=◌, ◌>>◌, change_stats}
use leda.Instance.{as_size}
use leda.Instance.{instance_init}
use leda.Scheduler.{Platform, emmit}
use leda.Graph.{Stage, Cluster, Connector, Graph, Ids, id_of}

abbrev pub serial_of : Option Stage → Bool
serial_of none = false
serial_of (some s) = s.serial

abbrev pub cluster_of : Option Stage → ℕ
cluster_of none = 0
cluster_of (some s) = as_size s.cluster

abbrev pub local_of : Option Cluster → Bool
local_of none = false
local_of (some c) = c.local

abbrev pub processes_of : Option Cluster → List ℕ
processes_of none = []
processes_of (some c) = map as_size c.processes

abbrev pub producer_in : Option Connector → ℕ
producer_in none = 0
producer_in (some c) = as_size c.p

abbrev pub graph_slot : Graph → ℕ → Slot → Slot
graph_slot g s slot = record slot {
  serial = serial_of (g.s s);
  local = local_of (g.cl (cluster_of (g.s s)));
}

abbrev pub graph_net : Graph → Net → Net
graph_net g net = record net {
  cluster = λ s. cluster_of (g.s s);
  processes = λ c. processes_of (g.cl c);
}

-- `main_graph=g`
unfoldable pub set_main_graph : Graph → Kernel → Kernel
set_main_graph g k = record k {
  n_s = g.n_s;
  n_c = g.n_c;
  producer = λ c. producer_in (g.c c);
  slots = λ s. graph_slot g s (k.slots s);
  net = graph_net g k.net;
}

-- `leda_thread_init`
unfoldable pub leda_thread_init : Kernel → Kernel
leda_thread_init k = record k { pool_size = atomic_new (pos 0) }

-- `event_init_t`, but for the thread that it starts.
unfoldable pub event_init_t : Kernel → Kernel
event_init_t k = record k {
  net = record (k.net) { sockets = λ d. Fifo.new; cur_process = λ c. atomic_new (pos 0) };
}

-- The queues of pending events have no bound.
unfoldable pub set_up : Graph → ℤ → Kernel → Kernel
set_up g default_maxpar k =
    let with_instances =
      instance_init default_maxpar (negsuc 0) (leda_thread_init (set_main_graph g k)) in
    event_init_t (record with_instances { stats = stats_init g.n_s g.n_c with_instances.stats })

-- A stage of the Lua graph, with the values of its pending events if its field is a table.
pub record Pending : Type 0 where
  pub object : ℕ
  pub events : Option (List (List Value))

-- `lua_toboolean` of the first result, and a Lua error of `emmit`.
abbrev pub succeeded : Option (List Value) → Bool
succeeded none = false
succeeded (some []) = false
succeeded (some (nil ∷ vs)) = false
succeeded (some (boolean b ∷ vs)) = b
succeeded (some (v ∷ vs)) = true

abbrev pub go_on_if : M Bool → Bool → M Bool
go_on_if next true = next
go_on_if next false = pure false

-- The pending events of one stage, until an error.
unfoldable pub send_events : Platform → ℤ → List (List Value) → M Bool
send_events p id [] = pure true
send_events p id (values ∷ more) = emmit p (number id ∷ number (negsuc 0) ∷ values) >>= λ r.
    go_on_if (send_events p id more) (succeeded r)

-- The loop over the stages. After a `continue` the stack is one value too high, and the next `lua_next`
-- is called for what is no table of stages.
unfoldable pub send_pending : Platform → Ids → List Pending → M Bool
send_pending p stagesid [] = pure true
send_pending p stagesid (s ∷ more) = elim (s.events) [
  | none ↦ λ k. fault
  | some events ↦
      send_events p (id_of stagesid (some (s.object))) events
      >>= go_on_if (send_pending p stagesid more)
]

-- Which functions a controller has. The flags for its other callbacks are set but not read anywhere.
pub record Controller : Type 0 where
  pub on_error : Bool
  pub on_event : Bool
  pub on_release : Bool
  pub init : Bool

-- A flag that is set stays set.
unfoldable pub set_callbacks : Controller → Stats → Stats
set_callbacks c t = record t {
  has_error_cb = if c.on_error then true else t.has_error_cb;
  has_event_cb = if c.on_event then true else t.has_event_cb;
  has_release_cb = if c.on_release then true else t.has_release_cb;
}

-- `leda_run`
unfoldable pub leda_run : Platform → Graph → Ids → Controller → ℤ → List Pending → M Bool
leda_run p g stagesid c default_maxpar stages k =
    (send_pending p stagesid stages >>= go_on_if (change_stats (set_callbacks c) >> pure c.init))
      (set_up g default_maxpar k)
