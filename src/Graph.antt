-- ===== src/Graph.antt =====
-- The read-only graph that the C code keeps: src/kernel/graph.c. What the code asks the Lua graph for
-- is a `Description`: the fields it reads and what the graph's methods return, a Lua object being
-- known by a number. The order of a list is that of `lua_next`.
pub mod Build
pub mod Fill
pub mod Outputs
pub mod Ends
pub mod Regular
pub mod Phases
pub mod Faithful
pub mod Sound
pub mod Outlets
pub mod Destroy
pub mod Given
pub mod Samples
mod Examples
use leda.Prelude.{
  ℕ, zero, suc, Bool, true, false, Option, none, some, List, [], ◌∷◌, length, map, update, ltb,
  if◌then◌else◌,
}
use leda.Prelude.Int.{ℤ, pos, negsuc, ltb_ℤ}
use leda.Lua.{Value, nil, number, to_integer}
use leda.Instance.{as_size}

-- `struct process_data`, `struct cluster_data`, `key`, `struct stage_data` and `struct connector_data`.
-- A string is its bytes.
pub record Process : Type 0 where
  pub host : List ℕ
  pub port : ℤ

pub record Cluster : Type 0 where
  pub name : List ℕ
  pub local : Bool
  pub processes : List ℤ

pub data OutputKey : Type 0 where
  string_key : List ℕ → OutputKey
  number_key : ℤ → OutputKey
  other_key : OutputKey

pub record Output : Type 0 where
  pub key : OutputKey
  pub value : ℤ

-- An entry of `output` that nothing was written to is NULL.
pub record Stage : Type 0 where
  pub name : List ℕ
  pub env : List ℕ
  pub serial : Bool
  pub cluster : ℤ
  pub n_out : ℕ
  pub output : ℕ → Option Output

pub record Connector : Type 0 where
  pub name : List ℕ
  pub send : List ℕ
  pub p : ℤ
  pub c : ℤ

-- `struct graph_data`. A NULL entry of an array is none.
pub record Graph : Type 0 where
  pub name : List ℕ
  pub n_s : ℕ
  pub n_c : ℕ
  pub n_cl : ℕ
  pub n_d : ℕ
  pub s : ℕ → Option Stage
  pub c : ℕ → Option Connector
  pub cl : ℕ → Option Cluster
  pub d : ℕ → Option Process

-- A table from objects to ids.
abbrev pub Ids : Type 0
Ids = ℕ → Value

-- `lua_gettable` and `lua_tointeger`: the id of what is not in the table, or of nil, is 0.
abbrev pub id_of : Ids → Option ℕ → ℤ
id_of ids none = pos 0
id_of ids (some object) = to_integer (ids object)

-- What an entry of one of the graph's four tables is, read through its fields.
pub record ProcessEntry : Type 0 where
  pub object : ℕ
  pub host : Option (List ℕ)
  pub port : Value

pub record ClusterEntry : Type 0 where
  pub object : ℕ
  pub name : Option (List ℕ)
  pub is_local : Bool
  pub process_addr : Option (List ℕ)

-- `env` is what `mar_encode` makes of the stage, none if it raises an error.
pub record StageEntry : Type 0 where
  pub object : ℕ
  pub name : Option (List ℕ)
  pub serial : Bool
  pub env : Option (List ℕ)
  pub get_cluster : Option ℕ
  pub get_output : List (OutputKey × ℕ)

pub record ConnectorEntry : Type 0 where
  pub object : ℕ
  pub port : Option (List ℕ)
  pub method : Option (List ℕ)
  pub producer : Option ℕ
  pub consumer : Option ℕ

pub record Description : Type 0 where
  pub is_graph : Bool
  pub name : Option (List ℕ)
  pub stagesid : Option Ids
  pub connectorsid : Option Ids
  pub clustersid : Option Ids
  pub processesid : Option Ids
  pub count_processes : ℤ
  pub processes : List ProcessEntry
  pub count_clusters : ℤ
  pub clusters : List ClusterEntry
  pub count_stages : ℤ
  pub stages : List StageEntry
  pub count_connectors : ℤ
  pub connectors : List ConnectorEntry

-- A part of the work is done, raises a Lua error, or leaves an array.
pub data Built (A : Type 0) : Type 0 where
  built : A → Built A
  lua_error fault : Built A

module _ {A B : Type 0} where
  infixl 5 ◌>>=◌
  abbrev pub ◌>>=◌ : Built A → (A → Built B) → Built B
  built a >>= f = f a
  lua_error >>= f = lua_error
  fault >>= f = fault

-- `lua_tolstring`, `malloc` and `memcpy`: what is no string is copied as the empty one.
abbrev pub copied : Option (List ℕ) → List ℕ
copied none = []
copied (some bytes) = bytes

-- The state of a loop over one table: the ids, the next of them to give out, and the array.
pub record Filled (A : Type 0) : Type 0 where
  pub ids : Ids
  pub next : ℕ
  pub entries : ℕ → Option A

module _ {A : Type 0} where
  -- `g->d[idx]=d`, in an array of `n`.
  abbrev pub store : ℕ → ℤ → A → Filled A → Built (Filled A)
  store n (pos i) a t =
      if ltb i n then built (record t { entries = update t.entries i (some a) }) else fault
  store n (negsuc i) a t = fault

  -- The end of a round of the loop, where ids are given out, and where the table has them already.
  unfoldable pub enter : Bool → ℕ → ℕ → A → Filled A → Built (Filled A)
  enter true n object a t =
      store n (pos t.next) a
        (record t { ids = update t.ids object (number (pos t.next)); next = suc t.next })
  enter false n object a t = store n (id_of t.ids (some object)) a t

  -- The loop `while (lua_next(L, -2) != 0)` over the entries.
  unfoldable pub fill :
      {E : Type 0} → (E → ℕ) → (E → Built A) → Bool → ℕ → List E → Filled A → Built (Filled A)
  fill object make create n [] t = built t
  fill object make create n (e ∷ es) t =
      make e >>= λ a. enter create n (object e) a t >>= λ t'. fill object make create n es t'

  -- The table and the array before a loop: `calloc` zeroes the array.
  abbrev pub before : Option Ids → Filled A
  before none = record { ids = λ _. nil; next = 0; entries = λ _. none }
  before (some ids) = record { ids = ids; next = 0; entries = λ _. none }

-- Whether ids are given out: `lua_type(L,-1)!=LUA_TTABLE`.
abbrev pub create : Option Ids → Bool
create none = true
create (some ids) = false

unfoldable pub make_process : ProcessEntry → Built Process
make_process e = built (record { host = copied e.host; port = to_integer e.port })

abbrev pub with_processes : Ids → ClusterEntry → Option (List ℕ) → Built Cluster
with_processes ids e none = lua_error
with_processes ids e (some ps) = built (record {
  name = copied e.name;
  local = e.is_local;
  processes = map (λ p. id_of ids (some p)) ps;
})

unfoldable pub make_cluster : Ids → ClusterEntry → Built Cluster
make_cluster ids e = with_processes ids e e.process_addr

abbrev pub with_env : Ids → StageEntry → Option (List ℕ) → Built Stage
with_env ids e none = lua_error
with_env ids e (some env) = built (record {
  name = copied e.name;
  env = env;
  serial = e.serial;
  cluster = id_of ids e.get_cluster;
  n_out = 0;
  output = λ _. none;
})

unfoldable pub make_stage : Ids → StageEntry → Built Stage
make_stage ids e = with_env ids e e.env

unfoldable pub make_connector : Ids → ConnectorEntry → Built Connector
make_connector ids e = built (record {
  name = copied e.port;
  send = copied e.method;
  p = id_of ids e.producer;
  c = id_of ids e.consumer;
})
