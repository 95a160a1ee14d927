-- ===== src/Kernel.antt =====
-- The state that the worker threads share: the global tables of src/kernel/instance.c, with the
-- stages of the graph, the counters of stats.c and what waits for the event loop of event.c.
-- The queues are those that queue.h promises (Queue.Fifo).
use leda.Prelude.{ℕ, suc, Bool, Option, none, some, List, update}
use leda.Prelude.Int.{ℤ}
use leda.Lua.{Value, Stack}
use leda.Queue.Fifo.{Fifo}
use leda.Atomic.{Atomic}
use leda.Stats.{Stats}
use leda.Event.{EventData}

-- `struct instance_data`. An instance is in one place at a time, so it is a value: the stack and the
-- registered handler of its Lua state stand for the state. A time is a number of microseconds.
pub record Instance : Type 0 where
  pub stack : Stack
  pub handler : Value
  pub stage : ℕ
  pub args : ℕ
  pub instance_number : ℤ
  pub init_time : ℤ
  pub con_id : ℤ
  pub packed_event : Option EventData
  pub communication_time : ℤ
  pub last_proc : ℕ

-- The entries of `recycle_queues`, `event_queues`, `recycle_queue_limits` and
-- `number_of_instances` for one stage, with the fields of the stage that the calls read.
pub record Slot : Type 0 where
  pub recycle_queue : Fifo Instance
  pub event_queue : Fifo EventData
  pub recycle_queue_limit : Atomic
  pub number_of_instances : Atomic
  pub serial : Bool
  pub local : Bool

-- What an instance waits for in the event loop.
pub data Wake : Type 0 where
  socket : ℤ → Bool → Bool → Wake
  timer : ℤ → Wake
  file : Wake
  acknowledgement : ℤ → Wake

-- The network: the cluster of each stage and the processes of each cluster, from `main_graph`, with
-- `cur_process` and `sockets` of event.c, the sockets that were closed, and the bytes that went out.
pub record Net : Type 0 where
  pub cluster : ℕ → ℕ
  pub processes : ℕ → List ℕ
  pub cur_process : ℕ → Atomic
  pub sockets : ℕ → Fifo ℤ
  pub closed : List ℤ
  pub written : List (ℤ × List ℕ)

-- `n_s` and `n_c` are those of `main_graph`, and `producer` gives the `p` of each connector. An entry
-- of `ready_queue` is an instance, or NULL to end a thread.
-- `pool_size` is that of scheduler.c, and `clock` is what `now_secs` reads, one value after another.
pub record Kernel : Type 0 where
  pub n_s : ℕ
  pub n_c : ℕ
  pub producer : ℕ → ℕ
  pub slots : ℕ → Slot
  pub ready_queue : Fifo (Option Instance)
  pub waiting : List (Instance × Wake)
  pub stats : Stats
  pub pool_size : Atomic
  pub net : Net
  pub clock : ℕ → ℤ
  pub reads : ℕ

-- A call returns, or sleeps in `queue_push` with the instance that it wants to push, or does not come
-- out of a loop of writes or waits in `queue_pop` (then it has no instance to push), or faults:
-- it leaves an array, or a Lua error reaches C code that does not expect it.
pub data Run (A : Type 0) : Type 0 where
  ok : A → Kernel → Run A
  blocked : Option Instance → Kernel → Run A
  fault : Run A

abbrev pub M : Type 0 → Type 0
M A = Kernel → Run A

abbrev pub pure : {A : Type 0} → A → M A
pure = ok

module _ {A B : Type 0} where
  abbrev pub and_then : Run A → (A → M B) → Run B
  and_then (ok a k) f = f a k
  and_then (blocked i k) f = blocked i k
  and_then fault f = fault

  infixl 5 ◌>>=◌ ◌>>◌
  abbrev pub ◌>>=◌ : M A → (A → M B) → M B
  m >>= f = λ k. and_then (m k) f

  abbrev pub ◌>>◌ : M A → M B → M B
  m >> n = m >>= λ _. n

-- A value that some step must have produced.
abbrev pub expect : {A : Type 0} → Option A → M A
expect none k = fault
expect (some a) k = ok a k

-- `now_secs`
abbrev pub now_secs : M ℤ
now_secs k = ok (k.clock k.reads) (record k { reads = suc k.reads })

abbrev pub change_stats : (Stats → Stats) → M (Unit {0})
change_stats f k = ok tt (record k { stats = f k.stats })

abbrev pub change_net : (Net → Net) → M (Unit {0})
change_net f k = ok tt (record k { net = f k.net })

abbrev pub put_slot : ℕ → Slot → Kernel → Kernel
put_slot s slot k = record k { slots = update (k.slots) s slot }
