-- ===== src/Report.antt =====
-- What the controller is told about a run: the ready queue, the pool of threads, and `stats_push` of src/kernel/stats.c, which `leda_get_stats` of
-- src/kernel/kernel.c returns, with the sizes of the queues from instance.c. A Lua table with the keys 1, 2
-- and so on is the list of its values; a latency is its numerator and the count in its denominator.
pub mod Lines
mod Examples
use leda.Prelude.{ℕ, zero, suc, Option, none, some, List, [], ◌∷◌, ltb, if◌then◌else◌}
use leda.Prelude.Int.{ℤ, pos, ◌-ℤ◌, leb_ℤ, pos_part}
use leda.Lua.{Value, boolean, number}
use leda.Queue.Fifo
use leda.Atomic.{atomic_value}
use leda.Stats.{StageStats, ConnectorStats, stage_latency, connector_latency}
use leda.Kernel.{Kernel, ok, fault, M, pure, ◌>>=◌, expect}
use leda.Instance.{as_size, slot_at}
use leda.Graph.{Graph, Stage, Connector}

-- `recycle_queue_capacity`
unfoldable pub recycle_queue_capacity : ℕ → M ℤ
recycle_queue_capacity s = slot_at s >>= λ slot. pure slot.recycle_queue.capacity

-- `event_queue_size`
unfoldable pub event_queue_size : ℕ → M ℤ
event_queue_size s = slot_at s >>= λ slot. pure (Fifo.size slot.event_queue)

-- `event_queue_capacity`
unfoldable pub event_queue_capacity : ℕ → M ℤ
event_queue_capacity s = slot_at s >>= λ slot. pure slot.event_queue.capacity

-- The macros STAGE and CONNECTOR for an entry that is used.
abbrev pub stage_of : Graph → ℕ → M Stage
stage_of g i = if ltb i g.n_s then expect (g.s i) else (λ k. fault)

abbrev pub connector_of : Graph → ℕ → M Connector
connector_of g i = if ltb i g.n_c then expect (g.c i) else (λ k. fault)

-- `sstats[i]` and `cstats[i]`
abbrev pub stage_stats : ℕ → M StageStats
stage_stats i k = if ltb i k.stats.nstages then ok (k.stats.sstats i) k else fault

abbrev pub connector_stats : ℕ → M ConnectorStats
connector_stats i k = if ltb i k.stats.nconnectors then ok (k.stats.cstats i) k else fault

pub record StageLine : Type 0 where
  pub name : List ℕ
  pub active : ℤ
  pub maxpar : ℤ
  pub event_queue_size : ℤ
  pub event_queue_capacity : ℤ
  pub average_latency : ℤ × ℤ
  pub times_executed : ℤ
  pub events_pushed : ℤ
  pub errors : ℤ

pub record ConnectorLine : Type 0 where
  pub key : List ℕ
  pub producer : List ℕ
  pub consumer : List ℕ
  pub average_latency : ℤ × ℤ
  pub events_pushed : ℤ

-- One round of the first loop.
unfoldable pub stage_line : Graph → ℕ → M StageLine
stage_line g i = do
  stage ← stage_of g i
  s ← stage_stats i
  maxpar ← recycle_queue_capacity i
  size ← event_queue_size i
  capacity ← event_queue_capacity i
  pure (record {
    name = stage.name;
    active = atomic_value s.active;
    maxpar = maxpar;
    event_queue_size = size;
    event_queue_capacity = capacity;
    average_latency = stage_latency s;
    times_executed = atomic_value s.executed;
    events_pushed = atomic_value s.events;
    errors = atomic_value s.error;
  })

-- One round of the second loop.
unfoldable pub connector_line : Graph → ℕ → M ConnectorLine
connector_line g i = do
  connector ← connector_of g i
  producer ← stage_of g (as_size connector.p)
  consumer ← stage_of g (as_size connector.c)
  c ← connector_stats i
  pure (record {
    key = connector.name;
    producer = producer.name;
    consumer = consumer.name;
    average_latency = connector_latency c;
    events_pushed = atomic_value c.events;
  })

-- A loop over that many ids, from `i` on, that fills a table.
unfoldable pub lines : {A : Type 0} → (ℕ → M A) → ℕ → ℕ → M (List A)
lines line i zero = pure []
lines line i (suc n) = do a ← line i; rest ← lines line (suc i) n; pure (a ∷ rest)

-- `stats_push`. With a number the bound of the first loop is one less than that, and `i` starts at 0 again.
unfoldable pub stats_push : Graph → Value → M (List StageLine × List ConnectorLine)
stats_push g (number n) = do
  stages ← lines (stage_line g) 0 (pos_part (n -ℤ pos 1))
  pure (stages, [])
stats_push g _ = λ k.
    (lines (stage_line g) 0 k.stats.nstages >>= λ stages.
    lines (connector_line g) 0 k.stats.nconnectors >>= λ connectors. pure (stages, connectors))
      k

-- `leda_ready_queue_size`, `leda_ready_queue_capacity`, `leda_ready_queue_isempty` and
-- `leda_get_thread_pool_size`
unfoldable pub leda_ready_queue_size : Kernel → Value
leda_ready_queue_size k = number (Fifo.size k.ready_queue)

unfoldable pub leda_ready_queue_capacity : Kernel → Value
leda_ready_queue_capacity k = number k.ready_queue.capacity

unfoldable pub leda_ready_queue_isempty : Kernel → Value
leda_ready_queue_isempty k = boolean (leb_ℤ (Fifo.size k.ready_queue) (pos 0))

unfoldable pub leda_get_thread_pool_size : Kernel → Value
leda_get_thread_pool_size k = number (atomic_value k.pool_size)
