-- ===== src/Report/Lines.antt =====
-- The tables of `stats_push` have one line for each stage and connector that they are about.
use leda.Prelude.{
  ℕ, zero, suc, ◌+◌, ◌<◌, ◌≡◌, refl, ap, ◌∙◌, sym, subst, some, List, [], ◌∷◌, length, ltb, lt→ltb,
  true, arith,
}
use leda.Prelude.Int.{ℤ, pos, pos_suc-sub-one}
use leda.Lua.{nil, number}
use leda.Queue.Fifo
use leda.Atomic.{atomic_value}
use leda.Stats.{stage_latency, connector_latency}
use leda.Kernel.{Kernel, ok, M}
use leda.Instance.{as_size, slot_at}
use leda.Graph.{Graph, Stage, Connector}
use leda.Graph.Outputs.{Within}
use leda.Graph.Sound.{Sound}
use leda.Startup.Wired.{as_size-Within}
use leda.Report.{
  StageLine, ConnectorLine, recycle_queue_capacity, event_queue_size, event_queue_capacity,
  stage_line, connector_line, lines, stats_push,
}

-- What the line of a stage tells: its name, its counters, and the state of its queues.
pub record OfStage (g : Graph) (k : Kernel) (i : ℕ) (line : StageLine) : Type 0 where
  pub stage : Stage
  pub is : g.s i ≡ some stage
  pub name : line.name ≡ stage.name
  pub counters :
      (line.active ≡ (k.stats.sstats i).active.i)
      × (line.times_executed ≡ (k.stats.sstats i).executed.i)
      × (line.events_pushed ≡ (k.stats.sstats i).events.i)
      × (line.errors ≡ (k.stats.sstats i).error.i)
      × (line.average_latency ≡ stage_latency (k.stats.sstats i))
  pub queues :
      (line.maxpar ≡ (k.slots i).recycle_queue.capacity)
      × (line.event_queue_size ≡ pos (length (k.slots i).event_queue.items))
      × (line.event_queue_capacity ≡ (k.slots i).event_queue.capacity)

-- What the line of a connector tells: its name, the names of its ends, and its counters.
pub record OfConnector (g : Graph) (k : Kernel) (i : ℕ) (line : ConnectorLine) : Type 0 where
  pub connector : Connector
  pub is : g.c i ≡ some connector
  pub key : line.key ≡ connector.name
  pub producer : (s : Stage) × (g.s (as_size connector.p) ≡ some s) × (line.producer ≡ s.name)
  pub consumer : (s : Stage) × (g.s (as_size connector.c) ≡ some s) × (line.consumer ≡ s.name)
  pub counters :
      (line.events_pushed ≡ (k.stats.cstats i).events.i)
      × (line.average_latency ≡ connector_latency (k.stats.cstats i))

-- The lines are about the ids from `i` on.
abbrev pub From : {A : Type 0} → (ℕ → A → Type 0) → ℕ → List A → Type 0
From P i [] = Unit
From P i (a ∷ rest) = P i a × From P (suc i) rest

-- A table of `n` lines, each about its id.
abbrev pub Table : {A : Type 0} → (ℕ → A → Type 0) → ℕ → List A → Type 0
Table P n rows = (length rows ≡ n) × From P 0 rows

-- A loop whose rounds all return fills a whole table.
lines-From :
    {A : Type 0} (P : ℕ → A → Type 0) (line : ℕ → M A) (k : Kernel) (i n : ℕ)
    → ((j : ℕ) → j < i + n → (a : A) × (line j k ≡ ok a k) × P j a)
    → (rows : List A) × (lines line i n k ≡ ok rows k) × (length rows ≡ n) × From P i rows
unfolding lines
lines-From P line k i zero each = ([], refl, refl, tt)
lines-From P line k i (suc n) each =
    let (a, is, fits) = each i (omega arith) in
    let (rows, are, count, rest) =
      lines-From P line k (suc i) n (λ j lt. each j (omega (arith, lt))) in
    (a ∷ rows, rw (is, are) refl, ap suc count, (fits, rest))

module _ (g : Graph) (k : Kernel) (sound : Sound g) (same : k.n_s ≡ g.n_s) where
  stage_line-OfStage :
      (i : ℕ)
      → i < g.n_s
      → i < k.stats.nstages
      → (line : StageLine) × (stage_line g i k ≡ ok line k) × OfStage g k i line
  unfolding stage_line recycle_queue_capacity event_queue_size event_queue_capacity slot_at
      Fifo.size atomic_value
  stage_line-OfStage i lt lt' =
      let (stage, is, cluster, outs) = sound.stages i lt in
      let in_slots = lt→ltb i k.n_s (subst (λ n. i < n) (sym same) lt) in
      (
        told stage,
        rw (lt→ltb i g.n_s lt, is, lt→ltb i k.stats.nstages lt', in_slots, in_slots, in_slots) refl,
        record {
          stage = stage;
          is = is;
          name = refl;
          counters = (refl, refl, refl, refl, refl);
          queues = (refl, refl, refl);
        },
      )
    where
      told : Stage → StageLine
      told stage = record {
        name = stage.name;
        active = (k.stats.sstats i).active.i;
        maxpar = (k.slots i).recycle_queue.capacity;
        event_queue_size = pos (length (k.slots i).event_queue.items);
        event_queue_capacity = (k.slots i).event_queue.capacity;
        average_latency = stage_latency (k.stats.sstats i);
        times_executed = (k.stats.sstats i).executed.i;
        events_pushed = (k.stats.sstats i).events.i;
        errors = (k.stats.sstats i).error.i;
      }

  end_of :
      (z : ℤ)
      → Within g.n_s z
      → (s : Stage) × (g.s (as_size z) ≡ some s) × (ltb (as_size z) g.n_s ≡ true)
  end_of z within =
      let lt = as_size-Within g.n_s z within in
      let (s, is, cluster, outs) = sound.stages (as_size z) lt in (s, is, lt→ltb _ _ lt)

  connector_line-OfConnector :
      (i : ℕ)
      → i < g.n_c
      → i < k.stats.nconnectors
      → (line : ConnectorLine) × (connector_line g i k ≡ ok line k) × OfConnector g k i line
  unfolding connector_line atomic_value
  connector_line-OfConnector i lt lt' =
      let (c, is, p, to) = sound.connectors i lt in
      let (producer, is_p, in_p) = end_of c.p p in
      let (consumer, is_c, in_c) = end_of c.c to in
      (
        record {
          key = c.name;
          producer = producer.name;
          consumer = consumer.name;
          average_latency = connector_latency (k.stats.cstats i);
          events_pushed = (k.stats.cstats i).events.i;
        },
        rw (lt→ltb i g.n_c lt, is, in_p, is_p, in_c, is_c, lt→ltb i k.stats.nconnectors lt') refl,
        record {
          connector = c;
          is = is;
          key = refl;
          producer = (producer, is_p, refl);
          consumer = (consumer, is_c, refl);
          counters = (refl, refl);
        },
      )

  -- Without a number, on a graph in which every id is an index of its array and whose stages and connectors are those that are counted, `stats_push` returns a table with one line for each stage, in their order, that tells its name, its counters, its limit and its pending events, and one with a line for each connector, with its name, those of its two ends, and its counters; it never faults and changes nothing.
  pub stats_push-Table :
      k.stats.nstages ≡ g.n_s
      → k.stats.nconnectors ≡ g.n_c
      → (stages : List StageLine) × (connectors : List ConnectorLine) × (stats_push g nil k
          ≡ ok (stages, connectors) k)
        × Table (OfStage g k) g.n_s stages
        × Table (OfConnector g k) g.n_c connectors
  unfolding stats_push
  stats_push-Table n_s n_c =
      let (stages, are, count, told) =
        lines-From (OfStage g k) (stage_line g) k 0 k.stats.nstages
          (λ j lt. stage_line-OfStage j (omega (arith, n_s, lt)) (omega (arith, lt))) in
      let (connectors, are', count', told') =
        lines-From (OfConnector g k) (connector_line g) k 0 k.stats.nconnectors
          (λ j lt. connector_line-OfConnector j (omega (arith, n_c, lt)) (omega (arith, lt))) in
      (stages, connectors, rw (are, are') refl, (count ∙ n_s, told), (count' ∙ n_c, told'))

  -- With the number of a stage, counted from 1, `stats_push` returns the lines of the stages before it and none for the stage itself, and no connectors.
  pub stats_push-before :
      (i : ℕ)
      → i < g.n_s
      → k.stats.nstages ≡ g.n_s
      → (stages : List StageLine) × (stats_push g (number (pos (suc i))) k ≡ ok (stages, []) k)
        × Table (OfStage g k) i stages
  unfolding stats_push
  stats_push-before i lt n_s =
      let (stages, are, count, told) = lines-From (OfStage g k) (stage_line g) k 0 i (λ j below.
        stage_line-OfStage j (omega (arith, lt, below)) (omega (arith, n_s, lt, below))) in
      (stages, rw (pos_suc-sub-one i, are) refl, (count, told))
