-- ===== src/Report/Examples.antt =====
-- What is reported of a graph of two stages and a connector.
use leda.Prelude.{◌≡◌, refl, true, List, [], arith}
use leda.Prelude.Int.{pos, negsuc}
use leda.Lua.{nil, boolean, number}
use leda.Kernel.{Kernel, ok}
use leda.Instance.{instance_init}
use leda.Instance.Samples.{idle}
use leda.Stats.{stats_init}
use leda.Atomic.{atomic_new, atomic_value}
use leda.Queue.Fifo
use leda.Startup.{set_up, set_main_graph, leda_thread_init, event_init_t}
use leda.Startup.Samples.{two_stages, two_stages-Sound}
use leda.Report.{
  StageLine, ConnectorLine, stats_push, leda_ready_queue_size, leda_ready_queue_capacity,
  leda_ready_queue_isempty, leda_get_thread_pool_size,
}
use leda.Report.Lines.{OfStage, OfConnector, Table, stats_push-Table, stats_push-before}

abbrev started : Kernel
started = set_up two_stages (negsuc 0) idle

stats_push-Table_example :
    (stages : List StageLine) × (connectors : List ConnectorLine) × (stats_push two_stages nil
        started
      ≡ ok (stages, connectors) started)
    × Table (OfStage two_stages started) 2 stages
    × Table (OfConnector two_stages started) 1 connectors
unfolding set_up event_init_t leda_thread_init set_main_graph instance_init stats_init
stats_push-Table_example = stats_push-Table two_stages started two_stages-Sound refl refl refl

-- For the second stage, only the first is reported.
stats_push-before_example :
    (stages : List StageLine) × (stats_push two_stages (number (pos 2)) started
      ≡ ok (stages, []) started)
    × Table (OfStage two_stages started) 1 stages
unfolding set_up event_init_t leda_thread_init set_main_graph instance_init stats_init
stats_push-before_example =
    stats_push-before two_stages started two_stages-Sound refl 1 (omega arith) refl

-- A new run has an empty, unbounded ready queue and no thread.
begins_empty :
    (leda_ready_queue_size started ≡ number (pos 0))
    × (leda_ready_queue_capacity started ≡ number (negsuc 0))
    × (leda_ready_queue_isempty started ≡ boolean true)
    × (leda_get_thread_pool_size started ≡ number (pos 0))
unfolding set_up event_init_t leda_thread_init set_main_graph instance_init leda_ready_queue_size
    leda_ready_queue_capacity leda_ready_queue_isempty leda_get_thread_pool_size Fifo.size
    Fifo.set_capacity Fifo.new atomic_value atomic_new
begins_empty = (refl, refl, refl, refl)
