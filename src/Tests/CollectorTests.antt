-- ===== src/Tests/CollectorTests.antt =====
-- Runs of the loops of src/collector.cpp.
use ibmmq_metrics_exporter.Base.{ℕ, suc, ◌+◌, ◌≡◌, refl, true, false, [], ◌∷◌, some, arith}
use ibmmq_metrics_exporter.Config.Records.{Config, default_config}
use ibmmq_metrics_exporter.Collector.{
  broken, CollectorState, Parts, new_collector, poll, run_continuous,
}
use ibmmq_metrics_exporter.Collector.Stops.{HasStopped, run_continuous-HasStopped}
use ibmmq_metrics_exporter.Collector.Start.{ensure_connected, run_collection, start}
use ibmmq_metrics_exporter.Collector.Start.Reconnection.{start-reset}

-- The connection breaks in every cycle, and the cycles are counted.
abbrev breaking : Parts ℕ
breaking = record {
  start_server = λ w. w;
  connect = λ w. (true, w);
  open_stats_queue = λ queue w. (true, w);
  open_accounting_queue = λ queue w. (true, w);
  subscribe_to_topic = λ topic w. w;
  discover_queues = λ pattern w. (pattern ∷ [], w);
  discover_monitor = λ qmgr_name w. (false, w);
  create_subscriptions = λ queues w. (true, w);
  collect_metrics = λ w. (broken, suc w);
  stopped = λ w. (false, w);
  pause = λ seconds w. (false, w);
  now = λ w. (0, w);
}

abbrev two_cycles : Config
two_cycles = record default_config {
  collector = record default_config.collector { continuous = true; max_cycles = 2 };
}

abbrev running_collector : CollectorState
running_collector = record new_collector { running = true; connected_qmgr = true }

-- A limit of two makes three cycles, since the first is not counted.
run_continuous_run :
    run_continuous breaking two_cycles 2 running_collector 0
    ≡ some (record new_collector { running = false; cycle_count = 2; error_count = 3 }, 3)
unfolding run_continuous
run_continuous_run = refl

-- The connection is lost in the first cycle, and nothing resets it.
start_run :
    start breaking two_cycles (λ w. w + 100) 3 3 new_collector 0
    ≡ some (
      record new_collector {
        running = false;
        cycle_count = 2;
        error_count = 3;
        connected_once = true;
      },
      3,
    )
unfolding start poll ensure_connected run_collection run_continuous
start_run = refl

run_continuous-HasStopped_example :
    HasStopped (run_continuous breaking two_cycles 2 running_collector 0)
run_continuous-HasStopped_example =
    run_continuous-HasStopped breaking two_cycles 2 running_collector 0 refl (omega arith)
      (omega arith)

start-reset_example :
    start breaking two_cycles (λ w. w + 100) 3 3 new_collector 0
    ≡ start breaking two_cycles (λ w. w) 3 3 new_collector 0
start-reset_example = start-reset breaking two_cycles (λ w. w + 100) (λ w. w) 3 3 new_collector 0
