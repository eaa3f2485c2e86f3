-- ===== src/Tests/CollectTests.antt =====
-- Runs for a cycle of src/metrics_collector.cpp.
use ibmmq_metrics_exporter.Base.{
  ℕ, suc, ◌≡◌, refl, true, ◌&&◌, List, [], ◌∷◌, All, Option, none, some, codes, map, is_same,
  if◌then◌else◌, arith,
}
use ibmmq_metrics_exporter.Memory.{Bytes}
use ibmmq_metrics_exporter.Config.Records.{Config, default_config}
use ibmmq_metrics_exporter.Client.Exclusion.Levels.{is_same_refl}
use ibmmq_metrics_exporter.Client.State.{thrown, connection_broken, Run}
use ibmmq_metrics_exporter.Client.Finishes.{Delivers}
use ibmmq_metrics_exporter.Metrics.Labels.{Labels, is_same_labels}
use ibmmq_metrics_exporter.Metrics.Registry.{
  Value, plus, changed, value_or_zero, Registry, RegistryLaws,
}
use ibmmq_metrics_exporter.Pcf.Records.{
  MqiStatistics, empty_mqi_statistics, OperationCounts, empty_operation_counts,
}
use ibmmq_metrics_exporter.Metrics.Mqi.{update_mqi_gauges, add_operations}
use ibmmq_metrics_exporter.Metrics.Mqi.Counters.{
  counters, operation_counters, caller_labels, operation_caller,
}
use ibmmq_metrics_exporter.Metrics.Mqi.Gauges.{
  gauge_of, update_mqi_gauges-exposes, add_operations-adds,
}
use ibmmq_metrics_exporter.Metrics.Families.{init_metrics}
use ibmmq_metrics_exporter.Metrics.Families.Names.{AllDistinct, init_metrics-AllDistinct}
use ibmmq_metrics_exporter.Metrics.Cycle.{Sources, Cycle}
use ibmmq_metrics_exporter.Metrics.Collect.{collect_metrics}
use ibmmq_metrics_exporter.Metrics.Collect.Isolation.{IsSafe}
use ibmmq_metrics_exporter.Metrics.Collect.Stamps.{IsStamped, collect_metrics-Delivers}

-- The clock, and the gauges that were changed, the last one first.
pub record Watch : Type 0 where
  pub clock : ℕ
  pub samples : List ((Bytes × Labels) × Value)

abbrev look_up : Bytes → Labels → List ((Bytes × Labels) × Value) → Option Value
look_up family labels [] = none
look_up family labels (((f, l), v) ∷ samples) =
    let rest = look_up family labels samples in
    if is_same f family && is_same_labels l labels then some v else rest

abbrev watch_registry : Registry Watch
watch_registry = record {
  change = λ family labels c w. record w {
    samples =
        ((family, labels), changed c (value_or_zero (look_up family labels w.samples))) ∷ w.samples;
  };
  exposed = λ family labels w. look_up family labels w.samples;
}

is_same_labels_refl : (labels : Labels) → is_same_labels labels labels ≡ true
is_same_labels_refl [] = refl
is_same_labels_refl ((k, v) ∷ labels) =
    ground (arith, is_same_refl k, is_same_refl v, is_same_labels_refl labels)

watch_registry-Laws : RegistryLaws watch_registry
watch_registry-Laws = record {
  at = λ family labels c v. ground (arith, is_same_refl family, is_same_labels_refl labels);
  elsewhere = λ family labels c v family' labels' e. ground (arith, e);
}

-- A client whose every call throws.
abbrev broken_call : {A : Type 0} → Run Watch A
broken_call w = (thrown connection_broken, w)

abbrev broken_sources : Sources Watch
broken_sources = record {
  is_connected = λ w. true;
  platform_of = λ w. 1;
  platform_string = λ w. codes "zos";
  all_messages = λ queue_type. broken_call;
  queues_of = λ pattern_ w. (codes "APP.Q" ∷ [], w);
  queue_info = λ qname. broken_call;
  queue_online_status = λ pattern_. broken_call;
  channel_status = λ pattern_. broken_call;
  topic_status = λ pattern_. broken_call;
  sub_status = λ pattern_. broken_call;
  qmgr_status = broken_call;
  cluster_status = broken_call;
  usage_bp_status = broken_call;
  usage_ps_status = broken_call;
  has_monitor = λ w. true;
  publications = broken_call;
  epoch_of = λ text w. (none, w);
  now = λ w. (w.clock, record w { clock = suc w.clock });
  version = codes "1.0";
  registry = watch_registry;
}

broken_sources-IsSafe : IsSafe broken_sources
broken_sources-IsSafe = record {
  messages = λ q v. tt;
  parsed = λ q v. tt;
  info = λ q v. tt;
  online = λ q v. tt;
  channels = λ q v. tt;
  topics = λ q v. tt;
  subs = λ q v. tt;
  qmgr = λ v. tt;
  clusters = λ v. tt;
  buffer_pools = λ v. tt;
  page_sets = λ v. tt;
  publications = λ v. tt;
}

abbrev watching : Config
watching = record default_config {
  collector = record default_config.collector { monitor_all_queues = true };
}

abbrev first_cycle : Cycle Watch
first_cycle = record {
  source = record { clock = 7; samples = [] };
  pub_qmgr_metrics = [];
  pub_queue_metrics = [];
}

collect_metrics-Delivers_example :
    Delivers
      (λ u. IsStamped broken_sources watching)
      (collect_metrics broken_sources watching first_cycle)
collect_metrics-Delivers_example =
    collect_metrics-Delivers broken_sources watching watch_registry-Laws broken_sources-IsSafe
      first_cycle

abbrev some_mqi : MqiStatistics
some_mqi = record empty_mqi_statistics { opens = 3; rollback_count = 5 }

abbrev some_operations : OperationCounts
some_operations = record empty_operation_counts { gets = 4 }

update_mqi_gauges-exposes_example :
    Delivers
      (λ u σ'.
        All
          (λ e.
            gauge_of broken_sources watching
              (caller_labels watching (codes "QM1") [] [] [] [] [])
              e
              σ'
            ≡ some e.1)
          (counters some_mqi))
      (update_mqi_gauges broken_sources watching some_mqi (codes "QM1") first_cycle)
update_mqi_gauges-exposes_example =
    update_mqi_gauges-exposes broken_sources watching watch_registry-Laws some_mqi (codes "QM1")
      first_cycle

add_operations-adds_example :
    (let of_cycle =
        gauge_of broken_sources watching (operation_caller watching (codes "QM1") none) in
      Delivers
        (λ u σ'.
          All
            (λ e. of_cycle e σ' ≡ some (plus (value_or_zero (of_cycle e first_cycle)) e.1))
            (operation_counters some_operations))
        (add_operations broken_sources watching
          (codes "QM1")
          none
          (some some_operations)
          first_cycle))
add_operations-adds_example =
    add_operations-adds broken_sources watching watch_registry-Laws (codes "QM1") none
      some_operations first_cycle

init_metrics-AllDistinct_example :
    AllDistinct (map (λ d. d.0) (init_metrics default_config.prometheus))
init_metrics-AllDistinct_example = init_metrics-AllDistinct default_config.prometheus
