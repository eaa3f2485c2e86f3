-- ===== src/Tests/MetricsTests.antt =====
-- Runs for src/metrics_collector.cpp.
use ibmmq_metrics_exporter.Base.{ℕ, suc, ◌≡◌, refl, List, [], ◌∷◌, codes}
use ibmmq_metrics_exporter.Memory.{Bytes}
use ibmmq_metrics_exporter.Client.Exclusion.{queue_matches_exclusion, matches_hlq_pattern}
use ibmmq_metrics_exporter.Config.Records.{CollectorConfig, MetadataConfig, default_config}
use ibmmq_metrics_exporter.Metrics.{get_queues_to_monitor}
use ibmmq_metrics_exporter.Metrics.Labels.{add_meta_labels}
use ibmmq_metrics_exporter.Metrics.Labels.Maps.{
  look_up, overlaid, IsSorted, add_meta_labels-overlaid,
}
use ibmmq_metrics_exporter.Metrics.Selection.{IsSelection, get_queues_to_monitor-IsSelection}

-- Every pattern finds the same three queues, and the calls are counted.
abbrev three_queues : Bytes → ℕ → List Bytes × ℕ
three_queues pattern w = (codes "DEV.A" ∷ codes "SYSTEM.B" ∷ codes "SYSTEM" ∷ [], suc w)

abbrev selecting : CollectorConfig
selecting = record default_config.collector {
  monitored_queues = codes "!DEV.*" ∷ codes "*" ∷ [];
  queue_exclusion_patterns = codes "SYSTEM.*" ∷ [];
}

get_queues_to_monitor_run :
    get_queues_to_monitor three_queues selecting 0 ≡ (codes "DEV.A" ∷ codes "SYSTEM" ∷ [], 1)
unfolding get_queues_to_monitor queue_matches_exclusion matches_hlq_pattern
get_queues_to_monitor_run = refl

abbrev tagged : MetadataConfig
tagged = record default_config.metadata {
  metadata_tags = codes "env" ∷ codes "platform" ∷ [];
  metadata_values = codes "test" ∷ [];
}

add_meta_labels_run :
    add_meta_labels tagged ((codes "platform", codes "unix") ∷ [])
    ≡ (codes "env", codes "test") ∷ (codes "platform", codes "unix") ∷ []
unfolding add_meta_labels
add_meta_labels_run = refl

get_queues_to_monitor-IsSelection_example :
    IsSelection three_queues selecting 0 (get_queues_to_monitor three_queues selecting 0)
get_queues_to_monitor-IsSelection_example =
    get_queues_to_monitor-IsSelection three_queues selecting 0

add_meta_labels-overlaid_example :
    IsSorted (add_meta_labels tagged ((codes "platform", codes "unix") ∷ []))
    × (look_up (add_meta_labels tagged ((codes "platform", codes "unix") ∷ []))
        ≡ overlaid tagged.metadata_tags tagged.metadata_values
            (look_up ((codes "platform", codes "unix") ∷ [])))
add_meta_labels-overlaid_example =
    add_meta_labels-overlaid tagged ((codes "platform", codes "unix") ∷ [])
