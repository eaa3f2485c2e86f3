-- ===== src/Metrics.antt =====
-- src/metrics_collector.cpp: the choice of the queues that a cycle looks at; the other parts of a
-- cycle are in the children.
pub mod Selection
pub mod Labels
pub mod Registry
pub mod Families
pub mod Cycle
pub mod Mqi
pub mod Messages
pub mod Status
pub mod Qmgr
pub mod Collect
use ibmmq_metrics_exporter.Base.{
  ℕ, Bool, true, false, not, ◌&&◌, List, [], ◌∷◌, ◌++◌, ◌==◌, if◌then◌else◌, codes, is_nil, is_same,
}
use ibmmq_metrics_exporter.Memory.{Bytes}
use ibmmq_metrics_exporter.Client.Exclusion.{queue_matches_exclusion}
use ibmmq_metrics_exporter.Config.Records.{CollectorConfig, MetadataConfig}
use ibmmq_metrics_exporter.Collector.{is_negated}

-- The queues that no pattern excludes.
unfoldable pub without_excluded : List Bytes → List Bytes → List Bytes
without_excluded patterns [] = []
without_excluded patterns (q ∷ queues) =
    let rest = without_excluded patterns queues in
    if not (queue_matches_exclusion q patterns) then q ∷ rest else rest

abbrev pub admin_queues : List Bytes
admin_queues = codes "SYSTEM.ADMIN.STATISTICS.QUEUE" ∷ codes "SYSTEM.ADMIN.ACCOUNTING.QUEUE" ∷ []

-- The queue manager behind `MQClient::discover_queues`.
module _ {W : Type 0} (discover_queues : Bytes → W → List Bytes × W) where
  unfoldable pub discover_monitored : List Bytes → List Bytes → W → List Bytes × W
  discover_monitored [] all_queues w = (all_queues, w)
  discover_monitored (pattern ∷ patterns) all_queues w = elim (is_negated pattern) [
    | true ↦ discover_monitored patterns all_queues w
    | false ↦
        let (qs, w') = discover_queues pattern w in
        discover_monitored patterns (all_queues ++ qs) w'
  ]

  -- The fallbacks where the patterns find nothing: all queues, and if there are none, two names.
  unfoldable pub fallback_queues : List Bytes → W → List Bytes × W
  unfolding without_excluded
  fallback_queues excluded w =
      let (all_queues, w') = discover_queues (codes "*") w in
      if not (is_nil all_queues)
      then (without_excluded excluded all_queues, w')
      else (admin_queues, w')

  unfoldable pub get_queues_to_monitor : CollectorConfig → W → List Bytes × W
  unfolding discover_monitored fallback_queues without_excluded
  get_queues_to_monitor collector w =
      if not collector.monitor_all_queues && is_nil collector.monitored_queues
      then ([], w)
      else let (all_queues, w') = discover_monitored collector.monitored_queues [] w in
        if not (is_nil all_queues)
        then (without_excluded collector.queue_exclusion_patterns all_queues, w')
        else fallback_queues collector.queue_exclusion_patterns w'
