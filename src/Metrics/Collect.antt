-- ===== src/Metrics/Collect.antt =====
-- `MetricsCollector::collect_metrics` (src/metrics_collector.cpp): the parts of a cycle in their
-- order.
pub mod Updates
pub mod Isolation
pub mod Stamps
use ibmmq_metrics_exporter.Base.{
  ℕ, Bool, true, false, not, ◌&&◌, List, [], ◌∷◌, ◌++◌, Option, none, some, ◌==◌, if◌then◌else◌,
  is_nil, codes, is_same,
}
use ibmmq_metrics_exporter.Memory.{Bytes}
use ibmmq_metrics_exporter.Pcf.Fold.{is_empty}
use ibmmq_metrics_exporter.Config.Records.{Config}
use ibmmq_metrics_exporter.Monitor.Records.{PublicationMetric}
use ibmmq_metrics_exporter.Client.Headers.{MqMessage}
use ibmmq_metrics_exporter.Client.State.{Run, pure, attempt, when, ◌>>=◌, ◌>>◌}
use ibmmq_metrics_exporter.Metrics.{get_queues_to_monitor}
use ibmmq_metrics_exporter.Metrics.Labels.{Labels}
use ibmmq_metrics_exporter.Metrics.Registry.{Value, of_int32, of_seconds, of_quotient}
use ibmmq_metrics_exporter.Metrics.Families.{metric_prefix}
use ibmmq_metrics_exporter.Metrics.Cycle.{Sources, Cycle, from, look, ask_for, set_gauge, for_each}
use ibmmq_metrics_exporter.Metrics.Mqi.{set, with_meta}
use ibmmq_metrics_exporter.Metrics.Messages.{process_statistics_message, process_accounting_message}
use ibmmq_metrics_exporter.Metrics.Status.{
  collect_and_update_queue_metrics, collect_and_update_handle_metrics, collect_queue_online_status,
  collect_channel_status, collect_topic_status, collect_sub_status,
}
use ibmmq_metrics_exporter.Metrics.Qmgr.{
  collect_qmgr_status, collect_cluster_status, collect_usage_status,
}

-- The family of a key, and the map with it.
unfoldable pub find_family : Bytes → Bytes → List (Bytes × Bytes) → Bytes × List (Bytes × Bytes)
find_family key name [] = (name, (key, name) ∷ [])
find_family key name ((k, family) ∷ families) =
    let (found, rest) = find_family key name families in
    if is_same k key then (family, (k, family) ∷ families) else (found, (k, family) ∷ rest)

abbrev pub messages_or_empty : Option (List MqMessage) → List MqMessage
messages_or_empty none = []
messages_or_empty (some messages) = messages

module _ {V : Type 0} (src : Sources V) (cfg : Config) where
  -- No messages where the client throws.
  unfoldable pub collect_messages : Bytes → Run (Cycle V) (List MqMessage)
  collect_messages queue_type = do
    messages ← attempt (from (src.all_messages queue_type))
    pure (messages_or_empty messages)

  abbrev pub info_labels : Bytes → Labels
  info_labels plat = with_meta src cfg (
      (codes "queue_manager", cfg.mq.queue_manager)
      ∷ (codes "channel", cfg.mq.channel)
      ∷ (codes "platform", plat)
      ∷ (codes "collector_version", src.version)
      ∷ [])

  unfoldable pub set_collection_info : Run (Cycle V) (Unit {0})
  set_collection_info = do
    plat ← look src.platform_string
    set src cfg (codes "_collection_info") (info_labels plat) (of_int32 1)

  unfoldable pub update_metrics_from_messages :
      List MqMessage → List MqMessage → Run (Cycle V) (Unit {0})
  update_metrics_from_messages stats_msgs acct_msgs = do
    for_each (process_statistics_message src cfg) stats_msgs
    for_each (process_accounting_message src cfg) acct_msgs
    set_collection_info

  -- The families of queue managers and of queues are made when their keys first come.
  unfoldable pub qmgr_family : Bytes → Bytes → Run (Cycle V) Bytes
  qmgr_family key name σ =
      let (family, families) = find_family key name σ.pub_qmgr_metrics in
      pure family (record σ { pub_qmgr_metrics = families })

  unfoldable pub queue_family : Bytes → Bytes → Run (Cycle V) Bytes
  queue_family key name σ =
      let (family, families) = find_family key name σ.pub_queue_metrics in
      pure family (record σ { pub_queue_metrics = families })

  abbrev pub key_of : PublicationMetric → Bytes
  key_of pm = pm.class_name ++ 95 ∷ pm.metric_name

  unfoldable pub update_qmgr_publication : Bytes → PublicationMetric → Run (Cycle V) (Unit {0})
  update_qmgr_publication plat pm = do
    let name : Bytes = metric_prefix cfg.prometheus ++ (codes "_qmgr_" ++ pm.metric_name)
    family ← qmgr_family (key_of pm) name
    set_gauge src family
        (with_meta src cfg (
          (codes "qmgr", cfg.mq.queue_manager)
          ∷ (codes "platform", plat)
          ∷ (codes "type", pm.type_name)
          ∷ []))
        (of_quotient pm.raw pm.divisor)

  unfoldable pub update_queue_publication : Bytes → PublicationMetric → Run (Cycle V) (Unit {0})
  update_queue_publication plat pm = do
    let name : Bytes = metric_prefix cfg.prometheus ++ (codes "_queue_pub_" ++ pm.metric_name)
    family ← queue_family (key_of pm) name
    set_gauge src family
        (with_meta src cfg (
          (codes "qmgr", cfg.mq.queue_manager)
          ∷ (codes "platform", plat)
          ∷ (codes "queue", pm.object_name)
          ∷ []))
        (of_quotient pm.raw pm.divisor)

  unfoldable pub update_publication : Bytes → PublicationMetric → Run (Cycle V) (Unit {0})
  update_publication plat pm =
      if is_empty pm.object_name
      then update_qmgr_publication plat pm
      else update_queue_publication plat pm

  unfoldable pub collect_publication_metrics : Run (Cycle V) (Unit {0})
  collect_publication_metrics = do
    pubs ← from src.publications
    plat ← look src.platform_string
    for_each (update_publication plat) pubs

  abbrev pub own_labels : Labels
  own_labels = with_meta src cfg ((codes "queue_manager", cfg.mq.queue_manager) ∷ [])

  unfoldable pub set_baseline_metrics : Run (Cycle V) (Unit {0})
  set_baseline_metrics = do
    epoch ← ask_for src.now
    set src cfg (codes "_last_collection_timestamp") own_labels (of_seconds epoch)
    set_collection_info

  -- `try { part } catch (const std::exception& e) { log }`.
  abbrev pub isolated : Run (Cycle V) (Unit {0}) → Run (Cycle V) (Unit {0})
  isolated part = attempt part >> pure tt

  unfoldable pub collect_extended_status : List Bytes → Run (Cycle V) (Unit {0})
  collect_extended_status cached_queues = do
    isolated (collect_qmgr_status src cfg)
    isolated (collect_channel_status src cfg)
    isolated (collect_topic_status src cfg)
    isolated (collect_sub_status src cfg)
    isolated (collect_cluster_status src cfg)
    isolated (collect_queue_online_status src cfg cached_queues)
    platform ← look src.platform_of
    when (platform == 1) (isolated (collect_usage_status src cfg))

  -- The parts behind the choice of the queues.
  unfoldable pub collect_parts : List Bytes → Run (Cycle V) (Unit {0})
  collect_parts cached_queues = do
    isolated (collect_and_update_queue_metrics src cfg cached_queues)
    isolated (collect_and_update_handle_metrics src cfg cached_queues)
    connected ← look src.is_connected
    when (cfg.collector.use_status && connected) (collect_extended_status cached_queues)
    monitored ← look (λ v. src.has_monitor v && src.is_connected v)
    when monitored (isolated collect_publication_metrics)

  unfoldable pub collect_metrics : Run (Cycle V) (Unit {0})
  collect_metrics = do
    stats_msgs ← collect_messages (codes "stats")
    acct_msgs ← collect_messages (codes "accounting")
    update_metrics_from_messages stats_msgs acct_msgs
    cached_queues ← ask_for (get_queues_to_monitor src.queues_of cfg.collector)
    collect_parts cached_queues
    set_baseline_metrics
