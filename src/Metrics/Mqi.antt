-- ===== src/Metrics/Mqi.antt =====
-- The gauges that `MetricsCollector` sets and increments of the counts of MQI calls
-- (src/metrics_collector.cpp).
pub mod Counters
pub mod Gauges
use ibmmq_metrics_exporter.Base.{
  ℕ, Bool, true, false, not, ◌||◌, ◌&&◌, List, [], ◌∷◌, ◌++◌, map, Option, none, some,
  if◌then◌else◌, codes, is_same,
}
use ibmmq_metrics_exporter.Memory.{Bytes}
use ibmmq_metrics_exporter.Pcf.Fold.{is_empty}
use ibmmq_metrics_exporter.Pcf.Records.{
  ProcInfo, QueueStatistics, ChannelStatistics, MqiStatistics, ConnectionInfo,
  empty_connection_info, OperationCounts, QueueAppOperation, StatisticsData, AccountingData,
}
use ibmmq_metrics_exporter.Pcf.Message.{
  ParsedMessage, statistics_data, accounting_data, parse_message,
}
use ibmmq_metrics_exporter.Config.Records.{Config}
use ibmmq_metrics_exporter.Client.Headers.{MqMessage}
use ibmmq_metrics_exporter.Client.Queues.{is_in}
use ibmmq_metrics_exporter.Client.State.{Run, pure, lift, ◌>>=◌, ◌>>◌}
use ibmmq_metrics_exporter.Metrics.Labels.{Labels, add_meta_labels}
use ibmmq_metrics_exporter.Metrics.Registry.{Value, of_int32, of_int64}
use ibmmq_metrics_exporter.Metrics.Families.{metric_prefix, mqi_defs}
use ibmmq_metrics_exporter.Metrics.Cycle.{
  Sources, Cycle, to_string, look, set_gauge, increment_gauge, for_each,
}

-- The calls of `set`, in their order.
abbrev pub mqi_values : MqiStatistics → List (Bytes × Value)
mqi_values mqi =
    (codes "opens", of_int32 mqi.opens)
    ∷ (codes "closes", of_int32 mqi.closes)
    ∷ (codes "puts", of_int32 mqi.puts)
    ∷ (codes "gets", of_int32 mqi.gets)
    ∷ (codes "commits", of_int32 mqi.commits)
    ∷ (codes "backouts", of_int32 mqi.backouts)
    ∷ (codes "browses", of_int32 mqi.browses)
    ∷ (codes "inqs", of_int32 mqi.inqs)
    ∷ (codes "sets", of_int32 mqi.sets)
    ∷ (codes "disc_close_timeout", of_int32 mqi.disc_close_timeout)
    ∷ (codes "disc_reset_timeout", of_int32 mqi.disc_reset_timeout)
    ∷ (codes "fails", of_int32 mqi.fails)
    ∷ (codes "incomplete_batch", of_int32 mqi.incomplete_batch)
    ∷ (codes "incomplete_msg", of_int32 mqi.incomplete_msg)
    ∷ (codes "wait_interval", of_int32 mqi.wait_interval)
    ∷ (codes "syncpoint_heuristic", of_int32 mqi.syncpoint_heuristic)
    ∷ (codes "heaps", of_int32 mqi.heaps)
    ∷ (codes "logical_connections", of_int32 mqi.logical_connections)
    ∷ (codes "physical_connections", of_int32 mqi.physical_connections)
    ∷ (codes "current_conns", of_int32 mqi.current_conns)
    ∷ (codes "persistent_msgs", of_int32 mqi.persistent_msgs)
    ∷ (codes "non_persistent_msgs", of_int32 mqi.non_persistent_msgs)
    ∷ (codes "long_msgs", of_int32 mqi.long_msgs)
    ∷ (codes "short_msgs", of_int32 mqi.short_msgs)
    ∷ (codes "stamp_enabled", of_int32 mqi.stamp_enabled)
    ∷ (codes "msgs_received", of_int32 mqi.msgs_received)
    ∷ (codes "msgs_sent", of_int32 mqi.msgs_sent)
    ∷ (codes "channel_status", of_int32 mqi.channel_status)
    ∷ (codes "channel_type", of_int32 mqi.channel_type)
    ∷ (codes "channel_errors", of_int32 mqi.channel_errors)
    ∷ (codes "channel_disc_count", of_int32 mqi.channel_disc_count)
    ∷ (codes "full_batches", of_int32 mqi.full_batches)
    ∷ (codes "partial_batches", of_int32 mqi.partial_batches)
    ∷ (codes "queue_time", of_int64 mqi.queue_time)
    ∷ (codes "queue_time_max", of_int64 mqi.queue_time_max)
    ∷ (codes "elapsed_time", of_int64 mqi.elapsed_time)
    ∷ (codes "elapsed_time_max", of_int64 mqi.elapsed_time_max)
    ∷ (codes "conn_time", of_int64 mqi.conn_time)
    ∷ (codes "conn_time_max", of_int64 mqi.conn_time_max)
    ∷ (codes "bytes_received", of_int64 mqi.bytes_received)
    ∷ (codes "bytes_sent", of_int64 mqi.bytes_sent)
    ∷ (codes "backout_count", of_int64 mqi.backout_count)
    ∷ (codes "commits_count", of_int64 mqi.commits_count)
    ∷ (codes "rollback_count", of_int64 mqi.rollback_count)
    ∷ []

abbrev pub connection_or_empty : Option ConnectionInfo → ConnectionInfo
connection_or_empty none = empty_connection_info
connection_or_empty (some info) = info

-- The calls of `add`, in their order.
abbrev pub operation_values : OperationCounts → List (Bytes × Value)
operation_values ops =
    (codes "opens", of_int32 ops.opens)
    ∷ (codes "closes", of_int32 ops.closes)
    ∷ (codes "puts", of_int32 ops.puts)
    ∷ (codes "gets", of_int32 ops.gets)
    ∷ (codes "commits", of_int32 ops.commits)
    ∷ (codes "backouts", of_int32 ops.backouts)
    ∷ []

module _ {V : Type 0} (src : Sources V) (cfg : Config) where
  -- A gauge of the family whose name ends so.
  abbrev pub set : Bytes → Labels → Value → Run (Cycle V) (Unit {0})
  set name = set_gauge src (metric_prefix cfg.prometheus ++ name)

  abbrev pub with_meta : Labels → Labels
  with_meta = add_meta_labels cfg.metadata

  -- A name without a family in `mqi_metrics_` is passed over.
  unfoldable pub set_mqi : Labels → Bytes × Value → Run (Cycle V) (Unit {0})
  set_mqi labels entry =
      if is_in entry.0 (map (λ d. d.0) mqi_defs)
      then set (codes "_mqi_" ++ entry.0) labels entry.1
      else pure tt

  unfoldable pub add_mqi : Labels → Bytes × Value → Run (Cycle V) (Unit {0})
  add_mqi labels entry =
      if is_in entry.0 (map (λ d. d.0) mqi_defs)
      then increment_gauge src (metric_prefix cfg.prometheus ++ (codes "_mqi_" ++ entry.0)) labels
          entry.1
      else pure tt

  abbrev pub mqi_labels : MqiStatistics → Bytes → Labels
  mqi_labels mqi qmgr = with_meta (
      (codes "queue_manager", qmgr)
      ∷ (codes "application_name", mqi.application_name)
      ∷ (codes "application_tag", mqi.application_tag)
      ∷ (codes "user_identifier", mqi.user_identifier)
      ∷ (codes "connection_name", mqi.connection_name)
      ∷ (codes "channel_name", mqi.channel_name)
      ∷ [])

  unfoldable pub update_mqi_gauges : MqiStatistics → Bytes → Run (Cycle V) (Unit {0})
  update_mqi_gauges mqi qmgr = for_each (set_mqi (mqi_labels mqi qmgr)) (mqi_values mqi)

  abbrev pub operation_labels : Bytes → ConnectionInfo → Labels
  operation_labels qmgr conn = with_meta (
      (codes "queue_manager", qmgr)
      ∷ (codes "application_name", conn.application_name)
      ∷ (codes "application_tag", conn.application_tag)
      ∷ (codes "user_identifier", conn.user_identifier)
      ∷ (codes "connection_name", conn.connection_name)
      ∷ (codes "channel_name", conn.channel_name)
      ∷ [])

  unfoldable pub add_operations :
      Bytes → Option ConnectionInfo → Option OperationCounts → Run (Cycle V) (Unit {0})
  add_operations qmgr info none = pure tt
  add_operations qmgr info (some ops) =
      for_each (add_mqi (operation_labels qmgr (connection_or_empty info))) (operation_values ops)
