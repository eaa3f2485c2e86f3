-- ===== src/Metrics/Mqi/Counters.antt =====
-- The counters of MQI calls, and the labels of who has made them: what the gauges that
-- `update_mqi_gauges` and `process_accounting_message` (src/metrics_collector.cpp) change must show.
use ibmmq_metrics_exporter.Base.{ℕ, List, [], ◌∷◌, ◌++◌, map, Option, none, some, codes}
use ibmmq_metrics_exporter.Memory.{Bytes}
use ibmmq_metrics_exporter.Config.Records.{Config}
use ibmmq_metrics_exporter.Pcf.Records.{MqiStatistics, ConnectionInfo, OperationCounts}
use ibmmq_metrics_exporter.Metrics.Labels.{Labels, add_meta_labels}
use ibmmq_metrics_exporter.Metrics.Registry.{Value, of_int32, of_int64}

-- The counters and what each is exposed as, written down field by field: the name of a gauge is
-- that of the field. The numbers of 32 bits, and those of 64 bits.
abbrev pub int32_counters : MqiStatistics → List (Bytes × ℕ)
int32_counters mqi =
    (codes "opens", mqi.opens)
    ∷ (codes "closes", mqi.closes)
    ∷ (codes "puts", mqi.puts)
    ∷ (codes "gets", mqi.gets)
    ∷ (codes "commits", mqi.commits)
    ∷ (codes "backouts", mqi.backouts)
    ∷ (codes "browses", mqi.browses)
    ∷ (codes "inqs", mqi.inqs)
    ∷ (codes "sets", mqi.sets)
    ∷ (codes "disc_close_timeout", mqi.disc_close_timeout)
    ∷ (codes "disc_reset_timeout", mqi.disc_reset_timeout)
    ∷ (codes "fails", mqi.fails)
    ∷ (codes "incomplete_batch", mqi.incomplete_batch)
    ∷ (codes "incomplete_msg", mqi.incomplete_msg)
    ∷ (codes "wait_interval", mqi.wait_interval)
    ∷ (codes "syncpoint_heuristic", mqi.syncpoint_heuristic)
    ∷ (codes "heaps", mqi.heaps)
    ∷ (codes "logical_connections", mqi.logical_connections)
    ∷ (codes "physical_connections", mqi.physical_connections)
    ∷ (codes "current_conns", mqi.current_conns)
    ∷ (codes "persistent_msgs", mqi.persistent_msgs)
    ∷ (codes "non_persistent_msgs", mqi.non_persistent_msgs)
    ∷ (codes "long_msgs", mqi.long_msgs)
    ∷ (codes "short_msgs", mqi.short_msgs)
    ∷ (codes "stamp_enabled", mqi.stamp_enabled)
    ∷ (codes "msgs_received", mqi.msgs_received)
    ∷ (codes "msgs_sent", mqi.msgs_sent)
    ∷ (codes "channel_status", mqi.channel_status)
    ∷ (codes "channel_type", mqi.channel_type)
    ∷ (codes "channel_errors", mqi.channel_errors)
    ∷ (codes "channel_disc_count", mqi.channel_disc_count)
    ∷ (codes "full_batches", mqi.full_batches)
    ∷ (codes "partial_batches", mqi.partial_batches)
    ∷ []

abbrev pub int64_counters : MqiStatistics → List (Bytes × ℕ)
int64_counters mqi =
    (codes "queue_time", mqi.queue_time)
    ∷ (codes "queue_time_max", mqi.queue_time_max)
    ∷ (codes "elapsed_time", mqi.elapsed_time)
    ∷ (codes "elapsed_time_max", mqi.elapsed_time_max)
    ∷ (codes "conn_time", mqi.conn_time)
    ∷ (codes "conn_time_max", mqi.conn_time_max)
    ∷ (codes "bytes_received", mqi.bytes_received)
    ∷ (codes "bytes_sent", mqi.bytes_sent)
    ∷ (codes "backout_count", mqi.backout_count)
    ∷ (codes "commits_count", mqi.commits_count)
    ∷ (codes "rollback_count", mqi.rollback_count)
    ∷ []

abbrev pub counters : MqiStatistics → List (Bytes × Value)
counters mqi =
    map (λ c. (c.0, of_int32 c.1)) (int32_counters mqi)
    ++ map (λ c. (c.0, of_int64 c.1)) (int64_counters mqi)

abbrev pub operation_counters : OperationCounts → List (Bytes × Value)
operation_counters ops =
    (codes "opens", of_int32 ops.opens)
    ∷ (codes "closes", of_int32 ops.closes)
    ∷ (codes "puts", of_int32 ops.puts)
    ∷ (codes "gets", of_int32 ops.gets)
    ∷ (codes "commits", of_int32 ops.commits)
    ∷ (codes "backouts", of_int32 ops.backouts)
    ∷ []

-- The labels of a caller: the queue manager and five texts, with the metadata over them.
abbrev pub caller_labels : Config → Bytes → Bytes → Bytes → Bytes → Bytes → Bytes → Labels
caller_labels cfg qmgr application tag user connection channel = add_meta_labels cfg.metadata (
    (codes "queue_manager", qmgr)
    ∷ (codes "application_name", application)
    ∷ (codes "application_tag", tag)
    ∷ (codes "user_identifier", user)
    ∷ (codes "connection_name", connection)
    ∷ (codes "channel_name", channel)
    ∷ [])

-- The caller of an accounting message, whose texts are empty where the message says nothing of it.
abbrev pub operation_caller : Config → Bytes → Option ConnectionInfo → Labels
operation_caller cfg qmgr none = caller_labels cfg qmgr [] [] [] [] []
operation_caller cfg qmgr (some info) =
    caller_labels cfg qmgr info.application_name info.application_tag info.user_identifier
      info.connection_name info.channel_name
