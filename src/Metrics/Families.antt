-- ===== src/Metrics/Families.antt =====
-- The families of gauges that `MetricsCollector::init_metrics` registers (src/metrics_collector.cpp).
pub mod Names
use ibmmq_metrics_exporter.Base.{List, [], ◌∷◌, ◌++◌, map, if◌then◌else◌, codes}
use ibmmq_metrics_exporter.Memory.{Bytes}
use ibmmq_metrics_exporter.Pcf.Fold.{is_empty}
use ibmmq_metrics_exporter.Config.Records.{PrometheusConfig}

-- `ns + (sub.empty() ? "" : "_" + sub)`.
unfoldable pub metric_prefix : PrometheusConfig → Bytes
metric_prefix prometheus =
    prometheus.metrics_namespace
    ++ (if is_empty prometheus.subsystem then [] else 95 ∷ prometheus.subsystem)

-- The ends of the names, with the help texts, in the order of the registrations.
-- Of queues.
abbrev pub queue_families : List (Bytes × Bytes)
queue_families =
    (codes "_queue_depth", codes "Current depth of IBM MQ queue")
    ∷ (codes "_queue_depth_high", codes "High water mark of IBM MQ queue depth")
    ∷ (codes "_queue_enqueue_count", codes "Total messages enqueued to IBM MQ queue")
    ∷ (codes "_queue_dequeue_count", codes "Total messages dequeued from IBM MQ queue")
    ∷ (codes "_queue_input_handles", codes "Input handles open on a queue")
    ∷ (codes "_queue_output_handles", codes "Output handles open on a queue")
    ∷ (codes "_queue_has_readers", codes "Whether IBM MQ queue has active readers (1=yes, 0=no)")
    ∷ (codes "_queue_has_writers", codes "Whether IBM MQ queue has active writers (1=yes, 0=no)")
    ∷ (codes "_queue_process", codes "Processes associated with a queue")
    ∷ (codes "_queue_attribute_max_depth", codes "Maximum queue depth attribute")
    ∷ (codes "_queue_oldest_message_age", codes "Age of oldest message on queue in seconds")
    ∷ (codes "_queue_uncommitted_messages", codes "Number of uncommitted messages on queue")
    ∷ (codes "_queue_qtime_short", codes "Queue time indicator (short sample) microseconds")
    ∷ (codes "_queue_qtime_long", codes "Queue time indicator (long sample) microseconds")
    ∷ (codes "_queue_qfile_current_size", codes "Current queue file size in bytes")
    ∷ (codes "_queue_qfile_max_size", codes "Maximum queue file size in bytes")
    ∷ (codes "_queue_app_puts_total", codes "PUTs on a queue by a specific application")
    ∷ (codes "_queue_app_gets_total", codes "GETs on a queue by a specific application")
    ∷ (
      codes "_queue_app_msgs_received_total",
      codes "Messages received on a queue by a specific application",
    )
    ∷ (
      codes "_queue_app_msgs_sent_total",
      codes "Messages sent on a queue by a specific application",
    )
    ∷ (codes "_queue_handle_count", codes "Total open handles on a queue")
    ∷ (codes "_queue_handle_info", codes "Information about open handles on a queue")
    ∷ (codes "_queue_process_detail", codes "Process details accessing a queue")
    ∷ []

-- Of channels.
abbrev pub channel_families : List (Bytes × Bytes)
channel_families =
    (codes "_channel_messages_total", codes "Messages sent through IBM MQ channel")
    ∷ (codes "_channel_bytes_total", codes "Bytes sent through IBM MQ channel")
    ∷ (codes "_channel_batches_total", codes "Batches sent through IBM MQ channel")
    ∷ (codes "_channel_status", codes "Channel status from PCF inquiry")
    ∷ (codes "_channel_msgs", codes "Messages through channel from PCF status")
    ∷ (codes "_channel_bytes_sent", codes "Bytes sent through channel from PCF status")
    ∷ (codes "_channel_bytes_received", codes "Bytes received through channel from PCF status")
    ∷ (codes "_channel_buffers_sent", codes "Buffers sent through channel")
    ∷ (codes "_channel_buffers_received", codes "Buffers received through channel")
    ∷ (codes "_channel_substate", codes "Channel substate")
    ∷ (codes "_channel_instance_type", codes "Channel instance type")
    ∷ (codes "_channel_nettime_short", codes "Network time indicator (short sample) microseconds")
    ∷ (codes "_channel_nettime_long", codes "Network time indicator (long sample) microseconds")
    ∷ (
      codes "_channel_xmitq_time_short",
      codes "Transmission queue time indicator (short sample) microseconds",
    )
    ∷ (
      codes "_channel_xmitq_time_long",
      codes "Transmission queue time indicator (long sample) microseconds",
    )
    ∷ (codes "_channel_batch_size_short", codes "Batch size indicator (short sample)")
    ∷ (codes "_channel_batch_size_long", codes "Batch size indicator (long sample)")
    ∷ (codes "_channel_max_instc", codes "Maximum instances for channel")
    ∷ (codes "_channel_cur_instc", codes "Current sharing conversations for channel")
    ∷ (
      codes "_channel_status_squash",
      codes "Simplified channel status (0=OK, 1=transitioning, 2=stopped, 3=unknown)",
    )
    ∷ []

-- Of topics, subscriptions, queue managers, clusters, buffer pools and page sets.
abbrev pub status_families : List (Bytes × Bytes)
status_families =
    (codes "_topic_publisher_count", codes "Number of publishers on topic")
    ∷ (codes "_topic_subscriber_count", codes "Number of subscribers on topic")
    ∷ (codes "_subscription_durable", codes "Whether subscription is durable")
    ∷ (codes "_subscription_type", codes "Subscription type")
    ∷ (codes "_subscription_messages_received", codes "Messages received by subscription")
    ∷ (codes "_qmgr_status", codes "Queue manager status")
    ∷ (codes "_qmgr_connection_count", codes "Queue manager connection count")
    ∷ (codes "_qmgr_channel_initiator_status", codes "Channel initiator status")
    ∷ (codes "_qmgr_command_server_status", codes "Command server status")
    ∷ (codes "_qmgr_uptime", codes "Queue manager uptime in seconds")
    ∷ (codes "_cluster_qmgr_status", codes "Cluster queue manager status")
    ∷ (codes "_cluster_qmgr_suspend", codes "Whether queue manager is suspended from cluster")
    ∷ (codes "_usage_bp_free_buffers", codes "Free buffers in buffer pool (z/OS)")
    ∷ (codes "_usage_bp_total_buffers", codes "Total buffers in buffer pool (z/OS)")
    ∷ (codes "_usage_ps_total_pages", codes "Total pages in page set (z/OS)")
    ∷ (codes "_usage_ps_unused_pages", codes "Unused pages in page set (z/OS)")
    ∷ []

-- The names and help texts of `mqi_defs`.
abbrev pub mqi_defs : List (Bytes × Bytes)
mqi_defs =
    (codes "opens", codes "MQI OPEN operations")
    ∷ (codes "closes", codes "MQI CLOSE operations")
    ∷ (codes "puts", codes "MQI PUT operations")
    ∷ (codes "gets", codes "MQI GET operations")
    ∷ (codes "commits", codes "MQI COMMIT operations")
    ∷ (codes "backouts", codes "MQI BACKOUT operations")
    ∷ (codes "browses", codes "MQI BROWSE operations")
    ∷ (codes "inqs", codes "MQI INQUIRE operations")
    ∷ (codes "sets", codes "MQI SET operations")
    ∷ (codes "disc_close_timeout", codes "Disconnections due to close timeout")
    ∷ (codes "disc_reset_timeout", codes "Disconnections due to reset timeout")
    ∷ (codes "fails", codes "MQI failures")
    ∷ (codes "incomplete_batch", codes "Incomplete batches")
    ∷ (codes "incomplete_msg", codes "Incomplete messages")
    ∷ (codes "wait_interval", codes "Wait interval")
    ∷ (codes "syncpoint_heuristic", codes "Syncpoint heuristic decisions")
    ∷ (codes "heaps", codes "Heaps allocated")
    ∷ (codes "logical_connections", codes "Logical connections")
    ∷ (codes "physical_connections", codes "Physical connections")
    ∷ (codes "current_conns", codes "Current connections")
    ∷ (codes "persistent_msgs", codes "Persistent messages")
    ∷ (codes "non_persistent_msgs", codes "Non-persistent messages")
    ∷ (codes "long_msgs", codes "Long messages")
    ∷ (codes "short_msgs", codes "Short messages")
    ∷ (codes "stamp_enabled", codes "Timestamp enabled")
    ∷ (codes "msgs_received", codes "Messages received")
    ∷ (codes "msgs_sent", codes "Messages sent")
    ∷ (codes "channel_status", codes "Channel status")
    ∷ (codes "channel_type", codes "Channel type")
    ∷ (codes "channel_errors", codes "Channel errors")
    ∷ (codes "channel_disc_count", codes "Channel disconnections")
    ∷ (codes "full_batches", codes "Full batches")
    ∷ (codes "partial_batches", codes "Partial batches")
    ∷ (codes "queue_time", codes "Queue time ms")
    ∷ (codes "queue_time_max", codes "Max queue time ms")
    ∷ (codes "elapsed_time", codes "Elapsed time ms")
    ∷ (codes "elapsed_time_max", codes "Max elapsed time ms")
    ∷ (codes "conn_time", codes "Connection time ms")
    ∷ (codes "conn_time_max", codes "Max connection time ms")
    ∷ (codes "bytes_received", codes "Bytes received")
    ∷ (codes "bytes_sent", codes "Bytes sent")
    ∷ (codes "backout_count", codes "Backouts")
    ∷ (codes "commits_count", codes "Commits")
    ∷ (codes "rollback_count", codes "Rollbacks")
    ∷ []

-- Of the collection itself.
abbrev pub collection_families : List (Bytes × Bytes)
collection_families =
    (codes "_collection_info", codes "Collection process information")
    ∷ (codes "_last_collection_timestamp", codes "Timestamp of last successful collection")
    ∷ (codes "_publications_received", codes "Number of publications received")
    ∷ []

-- A name behind the prefix.
abbrev pub named_behind : Bytes → List (Bytes × Bytes) → List (Bytes × Bytes)
named_behind prefix = map (λ family. (prefix ++ family.0, family.1))

unfoldable pub init_metrics : PrometheusConfig → List (Bytes × Bytes)
unfolding metric_prefix
init_metrics prometheus =
    let prefix = metric_prefix prometheus in
    named_behind prefix queue_families
    ++ named_behind prefix channel_families
    ++ named_behind prefix status_families
    ++ named_behind prefix (map (λ d. (codes "_mqi_" ++ d.0, d.1)) mqi_defs)
    ++ named_behind prefix collection_families
