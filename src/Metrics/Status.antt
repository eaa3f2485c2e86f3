-- ===== src/Metrics/Status.antt =====
-- The gauges that `MetricsCollector` sets from the answers to commands
-- (src/metrics_collector.cpp).
use ibmmq_metrics_exporter.Base.{
  ℕ, not, ◌||◌, List, [], ◌∷◌, Option, none, some, ◌==◌, if◌then◌else◌, is_nil, codes,
}
use ibmmq_metrics_exporter.Memory.{Bytes, is_pos}
use ibmmq_metrics_exporter.Pcf.Fold.{is_empty}
use ibmmq_metrics_exporter.Config.Records.{Config}
use ibmmq_metrics_exporter.Inquiry.Details.{
  ChannelStatusDetails, TopicStatusDetails, SubStatusDetails, QueueOnlineStatus,
}
use ibmmq_metrics_exporter.Client.Queues.{is_in}
use ibmmq_metrics_exporter.Client.Inquiries.{QueueInfo}
use ibmmq_metrics_exporter.Client.State.{Run, pure, when, ◌>>=◌, ◌>>◌}
use ibmmq_metrics_exporter.Metrics.Labels.{Labels}
use ibmmq_metrics_exporter.Metrics.Registry.{Value, of_int32, of_int64}
use ibmmq_metrics_exporter.Metrics.Cycle.{Sources, Cycle, to_string, from, look, for_each}
use ibmmq_metrics_exporter.Metrics.Mqi.{set, with_meta}

-- 0 is for inactive and running, 1 for a channel on its way, 2 for one that has stopped.
unfoldable pub squash_status : ℕ → ℕ
squash_status status =
    if status == 0 || status == 3
    then 0
    else if status == 1 || status == 2 || status == 7 || status == 13
    then 1
    else if status == 4 || status == 5 || status == 6 || status == 8
    then 2
    else 3

module _ {V : Type 0} (src : Sources V) (cfg : Config) where
  abbrev gauge : Bytes → Labels → Value → Run (Cycle V) (Unit {0})
  gauge = set src cfg

  abbrev own : Bytes
  own = cfg.mq.queue_manager

  unfoldable pub update_queue : Bytes → Option QueueInfo → Run (Cycle V) (Unit {0})
  update_queue plat none = pure tt
  update_queue plat (some info) = do
    let labels : Labels = with_meta src cfg (
        (codes "queue_manager", own)
        ∷ (codes "queue_name", info.queue_name)
        ∷ (codes "platform", plat)
        ∷ [])
    gauge (codes "_queue_depth") labels (of_int32 info.current_depth)
    gauge (codes "_queue_attribute_max_depth") labels (of_int32 info.max_queue_depth)

  unfoldable pub collect_and_update_queue_metrics : List Bytes → Run (Cycle V) (Unit {0})
  collect_and_update_queue_metrics cached_queues = do
    connected ← look src.is_connected
    if not connected then pure tt else do
      plat ← look src.platform_string
      for_each (λ qname. do info ← from (src.queue_info qname); update_queue plat info)
          cached_queues

  unfoldable pub update_handles : Bytes → Option QueueInfo → Run (Cycle V) (Unit {0})
  update_handles qname none = pure tt
  update_handles qname (some info) = do
    let labels : Labels = with_meta src cfg (
        (codes "queue_manager", own)
        ∷ (codes "queue_name", qname)
        ∷ (codes "userid", [])
        ∷ (codes "pid", [])
        ∷ (codes "channel", [])
        ∷ (codes "appltag", [])
        ∷ (codes "conname", [])
        ∷ [])
    when (is_pos info.open_input_count)
        (gauge (codes "_queue_input_handles") labels (of_int32 info.open_input_count))
    when (is_pos info.open_output_count)
        (gauge (codes "_queue_output_handles") labels (of_int32 info.open_output_count))

  unfoldable pub collect_and_update_handle_metrics : List Bytes → Run (Cycle V) (Unit {0})
  collect_and_update_handle_metrics cached_queues = do
    connected ← look src.is_connected
    if not connected || is_nil cached_queues
        then pure tt
        else for_each (λ qname. do info ← from (src.queue_info qname); update_handles qname info)
            cached_queues

  unfoldable pub update_queue_online :
      List Bytes → Bytes → QueueOnlineStatus → Run (Cycle V) (Unit {0})
  update_queue_online monitored plat qs =
      if not (is_in qs.queue_name monitored) then pure tt else do
        let labels : Labels = with_meta src cfg (
            (codes "queue_manager", own)
            ∷ (codes "queue_name", qs.queue_name)
            ∷ (codes "platform", plat)
            ∷ [])
        gauge (codes "_queue_oldest_message_age") labels (of_int32 qs.oldest_msg_age)
        gauge (codes "_queue_uncommitted_messages") labels (of_int32 qs.uncommitted_msgs)
        gauge (codes "_queue_qtime_short") labels (of_int32 qs.qtime_short)
        gauge (codes "_queue_qtime_long") labels (of_int32 qs.qtime_long)
        gauge (codes "_queue_qfile_current_size") labels (of_int32 qs.cur_q_file_size)
        gauge (codes "_queue_qfile_max_size") labels (of_int32 qs.cur_max_file_size)

  unfoldable pub collect_queue_online_status : List Bytes → Run (Cycle V) (Unit {0})
  collect_queue_online_status cached_queues = do
    connected ← look src.is_connected
    if not connected || is_nil cached_queues then pure tt else do
      plat ← look src.platform_string
      statuses ← from (src.queue_online_status (codes "*"))
      for_each (update_queue_online cached_queues plat) statuses

  unfoldable pub update_channel : Bytes → ChannelStatusDetails → Run (Cycle V) (Unit {0})
  update_channel plat ch = do
    let labels : Labels = with_meta src cfg (
        (codes "qmgr", own)
        ∷ (codes "platform", plat)
        ∷ (codes "channel", ch.channel_name)
        ∷ (codes "type", to_string ch.channel_type)
        ∷ (codes "rqmname", ch.remote_qmgr)
        ∷ (codes "connname", ch.connection_name)
        ∷ (codes "jobname", ch.job_name)
        ∷ (codes "sslciph", ch.ssl_cipher)
        ∷ [])
    gauge (codes "_channel_status") labels (of_int32 ch.status)
    gauge (codes "_channel_msgs") labels (of_int32 ch.msgs)
    gauge (codes "_channel_bytes_sent") labels (of_int64 ch.bytes_sent)
    gauge (codes "_channel_bytes_received") labels (of_int64 ch.bytes_received)
    gauge (codes "_channel_buffers_sent") labels (of_int32 ch.buffers_sent)
    gauge (codes "_channel_buffers_received") labels (of_int32 ch.buffers_received)
    gauge (codes "_channel_substate") labels (of_int32 ch.substate)
    gauge (codes "_channel_instance_type") labels (of_int32 ch.instance_type)
    gauge (codes "_channel_nettime_short") labels (of_int32 ch.nettime_short)
    gauge (codes "_channel_nettime_long") labels (of_int32 ch.nettime_long)
    gauge (codes "_channel_xmitq_time_short") labels (of_int32 ch.xmitq_time_short)
    gauge (codes "_channel_xmitq_time_long") labels (of_int32 ch.xmitq_time_long)
    gauge (codes "_channel_batch_size_short") labels (of_int32 ch.batch_size_short)
    gauge (codes "_channel_batch_size_long") labels (of_int32 ch.batch_size_long)
    gauge (codes "_channel_max_instc") labels (of_int32 ch.max_instances)
    gauge (codes "_channel_cur_instc") labels (of_int32 ch.cur_sharing_convs)
    gauge (codes "_channel_status_squash") labels (of_int32 (squash_status ch.status))

  -- All channels where no pattern is configured.
  unfoldable pub collect_channel_status : Run (Cycle V) (Unit {0})
  collect_channel_status = do
    let configured : List Bytes = cfg.collector.monitored_channels
    plat ← look src.platform_string
    for_each
        (λ pattern_. do
          channels ← from (src.channel_status pattern_)
          for_each (update_channel plat) channels)
        (if is_nil configured then codes "*" ∷ [] else configured)

  unfoldable pub update_topic : Bytes → TopicStatusDetails → Run (Cycle V) (Unit {0})
  update_topic plat t = do
    let labels : Labels = with_meta src cfg (
        (codes "qmgr", own)
        ∷ (codes "platform", plat)
        ∷ (codes "topic", if is_empty t.topic_string then t.topic_name else t.topic_string)
        ∷ (codes "type", to_string t.topic_type)
        ∷ [])
    gauge (codes "_topic_publisher_count") labels (of_int32 t.pub_count)
    gauge (codes "_topic_subscriber_count") labels (of_int32 t.sub_count)

  unfoldable pub collect_topic_status : Run (Cycle V) (Unit {0})
  collect_topic_status = if is_nil cfg.collector.monitored_topics then pure tt else do
    plat ← look src.platform_string
    for_each
        (λ pattern_. do
          topics ← from (src.topic_status pattern_)
          for_each (update_topic plat) topics)
        cfg.collector.monitored_topics

  unfoldable pub update_sub : Bytes → SubStatusDetails → Run (Cycle V) (Unit {0})
  update_sub plat s = do
    let labels : Labels = with_meta src cfg (
        (codes "qmgr", own)
        ∷ (codes "platform", plat)
        ∷ (codes "subscription", s.sub_name)
        ∷ (codes "subid", s.sub_id)
        ∷ (codes "topic", s.topic_string)
        ∷ (codes "type", to_string s.sub_type)
        ∷ [])
    gauge (codes "_subscription_durable") labels (of_int32 s.durable)
    gauge (codes "_subscription_type") labels (of_int32 s.sub_type)
    gauge (codes "_subscription_messages_received") labels (of_int32 s.message_count)

  unfoldable pub collect_sub_status : Run (Cycle V) (Unit {0})
  collect_sub_status = if is_nil cfg.collector.monitored_subscriptions then pure tt else do
    plat ← look src.platform_string
    for_each (λ pattern_. do subs ← from (src.sub_status pattern_); for_each (update_sub plat) subs)
        cfg.collector.monitored_subscriptions
