-- ===== src/Metrics/Messages.antt =====
-- What `MetricsCollector` makes of statistics and accounting messages
-- (src/metrics_collector.cpp).
use ibmmq_metrics_exporter.Base.{Bool, [], ◌∷◌, Option, none, some, if◌then◌else◌, codes, is_same}
use ibmmq_metrics_exporter.Memory.{Bytes}
use ibmmq_metrics_exporter.Pcf.Fold.{is_empty}
use ibmmq_metrics_exporter.Pcf.Records.{
  ProcInfo, QueueStatistics, ChannelStatistics, MqiStatistics, QueueAppOperation,
}
use ibmmq_metrics_exporter.Pcf.Message.{
  ParsedMessage, statistics_data, accounting_data, parse_message,
}
use ibmmq_metrics_exporter.Config.Records.{Config}
use ibmmq_metrics_exporter.Client.Headers.{MqMessage}
use ibmmq_metrics_exporter.Client.State.{Run, pure, lift, ◌>>=◌, ◌>>◌}
use ibmmq_metrics_exporter.Metrics.Labels.{Labels}
use ibmmq_metrics_exporter.Metrics.Mqi.{set, with_meta, update_mqi_gauges, add_operations}
use ibmmq_metrics_exporter.Metrics.Registry.{Value, of_int32, of_int64}
use ibmmq_metrics_exporter.Metrics.Cycle.{Sources, Cycle, to_string, look, for_each}

abbrev pub flag : Bool → Value
flag b = of_int32 (if b then 1 else 0)

abbrev pub open_mode_of : Bytes → Bytes
open_mode_of role =
    if is_same role (codes "input")
    then codes "Input"
    else if is_same role (codes "output")
    then codes "Output"
    else codes "Unknown"

module _ {V : Type 0} (src : Sources V) (cfg : Config) where
  -- The four gauges of a process that has the queue open.
  unfoldable pub update_process : Bytes → Bytes → ProcInfo → Run (Cycle V) (Unit {0})
  update_process qmgr queue_name proc = do
    set src cfg (codes "_queue_process")
        (with_meta src cfg (
          (codes "queue_manager", qmgr)
          ∷ (codes "queue_name", queue_name)
          ∷ (codes "application_name", proc.application_name)
          ∷ (codes "source_ip", proc.connection_name)
          ∷ (codes "role", proc.role)
          ∷ []))
        (of_int32 1)
    set src cfg (codes "_queue_handle_info")
        (with_meta src cfg (
          (codes "queue_manager", qmgr)
          ∷ (codes "queue_name", queue_name)
          ∷ (codes "application_name", proc.application_name)
          ∷ (codes "user_identifier", proc.user_identifier)
          ∷ (codes "open_mode", open_mode_of proc.role)
          ∷ (codes "handle_state", codes "Open")
          ∷ []))
        (of_int32 1)
    set src cfg (codes "_queue_process_detail")
        (with_meta src cfg (
          (codes "queue_manager", qmgr)
          ∷ (codes "queue_name", queue_name)
          ∷ (codes "application_name", proc.application_name)
          ∷ (codes "process_id", to_string proc.process_id)
          ∷ (codes "user_identifier", proc.user_identifier)
          ∷ (codes "role", proc.role)
          ∷ []))
        (of_int32 1)
    set src cfg
        (if is_same proc.role (codes "input")
          then codes "_queue_input_handles"
          else codes "_queue_output_handles")
        (with_meta src cfg (
          (codes "queue_manager", qmgr)
          ∷ (codes "queue_name", queue_name)
          ∷ (codes "userid", proc.user_identifier)
          ∷ (codes "pid", to_string proc.process_id)
          ∷ (codes "channel", proc.channel_name)
          ∷ (codes "appltag", proc.application_tag)
          ∷ (codes "conname", proc.connection_name)
          ∷ []))
        (of_int32 1)

  unfoldable pub update_queue_statistics :
      Bytes → Bytes → Option QueueStatistics → Run (Cycle V) (Unit {0})
  update_queue_statistics qmgr plat none = pure tt
  update_queue_statistics qmgr plat (some qs) = do
    let ql : Labels = with_meta src cfg (
        (codes "queue_manager", qmgr)
        ∷ (codes "queue_name", qs.queue_name)
        ∷ (codes "platform", plat)
        ∷ [])
    set src cfg (codes "_queue_depth") ql (of_int32 qs.current_depth)
    set src cfg (codes "_queue_depth_high") ql (of_int32 qs.high_depth)
    set src cfg (codes "_queue_enqueue_count") ql (of_int32 qs.enqueue_count)
    set src cfg (codes "_queue_dequeue_count") ql (of_int32 qs.dequeue_count)
    set src cfg (codes "_queue_has_readers") ql (flag qs.has_readers)
    set src cfg (codes "_queue_has_writers") ql (flag qs.has_writers)
    for_each (update_process qmgr qs.queue_name) qs.associated_procs

  unfoldable pub update_channel_statistics :
      Bytes → Option ChannelStatistics → Run (Cycle V) (Unit {0})
  update_channel_statistics qmgr none = pure tt
  update_channel_statistics qmgr (some cs) = do
    let cl : Labels = with_meta src cfg (
        (codes "queue_manager", qmgr)
        ∷ (codes "channel_name", cs.channel_name)
        ∷ (codes "connection_name", cs.connection_name)
        ∷ [])
    set src cfg (codes "_channel_messages_total") cl (of_int32 cs.messages)
    set src cfg (codes "_channel_bytes_total") cl (of_int64 cs.bytes)
    set src cfg (codes "_channel_batches_total") cl (of_int32 cs.batches)

  unfoldable pub update_mqi_statistics : Bytes → Option MqiStatistics → Run (Cycle V) (Unit {0})
  update_mqi_statistics qmgr none = pure tt
  update_mqi_statistics qmgr (some mqi) = update_mqi_gauges src cfg mqi qmgr

  -- The configured name stands in for one that the message does not have.
  abbrev pub qmgr_or_own : Bytes → Bytes
  qmgr_or_own qmgr = if is_empty qmgr then cfg.mq.queue_manager else qmgr

  unfoldable pub use_statistics_data : Option ParsedMessage → Run (Cycle V) (Unit {0})
  use_statistics_data (some (statistics_data stats)) = do
    plat ← look src.platform_string
    let qmgr = qmgr_or_own stats.queue_manager
    update_queue_statistics qmgr plat stats.queue_stats
    update_channel_statistics qmgr stats.channel_stats
    update_mqi_statistics qmgr stats.mqi_stats
  use_statistics_data result = pure tt

  unfoldable pub process_statistics_message : MqMessage → Run (Cycle V) (Unit {0})
  process_statistics_message msg = do
    result ← lift (parse_message msg.msg_data (codes "statistics"))
    use_statistics_data result

  unfoldable pub set_queue_operation : Bytes → QueueAppOperation → Run (Cycle V) (Unit {0})
  set_queue_operation qmgr qa = do
    let ql : Labels = with_meta src cfg (
        (codes "queue_manager", qmgr)
        ∷ (codes "queue_name", qa.queue_name)
        ∷ (codes "application_name", qa.application_name)
        ∷ (codes "source_ip", qa.connection_name)
        ∷ (codes "user_identifier", qa.user_identifier)
        ∷ [])
    set src cfg (codes "_queue_app_puts_total") ql (of_int32 qa.puts)
    set src cfg (codes "_queue_app_gets_total") ql (of_int32 qa.gets)
    set src cfg (codes "_queue_app_msgs_received_total") ql (of_int32 qa.msgs_received)
    set src cfg (codes "_queue_app_msgs_sent_total") ql (of_int32 qa.msgs_sent)

  unfoldable pub use_accounting_data : Option ParsedMessage → Run (Cycle V) (Unit {0})
  use_accounting_data (some (accounting_data acct)) = do
    let qmgr = qmgr_or_own acct.queue_manager
    add_operations src cfg qmgr acct.connection_info acct.operations
    for_each (set_queue_operation qmgr) acct.queue_operations
  use_accounting_data result = pure tt

  unfoldable pub process_accounting_message : MqMessage → Run (Cycle V) (Unit {0})
  process_accounting_message msg = do
    result ← lift (parse_message msg.msg_data (codes "accounting"))
    use_accounting_data result
