-- ===== src/Metrics/Qmgr.antt =====
-- The gauges that `MetricsCollector` sets of the queue manager, of clusters and of the storage on
-- z/OS (src/metrics_collector.cpp).
use ibmmq_metrics_exporter.Base.{
  ℕ, ◌-◌, ◌||◌, [], ◌∷◌, ◌++◌, Option, none, some, ltb, if◌then◌else◌, codes,
}
use ibmmq_metrics_exporter.Memory.{Bytes}
use ibmmq_metrics_exporter.Pcf.Fold.{is_empty}
use ibmmq_metrics_exporter.Config.Records.{Config}
use ibmmq_metrics_exporter.Inquiry.Details.{
  QmgrStatusDetails, ClusterQmgrDetails, UsageBpDetails, UsagePsDetails,
}
use ibmmq_metrics_exporter.Client.State.{Run, pure, when, ◌>>=◌, ◌>>◌}
use ibmmq_metrics_exporter.Metrics.Labels.{Labels}
use ibmmq_metrics_exporter.Metrics.Registry.{Value, of_int32, of_seconds}
use ibmmq_metrics_exporter.Metrics.Cycle.{Sources, Cycle, to_string, from, look, ask_for, for_each}
use ibmmq_metrics_exporter.Metrics.Mqi.{set, with_meta}

module _ {V : Type 0} (src : Sources V) (cfg : Config) where
  abbrev gauge : Bytes → Labels → Value → Run (Cycle V) (Unit {0})
  gauge = set src cfg

  abbrev own : Bytes
  own = cfg.mq.queue_manager

  -- The time since the start, where the start is known and lies behind.
  unfoldable pub set_uptime : Labels → Option ℕ → Run (Cycle V) (Unit {0})
  set_uptime labels none = pure tt
  set_uptime labels (some start_epoch) = do
    now_epoch ← ask_for src.now
    when (ltb start_epoch now_epoch)
        (gauge (codes "_qmgr_uptime") labels (of_seconds (now_epoch - start_epoch)))

  unfoldable pub update_uptime : Labels → QmgrStatusDetails → Run (Cycle V) (Unit {0})
  update_uptime labels status =
      if is_empty status.start_date || is_empty status.start_time then pure tt else do
        start_epoch ← ask_for (src.epoch_of (status.start_date ++ 32 ∷ status.start_time))
        set_uptime labels start_epoch

  abbrev pub qmgr_labels : Bytes → Bytes → Labels
  qmgr_labels plat description =
      with_meta src cfg
        ((codes "qmgr", own) ∷ (codes "platform", plat) ∷ (codes "description", description) ∷ [])

  -- Without a status the queue manager is reported as disconnected.
  unfoldable pub update_qmgr : Bytes → Option QmgrStatusDetails → Run (Cycle V) (Unit {0})
  update_qmgr plat none = gauge (codes "_qmgr_status") (qmgr_labels plat []) (of_int32 0)
  update_qmgr plat (some status) = do
    let labels : Labels = qmgr_labels plat status.description
    gauge (codes "_qmgr_status") labels (of_int32 status.status)
    gauge (codes "_qmgr_connection_count") labels (of_int32 status.connection_count)
    gauge (codes "_qmgr_channel_initiator_status") labels (of_int32 status.chinit_status)
    gauge (codes "_qmgr_command_server_status") labels (of_int32 status.cmd_server_status)
    update_uptime labels status

  unfoldable pub collect_qmgr_status : Run (Cycle V) (Unit {0})
  collect_qmgr_status = do
    status ← from src.qmgr_status
    plat ← look src.platform_string
    update_qmgr plat status

  unfoldable pub update_cluster : Bytes → ClusterQmgrDetails → Run (Cycle V) (Unit {0})
  update_cluster plat cl = do
    let labels : Labels = with_meta src cfg (
        (codes "qmgr", own)
        ∷ (codes "platform", plat)
        ∷ (codes "cluster", cl.cluster_name)
        ∷ (codes "qmtype", to_string cl.qm_type)
        ∷ [])
    gauge (codes "_cluster_qmgr_status") labels (of_int32 cl.status)
    gauge (codes "_cluster_qmgr_suspend") labels (of_int32 cl.suspend)

  unfoldable pub collect_cluster_status : Run (Cycle V) (Unit {0})
  collect_cluster_status = do
    clusters ← from src.cluster_status
    plat ← look src.platform_string
    for_each (update_cluster plat) clusters

  unfoldable pub update_buffer_pool : Bytes → UsageBpDetails → Run (Cycle V) (Unit {0})
  update_buffer_pool plat bp = do
    let labels : Labels = with_meta src cfg (
        (codes "qmgr", own)
        ∷ (codes "platform", plat)
        ∷ (codes "bufferpool", to_string bp.buffer_pool)
        ∷ (codes "location", to_string bp.location)
        ∷ (codes "pageclass", to_string bp.page_class)
        ∷ [])
    gauge (codes "_usage_bp_free_buffers") labels (of_int32 bp.free_buffers)
    gauge (codes "_usage_bp_total_buffers") labels (of_int32 bp.total_buffers)

  unfoldable pub update_page_set : Bytes → UsagePsDetails → Run (Cycle V) (Unit {0})
  update_page_set plat ps = do
    let labels : Labels = with_meta src cfg (
        (codes "qmgr", own)
        ∷ (codes "platform", plat)
        ∷ (codes "pageset", to_string ps.pageset_id)
        ∷ (codes "bufferpool", to_string ps.buffer_pool)
        ∷ [])
    gauge (codes "_usage_ps_total_pages") labels (of_int32 ps.total_pages)
    gauge (codes "_usage_ps_unused_pages") labels (of_int32 ps.unused_pages)

  unfoldable pub collect_usage_status : Run (Cycle V) (Unit {0})
  collect_usage_status = do
    plat ← look src.platform_string
    bps ← from src.usage_bp_status
    for_each (update_buffer_pool plat) bps
    pss ← from src.usage_ps_status
    for_each (update_page_set plat) pss
