-- ===== src/Metrics/Collect/Updates.antt =====
-- The parts of src/metrics_collector.cpp that only write gauges return.
use ibmmq_metrics_exporter.Base.{
  ℕ, ◌≡◌, sym, codes, map, ◌++◌, List, [], ◌∷◌, Option, none, some, arith,
}
use ibmmq_metrics_exporter.Memory.{Bytes, ok}
use mathlib.Core.Path.{subst}
use ibmmq_metrics_exporter.Config.Records.{Config}
use ibmmq_metrics_exporter.Pcf.Records.{
  QueueStatistics, ChannelStatistics, MqiStatistics, ConnectionInfo, OperationCounts,
}
use ibmmq_metrics_exporter.Pcf.Message.{
  ParsedMessage, statistics_data, accounting_data, parse_message,
}
use ibmmq_metrics_exporter.Inquiry.Details.{
  ChannelStatusDetails, TopicStatusDetails, SubStatusDetails, QmgrStatusDetails, ClusterQmgrDetails,
  UsageBpDetails, UsagePsDetails, QueueOnlineStatus,
}
use ibmmq_metrics_exporter.Monitor.Records.{PublicationMetric}
use ibmmq_metrics_exporter.Client.Headers.{MqMessage}
use ibmmq_metrics_exporter.Client.Inquiries.{QueueInfo}
use ibmmq_metrics_exporter.Client.State.{Run, pure, lift, ◌>>=◌, ◌>>◌}
use ibmmq_metrics_exporter.Client.Finishes.{Finishes, Finishes-bind, Finishes-if}
use ibmmq_metrics_exporter.Metrics.Labels.{Labels}
use ibmmq_metrics_exporter.Metrics.Registry.{Value}
use ibmmq_metrics_exporter.Metrics.Cycle.{Sources, Cycle, increment_gauge, for_each}
use ibmmq_metrics_exporter.Metrics.Families.{metric_prefix, mqi_defs}
use ibmmq_metrics_exporter.Client.Queues.{is_in}
use ibmmq_metrics_exporter.Metrics.Mqi.{set, set_mqi, add_mqi, update_mqi_gauges, add_operations}
use ibmmq_metrics_exporter.Metrics.Messages.{
  update_process, update_queue_statistics, update_channel_statistics, update_mqi_statistics,
  use_statistics_data, process_statistics_message, set_queue_operation, use_accounting_data,
  process_accounting_message, qmgr_or_own,
}
use ibmmq_metrics_exporter.Metrics.Status.{
  update_queue, update_handles, update_queue_online, update_channel, update_topic, update_sub,
}
use ibmmq_metrics_exporter.Metrics.Qmgr.{
  set_uptime, update_uptime, update_qmgr, update_cluster, update_buffer_pool, update_page_set,
}
use ibmmq_metrics_exporter.Metrics.Collect.{
  update_publication, update_qmgr_publication, update_queue_publication, qmgr_family, queue_family,
}

-- A message that the parser takes, as statistics or as accounting.
abbrev pub IsParsed : MqMessage → Type 0
IsParsed msg = (t : Bytes) → (r : Option ParsedMessage) × (parse_message msg.msg_data t ≡ ok r)

pub for_each-Finishes :
    {S A : Type 0} (f : A → Run S (Unit {0}))
    → ((a : A) (σ : S) → Finishes (f a σ))
    → (xs : List A) (σ : S) → Finishes (for_each f xs σ)
unfolding for_each
for_each-Finishes f h [] σ = tt
for_each-Finishes f h (x ∷ xs) σ =
    Finishes-bind (f x) (λ u. for_each f xs) σ (h x σ) (λ u. for_each-Finishes f h xs)

module _ {V : Type 0} (src : Sources V) (cfg : Config) where
  set_mqi-Finishes :
      (l : Labels) (e : Bytes × Value) (σ : Cycle V) → Finishes (set_mqi src cfg l e σ)
  unfolding set_mqi
  set_mqi-Finishes l e σ =
      Finishes-if (is_in e.0 (map (λ d. d.0) mqi_defs)) (set src cfg (codes "_mqi_" ++ e.0) l e.1)
        (pure tt) σ tt tt

  add_mqi-Finishes :
      (l : Labels) (e : Bytes × Value) (σ : Cycle V) → Finishes (add_mqi src cfg l e σ)
  unfolding add_mqi
  add_mqi-Finishes l e σ =
      Finishes-if (is_in e.0 (map (λ d. d.0) mqi_defs))
        (increment_gauge src (metric_prefix cfg.prometheus ++ (codes "_mqi_" ++ e.0)) l e.1)
        (pure tt) σ tt tt

  update_queue_statistics-Finishes :
      (qmgr plat : Bytes) (qs : Option QueueStatistics) (σ : Cycle V)
      → Finishes (update_queue_statistics src cfg qmgr plat qs σ)
  unfolding update_queue_statistics update_process
  update_queue_statistics-Finishes qmgr plat none σ = tt
  update_queue_statistics-Finishes qmgr plat (some qs) σ =
      for_each-Finishes (update_process src cfg qmgr qs.queue_name) (λ proc σ. tt)
        qs.associated_procs _

  update_channel_statistics-Finishes :
      (qmgr : Bytes) (cs : Option ChannelStatistics) (σ : Cycle V)
      → Finishes (update_channel_statistics src cfg qmgr cs σ)
  unfolding update_channel_statistics
  update_channel_statistics-Finishes qmgr none σ = tt
  update_channel_statistics-Finishes qmgr (some cs) σ = tt

  update_mqi_statistics-Finishes :
      (qmgr : Bytes) (mqi : Option MqiStatistics) (σ : Cycle V)
      → Finishes (update_mqi_statistics src cfg qmgr mqi σ)
  unfolding update_mqi_statistics update_mqi_gauges
  update_mqi_statistics-Finishes qmgr none σ = tt
  update_mqi_statistics-Finishes qmgr (some mqi) σ =
      for_each-Finishes (set_mqi src cfg _) (set_mqi-Finishes _) _ σ

  use_statistics_data-Finishes :
      (r : Option ParsedMessage) (σ : Cycle V) → Finishes (use_statistics_data src cfg r σ)
  unfolding use_statistics_data
  use_statistics_data-Finishes none σ = tt
  use_statistics_data-Finishes (some (accounting_data acct)) σ = tt
  use_statistics_data-Finishes (some (statistics_data stats)) σ =
      let qmgr = qmgr_or_own src cfg stats.queue_manager in
      let plat = src.platform_string σ.source in
      Finishes-bind (update_queue_statistics src cfg qmgr plat stats.queue_stats)
        (λ u.
          (update_channel_statistics src cfg qmgr stats.channel_stats
            >> update_mqi_statistics src cfg qmgr stats.mqi_stats))
        σ (update_queue_statistics-Finishes qmgr plat stats.queue_stats σ)
        (λ u σ'.
          Finishes-bind (update_channel_statistics src cfg qmgr stats.channel_stats)
            (λ u. update_mqi_statistics src cfg qmgr stats.mqi_stats) σ'
            (update_channel_statistics-Finishes qmgr stats.channel_stats σ')
            (λ u. update_mqi_statistics-Finishes qmgr stats.mqi_stats))

  pub process_statistics_message-Finishes :
      (msg : MqMessage) (σ : Cycle V)
      → IsParsed msg
      → Finishes (process_statistics_message src cfg msg σ)
  unfolding process_statistics_message
  process_statistics_message-Finishes msg σ h =
      let parsed = h (codes "statistics") in
      subst (λ m. Finishes ((lift m >>= use_statistics_data src cfg) σ)) (sym parsed.1)
        (use_statistics_data-Finishes parsed.0 σ)

  add_operations-Finishes :
      (qmgr : Bytes) (info : Option ConnectionInfo) (ops : Option OperationCounts) (σ : Cycle V)
      → Finishes (add_operations src cfg qmgr info ops σ)
  unfolding add_operations
  add_operations-Finishes qmgr info none σ = tt
  add_operations-Finishes qmgr info (some ops) σ =
      for_each-Finishes (add_mqi src cfg _) (add_mqi-Finishes _) _ σ

  use_accounting_data-Finishes :
      (r : Option ParsedMessage) (σ : Cycle V) → Finishes (use_accounting_data src cfg r σ)
  unfolding use_accounting_data set_queue_operation
  use_accounting_data-Finishes none σ = tt
  use_accounting_data-Finishes (some (statistics_data stats)) σ = tt
  use_accounting_data-Finishes (some (accounting_data acct)) σ =
      let qmgr = qmgr_or_own src cfg acct.queue_manager in
      Finishes-bind (add_operations src cfg qmgr acct.connection_info acct.operations)
        (λ u. for_each (set_queue_operation src cfg qmgr) acct.queue_operations) σ
        (add_operations-Finishes qmgr acct.connection_info acct.operations σ)
        (λ u.
          for_each-Finishes (set_queue_operation src cfg qmgr) (λ qa σ. tt) acct.queue_operations)

  pub process_accounting_message-Finishes :
      (msg : MqMessage) (σ : Cycle V)
      → IsParsed msg
      → Finishes (process_accounting_message src cfg msg σ)
  unfolding process_accounting_message
  process_accounting_message-Finishes msg σ h =
      let parsed = h (codes "accounting") in
      subst (λ m. Finishes ((lift m >>= use_accounting_data src cfg) σ)) (sym parsed.1)
        (use_accounting_data-Finishes parsed.0 σ)

  pub update_queue-Finishes :
      (plat : Bytes) (info : Option QueueInfo) (σ : Cycle V)
      → Finishes (update_queue src cfg plat info σ)
  unfolding update_queue
  update_queue-Finishes plat none σ = tt
  update_queue-Finishes plat (some info) σ = tt

  pub update_handles-Finishes :
      (qname : Bytes) (info : Option QueueInfo) (σ : Cycle V)
      → Finishes (update_handles src cfg qname info σ)
  unfolding update_handles
  update_handles-Finishes qname none σ = tt
  update_handles-Finishes qname (some info) σ = ground arith

  pub update_queue_online-Finishes :
      (monitored : List Bytes) (plat : Bytes) (qs : QueueOnlineStatus) (σ : Cycle V)
      → Finishes (update_queue_online src cfg monitored plat qs σ)
  unfolding update_queue_online
  update_queue_online-Finishes monitored plat qs σ = ground arith

  pub update_channel-Finishes :
      (plat : Bytes) (ch : ChannelStatusDetails) (σ : Cycle V)
      → Finishes (update_channel src cfg plat ch σ)
  unfolding update_channel
  update_channel-Finishes plat ch σ = tt

  pub update_topic-Finishes :
      (plat : Bytes) (t : TopicStatusDetails) (σ : Cycle V)
      → Finishes (update_topic src cfg plat t σ)
  unfolding update_topic
  update_topic-Finishes plat t σ = tt

  pub update_sub-Finishes :
      (plat : Bytes) (s : SubStatusDetails) (σ : Cycle V) → Finishes (update_sub src cfg plat s σ)
  unfolding update_sub
  update_sub-Finishes plat s σ = tt

  set_uptime-Finishes :
      (l : Labels) (start_epoch : Option ℕ) (σ : Cycle V)
      → Finishes (set_uptime src cfg l start_epoch σ)
  unfolding set_uptime
  set_uptime-Finishes l none σ = tt
  set_uptime-Finishes l (some start_epoch) σ = ground arith

  update_uptime-Finishes :
      (l : Labels) (status : QmgrStatusDetails) (σ : Cycle V)
      → Finishes (update_uptime src cfg l status σ)
  unfolding update_uptime
  update_uptime-Finishes l status σ =
      let start = src.epoch_of (status.start_date ++ 32 ∷ status.start_time) σ.source in
      ground (arith, set_uptime-Finishes l start.0 (record σ { source = start.1 }))

  pub update_qmgr-Finishes :
      (plat : Bytes) (status : Option QmgrStatusDetails) (σ : Cycle V)
      → Finishes (update_qmgr src cfg plat status σ)
  unfolding update_qmgr
  update_qmgr-Finishes plat none σ = tt
  update_qmgr-Finishes plat (some status) σ = update_uptime-Finishes _ status _

  pub update_cluster-Finishes :
      (plat : Bytes) (cl : ClusterQmgrDetails) (σ : Cycle V)
      → Finishes (update_cluster src cfg plat cl σ)
  unfolding update_cluster
  update_cluster-Finishes plat cl σ = tt

  pub update_buffer_pool-Finishes :
      (plat : Bytes) (bp : UsageBpDetails) (σ : Cycle V)
      → Finishes (update_buffer_pool src cfg plat bp σ)
  unfolding update_buffer_pool
  update_buffer_pool-Finishes plat bp σ = tt

  pub update_page_set-Finishes :
      (plat : Bytes) (ps : UsagePsDetails) (σ : Cycle V)
      → Finishes (update_page_set src cfg plat ps σ)
  unfolding update_page_set
  update_page_set-Finishes plat ps σ = tt

  pub update_publication-Finishes :
      (plat : Bytes) (pm : PublicationMetric) (σ : Cycle V)
      → Finishes (update_publication src cfg plat pm σ)
  unfolding update_publication update_qmgr_publication update_queue_publication qmgr_family
      queue_family
  update_publication-Finishes plat pm σ = ground arith
