-- ===== src/Metrics/Collect/Isolation.antt =====
-- `MetricsCollector::collect_metrics` (src/metrics_collector.cpp) comes to its end, whatever its
-- parts throw.
use ibmmq_metrics_exporter.Base.{not, ◌||◌, List, [], ◌∷◌, All, is_nil, codes}
use ibmmq_metrics_exporter.Memory.{Bytes}
use ibmmq_metrics_exporter.Config.Records.{Config}
use ibmmq_metrics_exporter.Client.State.{Outcome, returned, thrown, undefined, Run, pure, ◌>>=◌}
use ibmmq_metrics_exporter.Client.Ends.{Ends}
use ibmmq_metrics_exporter.Client.Finishes.{Ended, Ended-bind, Ended-if, Finishes, Finishes-Ended}
use ibmmq_metrics_exporter.Metrics.Cycle.{Sources, Cycle, from, look, for_each}
use ibmmq_metrics_exporter.Metrics.Status.{
  update_queue, update_handles, update_queue_online, update_channel, update_topic, update_sub,
  collect_and_update_queue_metrics, collect_and_update_handle_metrics, collect_queue_online_status,
  collect_channel_status, collect_topic_status, collect_sub_status,
}
use ibmmq_metrics_exporter.Metrics.Qmgr.{
  update_qmgr, update_cluster, update_buffer_pool, update_page_set, collect_qmgr_status,
  collect_cluster_status, collect_usage_status,
}
use ibmmq_metrics_exporter.Metrics.Collect.{update_publication, collect_publication_metrics}
use ibmmq_metrics_exporter.Metrics.Collect.Updates.{
  IsParsed, update_queue-Finishes, update_handles-Finishes, update_queue_online-Finishes,
  update_channel-Finishes, update_topic-Finishes, update_sub-Finishes, update_qmgr-Finishes,
  update_cluster-Finishes, update_buffer_pool-Finishes, update_page_set-Finishes,
  update_publication-Finishes,
}

-- Every call of the client returns or throws, and the messages that it gets are such as the parser
-- takes.
pub record IsSafe {V : Type 0} (src : Sources V) : Type 0 where
  pub messages : (queue_type : Bytes) (v : V) → Ended (src.all_messages queue_type v)
  pub parsed :
      (queue_type : Bytes) (v : V)
      → Ends (λ messages v'. All IsParsed messages) (λ v'. Unit {0}) (src.all_messages queue_type v)
  pub info : (qname : Bytes) (v : V) → Ended (src.queue_info qname v)
  pub online : (qname : Bytes) (v : V) → Ended (src.queue_online_status qname v)
  pub channels : (pattern_ : Bytes) (v : V) → Ended (src.channel_status pattern_ v)
  pub topics : (pattern_ : Bytes) (v : V) → Ended (src.topic_status pattern_ v)
  pub subs : (pattern_ : Bytes) (v : V) → Ended (src.sub_status pattern_ v)
  pub qmgr : (v : V) → Ended (src.qmgr_status v)
  pub clusters : (v : V) → Ended (src.cluster_status v)
  pub buffer_pools : (v : V) → Ended (src.usage_bp_status v)
  pub page_sets : (v : V) → Ended (src.usage_ps_status v)
  pub publications : (v : V) → Ended (src.publications v)

for_each-Ended :
    {S A : Type 0} (f : A → Run S (Unit {0}))
    → ((a : A) (σ : S) → Ended (f a σ))
    → (xs : List A) (σ : S) → Ended (for_each f xs σ)
unfolding for_each
for_each-Ended f h [] σ = tt
for_each-Ended f h (x ∷ xs) σ =
    Ended-bind (f x) (λ u. for_each f xs) σ (h x σ) (λ u. for_each-Ended f h xs)

module _ {V : Type 0} where
  moved-Ended :
      {A : Type 0} (σ : Cycle V) (p : Outcome A × V)
      → Ended p
      → Ended {S = Cycle V} (p.0, record σ { source = p.1 })
  moved-Ended σ (returned a, v) h = tt
  moved-Ended σ (thrown x, v) h = tt
  moved-Ended σ (undefined x, v) h = h

  -- A call, whose result then goes into gauges.
  from-Ended :
      {A : Type 0} (m : Run V A) (f : A → Run (Cycle V) (Unit {0})) (σ : Cycle V)
      → Ended (m σ.source)
      → ((a : A) (σ' : Cycle V) → Ended (f a σ'))
      → Ended ((from m >>= f) σ)
  from-Ended m f σ h k = Ended-bind (from m) f σ (moved-Ended σ (m σ.source) h) k

  -- The same for each element of what is returned, with a part that only writes gauges.
  each-Ended :
      {A : Type 0} (f : A → Run (Cycle V) (Unit {0}))
      → ((a : A) (σ : Cycle V) → Finishes (f a σ))
      → (xs : List A) (σ : Cycle V) → Ended (for_each f xs σ)
  each-Ended f h = for_each-Ended f (λ a σ. Finishes-Ended (f a σ) (h a σ))

module _ {V : Type 0} (src : Sources V) (cfg : Config) (safe : IsSafe src) where
  pub queue_metrics-Ended :
      (queues : List Bytes) (σ : Cycle V)
      → Ended (collect_and_update_queue_metrics src cfg queues σ)
  unfolding collect_and_update_queue_metrics
  queue_metrics-Ended queues σ =
      let plat = src.platform_string σ.source in
      let step : Bytes → Bytes → Run (Cycle V) (Unit {0}) =
        λ plat qname. (from (src.queue_info qname) >>= update_queue src cfg plat) in
      Ended-if (not (src.is_connected σ.source)) (pure tt)
        (look src.platform_string >>= λ plat. for_each (step plat) queues) σ tt
        (for_each-Ended (step plat)
          (λ qname σ.
            from-Ended (src.queue_info qname) (update_queue src cfg plat) σ
              (safe.info qname σ.source)
              (λ info σ'. Finishes-Ended _ (update_queue-Finishes src cfg plat info σ')))
          queues σ)

  pub handle_metrics-Ended :
      (queues : List Bytes) (σ : Cycle V)
      → Ended (collect_and_update_handle_metrics src cfg queues σ)
  unfolding collect_and_update_handle_metrics
  handle_metrics-Ended queues σ =
      let step : Bytes → Run (Cycle V) (Unit {0}) =
        λ qname. (from (src.queue_info qname) >>= update_handles src cfg qname) in
      Ended-if (not (src.is_connected σ.source) || is_nil queues) (pure tt) (for_each step queues) σ
        tt
        (for_each-Ended step
          (λ qname σ.
            from-Ended (src.queue_info qname) (update_handles src cfg qname) σ
              (safe.info qname σ.source)
              (λ info σ'. Finishes-Ended _ (update_handles-Finishes src cfg qname info σ')))
          queues σ)

  pub online_status-Ended :
      (queues : List Bytes) (σ : Cycle V) → Ended (collect_queue_online_status src cfg queues σ)
  unfolding collect_queue_online_status
  online_status-Ended queues σ =
      let plat = src.platform_string σ.source in
      let update = update_queue_online src cfg queues plat in
      Ended-if (not (src.is_connected σ.source) || is_nil queues) (pure tt)
        (look src.platform_string >>= λ plat.
          (from (src.queue_online_status (codes "*"))
            >>= for_each (update_queue_online src cfg queues plat)))
        σ tt
        (from-Ended (src.queue_online_status (codes "*")) (for_each update) σ
          (safe.online (codes "*") σ.source)
          (each-Ended update (update_queue_online-Finishes src cfg queues plat)))

  -- The loops over patterns, with what is asked for each.
  patterns-Ended :
      {A : Type 0} (ask : Bytes → Run V (List A)) (update : A → Run (Cycle V) (Unit {0}))
      → ((pattern_ : Bytes) (v : V) → Ended (ask pattern_ v))
      → ((a : A) (σ : Cycle V) → Finishes (update a σ))
      → (patterns : List Bytes) (σ : Cycle V)
      → Ended (for_each (λ p. (from (ask p) >>= for_each update)) patterns σ)
  patterns-Ended ask update h k =
      for_each-Ended (λ p. (from (ask p) >>= for_each update))
        (λ p σ. from-Ended (ask p) (for_each update) σ (h p σ.source) (each-Ended update k))

  pub channel_status-Ended : (σ : Cycle V) → Ended (collect_channel_status src cfg σ)
  unfolding collect_channel_status
  channel_status-Ended σ =
      let plat = src.platform_string σ.source in
      patterns-Ended src.channel_status (update_channel src cfg plat) safe.channels
        (update_channel-Finishes src cfg plat) _ σ

  pub topic_status-Ended : (σ : Cycle V) → Ended (collect_topic_status src cfg σ)
  unfolding collect_topic_status
  topic_status-Ended σ =
      let update = update_topic src cfg (src.platform_string σ.source) in
      Ended-if (is_nil cfg.collector.monitored_topics) (pure tt)
        (look src.platform_string >>= λ plat.
          for_each (λ p. (from (src.topic_status p) >>= for_each (update_topic src cfg plat)))
            cfg.collector.monitored_topics)
        σ tt
        (patterns-Ended src.topic_status update safe.topics
          (update_topic-Finishes src cfg (src.platform_string σ.source)) _ σ)

  pub sub_status-Ended : (σ : Cycle V) → Ended (collect_sub_status src cfg σ)
  unfolding collect_sub_status
  sub_status-Ended σ =
      let update = update_sub src cfg (src.platform_string σ.source) in
      Ended-if (is_nil cfg.collector.monitored_subscriptions) (pure tt)
        (look src.platform_string >>= λ plat.
          for_each (λ p. (from (src.sub_status p) >>= for_each (update_sub src cfg plat)))
            cfg.collector.monitored_subscriptions)
        σ tt
        (patterns-Ended src.sub_status update safe.subs
          (update_sub-Finishes src cfg (src.platform_string σ.source)) _ σ)

  pub qmgr_status-Ended : (σ : Cycle V) → Ended (collect_qmgr_status src cfg σ)
  unfolding collect_qmgr_status
  qmgr_status-Ended σ =
      from-Ended src.qmgr_status
        (λ status. (look src.platform_string >>= λ plat. update_qmgr src cfg plat status)) σ
        (safe.qmgr σ.source)
        (λ status σ'.
          Finishes-Ended _ (update_qmgr-Finishes src cfg (src.platform_string σ'.source) status σ'))

  pub cluster_status-Ended : (σ : Cycle V) → Ended (collect_cluster_status src cfg σ)
  unfolding collect_cluster_status
  cluster_status-Ended σ =
      from-Ended src.cluster_status
        (λ cls. (look src.platform_string >>= λ plat. for_each (update_cluster src cfg plat) cls)) σ
        (safe.clusters σ.source)
        (λ cls σ'.
          let plat = src.platform_string σ'.source in
          each-Ended (update_cluster src cfg plat) (update_cluster-Finishes src cfg plat) cls σ')

  pub usage_status-Ended : (σ : Cycle V) → Ended (collect_usage_status src cfg σ)
  unfolding collect_usage_status
  usage_status-Ended σ =
      let plat = src.platform_string σ.source in
      let pools = update_buffer_pool src cfg plat in
      let sets = update_page_set src cfg plat in
      from-Ended src.usage_bp_status
        (λ bps. (for_each pools bps >>= λ u. (from src.usage_ps_status >>= for_each sets))) σ
        (safe.buffer_pools σ.source)
        (λ bps σ'.
          Ended-bind (for_each pools bps) (λ u. (from src.usage_ps_status >>= for_each sets)) σ'
            (each-Ended pools (update_buffer_pool-Finishes src cfg plat) bps σ')
            (λ u σ''.
              from-Ended src.usage_ps_status (for_each sets) σ'' (safe.page_sets σ''.source)
                (each-Ended sets (update_page_set-Finishes src cfg plat))))

  pub publications-Ended : (σ : Cycle V) → Ended (collect_publication_metrics src cfg σ)
  unfolding collect_publication_metrics
  publications-Ended σ =
      from-Ended src.publications
        (λ pubs.
          (look src.platform_string >>= λ plat. for_each (update_publication src cfg plat) pubs))
        σ (safe.publications σ.source)
        (λ pubs σ'.
          let plat = src.platform_string σ'.source in
          each-Ended (update_publication src cfg plat) (update_publication-Finishes src cfg plat)
            pubs σ')
