-- ===== src/Metrics/Collect/Stamps.antt =====
-- `MetricsCollector::collect_metrics` (src/metrics_collector.cpp) comes to its last two gauges,
-- whatever its parts throw.
use ibmmq_metrics_exporter.Base.{
  ◌≡◌, ◌∙◌, Bool, ◌&&◌, List, [], ◌∷◌, ◌++◌, All, some, ◌==◌, codes, arith,
}
use ibmmq_metrics_exporter.Metrics.Labels.{prefixed}
use ibmmq_metrics_exporter.Memory.{Bytes}
use ibmmq_metrics_exporter.Config.Records.{Config}
use ibmmq_metrics_exporter.Client.Headers.{MqMessage}
use ibmmq_metrics_exporter.Client.State.{
  Outcome, returned, thrown, undefined, Run, pure, attempt, when, ◌>>=◌, ◌>>◌,
}
use ibmmq_metrics_exporter.Client.Ends.{Ends}
use ibmmq_metrics_exporter.Client.Finishes.{
  Ended, Ended-attempt, Finishes, Finishes-bind, Finishes-if, Delivers, Delivers-bind,
  Finishes-Delivers,
}
use ibmmq_metrics_exporter.Metrics.{get_queues_to_monitor}
use ibmmq_metrics_exporter.Metrics.Registry.{
  Change, of_int32, of_seconds, sets, Registry, RegistryLaws,
}
use ibmmq_metrics_exporter.Metrics.Labels.{Labels, add_meta_labels}
use ibmmq_metrics_exporter.Metrics.Families.{metric_prefix}
use ibmmq_metrics_exporter.Metrics.Cycle.{Sources, Cycle, from, for_each}
use ibmmq_metrics_exporter.Metrics.Messages.{process_statistics_message, process_accounting_message}
use ibmmq_metrics_exporter.Metrics.Status.{
  collect_and_update_queue_metrics, collect_and_update_handle_metrics, collect_queue_online_status,
  collect_channel_status, collect_topic_status, collect_sub_status,
}
use ibmmq_metrics_exporter.Metrics.Qmgr.{
  collect_qmgr_status, collect_cluster_status, collect_usage_status,
}
use ibmmq_metrics_exporter.Metrics.Collect.{
  messages_or_empty, collect_messages, info_labels, own_labels, set_collection_info,
  update_metrics_from_messages, collect_publication_metrics, set_baseline_metrics, isolated,
  collect_extended_status, collect_parts, collect_metrics,
}
use ibmmq_metrics_exporter.Metrics.Collect.Updates.{
  IsParsed, process_statistics_message-Finishes, process_accounting_message-Finishes,
}
use ibmmq_metrics_exporter.Metrics.Collect.Isolation.{
  IsSafe, queue_metrics-Ended, handle_metrics-Ended, online_status-Ended, channel_status-Ended,
  topic_status-Ended, sub_status-Ended, qmgr_status-Ended, cluster_status-Ended, usage_status-Ended,
  publications-Ended,
}

all-Finishes :
    {S A : Type 0} (P : A → Type 0) (f : A → Run S (Unit {0}))
    → ((a : A) (σ : S) → P a → Finishes (f a σ))
    → (xs : List A) (σ : S) → All P xs
    → Finishes (for_each f xs σ)
unfolding for_each
all-Finishes P f h [] σ k = tt
all-Finishes P f h (x ∷ xs) σ k =
    Finishes-bind (f x) (λ u. for_each f xs) σ (h x σ k.0) (λ u σ'. all-Finishes P f h xs σ' k.1)

module _ {V : Type 0} where
  caught-Delivers :
      (σ : Cycle V) (p : Outcome (List MqMessage) × V)
      → Ended p
      → Ends (λ messages v. All IsParsed messages) (λ v. Unit {0}) p
      → Delivers
          (λ messages σ'. All IsParsed messages)
          ((attempt (from (λ v. p)) >>= λ messages. pure (messages_or_empty messages)) σ)
  caught-Delivers σ (returned messages, v) h k = k
  caught-Delivers σ (thrown x, v) h k = tt
  caught-Delivers σ (undefined x, v) h k = h

  isolated-Finishes :
      (src : Sources V) (cfg : Config) (part : Run (Cycle V) (Unit {0}))
      → ((σ : Cycle V) → Ended (part σ))
      → (σ : Cycle V) → Finishes (isolated src cfg part σ)
  isolated-Finishes src cfg part h σ =
      Finishes-bind (attempt part) (λ r. pure tt) σ (Ended-attempt (part σ) (h σ)) (λ r σ'. tt)

-- Nothing has happened from the first state to the second but changes of gauges.
pub data OnlyGauges {V : Type 0} (registry : Registry V) (v : V) : V → Type 0 where
  none_yet : OnlyGauges registry v v
  changed_one :
      {v' : V}
      → OnlyGauges registry v v'
      → (family : Bytes) (labels : Labels) (c : Change)
      → OnlyGauges registry v (registry.change family labels c v')

module _ {V : Type 0} (src : Sources V) (cfg : Config) where
  -- The labels of the two gauges, written out.
  abbrev pub time_labels : Labels
  time_labels = add_meta_labels cfg.metadata ((codes "queue_manager", cfg.mq.queue_manager) ∷ [])

  abbrev pub told_labels : Bytes → Labels
  told_labels platform = add_meta_labels cfg.metadata (
      (codes "queue_manager", cfg.mq.queue_manager)
      ∷ (codes "channel", cfg.mq.channel)
      ∷ (codes "platform", platform)
      ∷ (codes "collector_version", src.version)
      ∷ [])

  -- What shows a collection: the clock was read when nothing was left to do but to change gauges, and
  -- the gauges of the time and of the collection's information have what it showed and the value 1,
  -- the latter for the platform as it was then.
  pub record IsStamped (σ : Cycle V) : Type 0 where
    pub read_at : V
    pub at_end : OnlyGauges src.registry (src.now read_at).1 σ.source
    pub time :
        src.registry.exposed
          (metric_prefix cfg.prometheus ++ codes "_last_collection_timestamp")
          time_labels
          σ.source
        ≡ some (of_seconds (src.now read_at).0)
    pub told_at : V
    pub told_then : OnlyGauges src.registry (src.now read_at).1 told_at
    pub told :
        src.registry.exposed
          (metric_prefix cfg.prometheus ++ codes "_collection_info")
          (told_labels (src.platform_string told_at))
          σ.source
        ≡ some (of_int32 1)

  set_baseline_metrics-IsStamped :
      RegistryLaws src.registry
      → (σ : Cycle V) → Delivers (λ u. IsStamped) (set_baseline_metrics src cfg σ)
  unfolding set_baseline_metrics set_collection_info
  set_baseline_metrics-IsStamped laws σ =
      let prefix = metric_prefix cfg.prometheus in
      let stamp = prefix ++ codes "_last_collection_timestamp" in
      let info = prefix ++ codes "_collection_info" in
      let own = own_labels src cfg in
      let (epoch, v) = src.now σ.source in
      let stamped = src.registry.change stamp own (sets (of_seconds epoch)) v in
      let labels = info_labels src cfg (src.platform_string stamped) in
      let differ =
        prefixed prefix (codes "_collection_info") (codes "_last_collection_timestamp") in
      let first = changed_one none_yet stamp own (sets (of_seconds epoch)) in
      record {
        read_at = σ.source;
        at_end = changed_one first info labels (sets (of_int32 1));
        time =
            laws.elsewhere info labels (sets (of_int32 1)) stamped stamp own
              (ground (arith, differ))
            ∙ laws.at stamp own (sets (of_seconds epoch)) v;
        told_at = stamped;
        told_then = first;
        told = laws.at info labels (sets (of_int32 1)) stamped;
      }

  set_collection_info-Finishes : (σ : Cycle V) → Finishes (set_collection_info src cfg σ)
  unfolding set_collection_info
  set_collection_info-Finishes σ = tt

  update_metrics_from_messages-Finishes :
      (stats_msgs acct_msgs : List MqMessage) (σ : Cycle V)
      → All IsParsed stats_msgs
      → All IsParsed acct_msgs
      → Finishes (update_metrics_from_messages src cfg stats_msgs acct_msgs σ)
  unfolding update_metrics_from_messages
  update_metrics_from_messages-Finishes stats_msgs acct_msgs σ h k =
      let statistics = process_statistics_message src cfg in
      let accounting = process_accounting_message src cfg in
      Finishes-bind (for_each statistics stats_msgs)
        (λ u. for_each accounting acct_msgs >> set_collection_info src cfg) σ
        (all-Finishes IsParsed statistics (process_statistics_message-Finishes src cfg) stats_msgs σ
          h)
        (λ u σ'.
          Finishes-bind (for_each accounting acct_msgs) (λ u. set_collection_info src cfg) σ'
            (all-Finishes IsParsed accounting (process_accounting_message-Finishes src cfg)
              acct_msgs σ' k)
            (λ u. set_collection_info-Finishes))

  module _ (laws : RegistryLaws src.registry) (safe : IsSafe src) where
    -- A part whose exceptions are caught, before what follows it.
    then-Finishes :
        {B : Type 0} (part : Run (Cycle V) (Unit {0})) (f : Run (Cycle V) B)
        → ((σ : Cycle V) → Ended (part σ))
        → ((σ : Cycle V) → Finishes (f σ))
        → (σ : Cycle V) → Finishes ((isolated src cfg part >> f) σ)
    then-Finishes part f h k σ =
        Finishes-bind (isolated src cfg part) (λ u. f) σ (isolated-Finishes src cfg part h σ)
          (λ u. k)

    when-Finishes :
        (b : Bool) (m : Run (Cycle V) (Unit {0}))
        → ((σ : Cycle V) → Finishes (m σ))
        → (σ : Cycle V) → Finishes (when b m σ)
    when-Finishes b m h σ = Finishes-if b m (pure tt) σ (h σ) tt

    collect_extended_status-Finishes :
        (queues : List Bytes) (σ : Cycle V) → Finishes (collect_extended_status src cfg queues σ)
    unfolding collect_extended_status
    collect_extended_status-Finishes queues =
        then-Finishes (collect_qmgr_status src cfg) _ (qmgr_status-Ended src cfg safe) (
          then-Finishes (collect_channel_status src cfg) _ (channel_status-Ended src cfg safe) (
            then-Finishes (collect_topic_status src cfg) _ (topic_status-Ended src cfg safe) (
              then-Finishes (collect_sub_status src cfg) _ (sub_status-Ended src cfg safe) (
                then-Finishes (collect_cluster_status src cfg) _ (cluster_status-Ended src cfg safe)
                  (then-Finishes (collect_queue_online_status src cfg queues) _
                    (online_status-Ended src cfg safe queues)
                    (λ σ.
                      when-Finishes (src.platform_of σ.source == 1)
                        (isolated src cfg (collect_usage_status src cfg))
                        (isolated-Finishes src cfg (collect_usage_status src cfg)
                          (usage_status-Ended src cfg safe))
                        σ))))))

    collect_parts-Finishes :
        (queues : List Bytes) (σ : Cycle V) → Finishes (collect_parts src cfg queues σ)
    unfolding collect_parts
    collect_parts-Finishes queues =
        let extended = collect_extended_status src cfg queues in
        let publish = isolated src cfg (collect_publication_metrics src cfg) in
        then-Finishes (collect_and_update_queue_metrics src cfg queues) _
          (queue_metrics-Ended src cfg safe queues)
          (then-Finishes (collect_and_update_handle_metrics src cfg queues) _
            (handle_metrics-Ended src cfg safe queues)
            (λ σ.
              Finishes-bind (when (cfg.collector.use_status && src.is_connected σ.source) extended)
                _ σ (when-Finishes _ extended (collect_extended_status-Finishes queues) σ)
                (λ u σ'.
                  when-Finishes (src.has_monitor σ'.source && src.is_connected σ'.source) publish
                    (isolated-Finishes src cfg (collect_publication_metrics src cfg)
                      (publications-Ended src cfg safe))
                    σ')))

    collect_messages-Delivers :
        (queue_type : Bytes) (σ : Cycle V)
        → Delivers (λ messages σ'. All IsParsed messages) (collect_messages src cfg queue_type σ)
    unfolding collect_messages
    collect_messages-Delivers queue_type σ =
        caught-Delivers σ (src.all_messages queue_type σ.source) (safe.messages queue_type σ.source)
          (safe.parsed queue_type σ.source)

    -- A cycle of the collection comes to its end from every state and with every configuration,
    -- whichever of its parts throw: where every call of the client and of the resource monitor
    -- returns or throws, `discover_queues` returns, the registry keeps each gauge's value, and the
    -- messages that the client returns are such as the parser reads without an error,
    -- `collect_metrics` returns. The clock has then been read at the end, with nothing after it but
    -- changes of gauges, and the registry has the time that it showed, and the information about
    -- the collection, with the value 1 and the platform as it was then.
    pub collect_metrics-Delivers :
        (σ : Cycle V) → Delivers (λ u. IsStamped) (collect_metrics src cfg σ)
    unfolding collect_metrics
    collect_metrics-Delivers σ =
        let parsed : List MqMessage → Cycle V → Type 0 = λ messages σ'. All IsParsed messages in
        Delivers-bind parsed (λ u. IsStamped) (collect_messages src cfg (codes "stats")) _ σ
          (collect_messages-Delivers (codes "stats") σ)
          (λ stats_msgs σ1 h.
            Delivers-bind parsed (λ u. IsStamped) (collect_messages src cfg (codes "accounting")) _
              σ1 (collect_messages-Delivers (codes "accounting") σ1)
              (λ acct_msgs σ2 k.
                Finishes-Delivers (λ u. IsStamped)
                  (update_metrics_from_messages src cfg stats_msgs acct_msgs) _ σ2
                  (update_metrics_from_messages-Finishes stats_msgs acct_msgs σ2 h k)
                  (λ u σ3.
                    let (queues, v) = get_queues_to_monitor src.queues_of cfg.collector σ3.source in
                    Finishes-Delivers (λ u. IsStamped) (collect_parts src cfg queues) _
                      (record σ3 { source = v })
                      (collect_parts-Finishes queues (record σ3 { source = v }))
                      (λ u. set_baseline_metrics-IsStamped laws))))
