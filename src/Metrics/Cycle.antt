-- ===== src/Metrics/Cycle.antt =====
-- The state that `MetricsCollector` works on (src/metrics_collector.cpp): what its client and its
-- resource monitor are, and the maps that it keeps. The client, the monitor and the registry are
-- parameters; the calls of the first two may throw.
use ibmmq_metrics_exporter.Base.{ℕ, ◌-◌, ◌^◌, Bool, List, [], ◌∷◌, Option, ltb, if◌then◌else◌}
use ibmmq_metrics_exporter.Memory.{Bytes}
use ibmmq_metrics_exporter.Config.Connection.{to_decimal}
use ibmmq_metrics_exporter.Inquiry.Details.{
  ChannelStatusDetails, TopicStatusDetails, SubStatusDetails, QmgrStatusDetails, ClusterQmgrDetails,
  UsageBpDetails, UsagePsDetails, QueueOnlineStatus,
}
use ibmmq_metrics_exporter.Monitor.Records.{PublicationMetric}
use ibmmq_metrics_exporter.Client.Headers.{MqMessage}
use ibmmq_metrics_exporter.Client.Inquiries.{QueueInfo}
use ibmmq_metrics_exporter.Client.State.{returned, Run, pure, ◌>>◌}
use ibmmq_metrics_exporter.Metrics.Labels.{Labels}
use ibmmq_metrics_exporter.Metrics.Registry.{Value, sets, increments, Registry}

-- What the metrics collector calls: `MQClient`, `ResourceMonitor`, and the library for times.
-- `queues_of` is `discover_queues`, for the calls of it that return; `has_monitor` is whether `resource_monitor_` is set; `epoch_of` is `std::get_time` with
-- `std::mktime`, with none where the text is no time or the time is before the epoch; `now` is the
-- system's clock in seconds; `version` is what the build writes into build_version.h.
pub record Sources (V : Type 0) : Type 0 where
  pub is_connected : V → Bool
  pub platform_of : V → ℕ
  pub platform_string : V → Bytes
  pub all_messages : Bytes → Run V (List MqMessage)
  pub queues_of : Bytes → V → List Bytes × V
  pub queue_info : Bytes → Run V (Option QueueInfo)
  pub queue_online_status : Bytes → Run V (List QueueOnlineStatus)
  pub channel_status : Bytes → Run V (List ChannelStatusDetails)
  pub topic_status : Bytes → Run V (List TopicStatusDetails)
  pub sub_status : Bytes → Run V (List SubStatusDetails)
  pub qmgr_status : Run V (Option QmgrStatusDetails)
  pub cluster_status : Run V (List ClusterQmgrDetails)
  pub usage_bp_status : Run V (List UsageBpDetails)
  pub usage_ps_status : Run V (List UsagePsDetails)
  pub has_monitor : V → Bool
  pub publications : Run V (List PublicationMetric)
  pub epoch_of : Bytes → V → Option ℕ × V
  pub now : V → ℕ × V
  pub version : Bytes
  pub registry : Registry V

-- The two maps from keys to families are those of the publications, which grow from cycle to cycle.
pub record Cycle (V : Type 0) : Type 0 where
  pub source : V
  pub pub_qmgr_metrics : List (Bytes × Bytes)
  pub pub_queue_metrics : List (Bytes × Bytes)

-- `std::to_string` of an `int32_t`.
unfoldable pub to_string : ℕ → Bytes
to_string w = if ltb w (2 ^ 31) then to_decimal w else 45 ∷ to_decimal (2 ^ 32 - w)

module _ {V : Type 0} where
  -- A call of the client.
  abbrev pub from : {A : Type 0} → Run V A → Run (Cycle V) A
  from m σ = let (r, v) = m σ.source in (r, record σ { source = v })

  abbrev pub look : {A : Type 0} → (V → A) → Run (Cycle V) A
  look f σ = (returned (f σ.source), σ)

  abbrev pub ask_for : {A : Type 0} → (V → A × V) → Run (Cycle V) A
  ask_for f σ = let (a, v) = f σ.source in (returned a, record σ { source = v })

  -- `family->Add(labels).Set(v)` and `Increment(v)`.
  abbrev pub set_gauge : Sources V → Bytes → Labels → Value → Run (Cycle V) (Unit {0})
  set_gauge src family labels v σ =
      (returned tt, record σ { source = src.registry.change family labels (sets v) σ.source })

  abbrev pub increment_gauge : Sources V → Bytes → Labels → Value → Run (Cycle V) (Unit {0})
  increment_gauge src family labels v σ =
      (returned tt, record σ { source = src.registry.change family labels (increments v) σ.source })

-- A loop over a container.
unfoldable pub for_each : {S A : Type 0} → (A → Run S (Unit {0})) → List A → Run S (Unit {0})
for_each f [] = pure tt
for_each f (x ∷ xs) = f x >> for_each f xs
