-- ===== src/Config/Validate.antt =====
-- `Config::validate` (src/config.cpp).
use ibmmq_metrics_exporter.Base.{
  ℕ, ◌≡◌, ◌↔◌, ◌⊎◌, ◌≤◌, refl, true, false, not, ◌&&◌, ◌||◌, List, [], ◌∷◌, length, is_nil, ◌==◌,
  if◌then◌else◌, Option, none, some, arith,
}
use ibmmq_metrics_exporter.Memory.{Bytes, is_pos, at_least}
use ibmmq_metrics_exporter.Pcf.Fold.{is_empty}
use ibmmq_metrics_exporter.Config.Records.{MqConfig, Config}
use ibmmq_metrics_exporter.Config.Connection.{host_and_port, get_connection_name, is_client_mode}

-- The exceptions, by what their texts say.
pub data ConfigError : Type 0 where
  queue_manager_required channel_required connection_required interval_too_short port_out_of_range
        metadata_lengths_differ :
      ConfigError

-- A configuration of a queue manager on this machine has neither a connection name nor a host.
unfoldable pub validate_connection : MqConfig → Option ConfigError
validate_connection mq =
    if not (is_client_mode mq)
    then none
    else if is_empty mq.channel
    then some channel_required
    else if is_empty (get_connection_name mq)
    then some connection_required
    else none

unfoldable pub validate_numbers : Config → Option ConfigError
validate_numbers cfg =
    if not (is_pos cfg.collector.interval)
    then some interval_too_short
    else if not (is_pos cfg.prometheus.port) || at_least 65536 cfg.prometheus.port
    then some port_out_of_range
    else if not (length cfg.metadata.metadata_tags == length cfg.metadata.metadata_values)
        && not (is_nil cfg.metadata.metadata_tags)
    then some metadata_lengths_differ
    else none

unfoldable pub validate : Config → Option ConfigError
unfolding validate_connection validate_numbers
validate cfg =
    if is_empty cfg.mq.queue_manager
    then some queue_manager_required
    else elim (validate_connection cfg.mq) [ some e ↦ some e | none ↦ validate_numbers cfg ]

-- What a configuration must be, written without the program's tests: a queue manager is named; a
-- remote one has a channel, and a connection name or a port; the numbers are in their ranges.
pub record IsValid (cfg : Config) : Type 0 where
  pub named : is_empty cfg.mq.queue_manager ≡ false
  pub remote :
      (is_empty cfg.mq.connection_name ≡ false) ⊎ (is_empty cfg.mq.host ≡ false)
      → (is_empty cfg.mq.channel ≡ false)
        × ((is_empty cfg.mq.connection_name ≡ false) ⊎ (is_pos cfg.mq.port ≡ true))
  pub repeated : is_pos cfg.collector.interval ≡ true
  pub served : (1 ≤ cfg.prometheus.port) × (cfg.prometheus.port ≤ 65535)
  pub labelled :
      (cfg.metadata.metadata_tags ≡ [])
      ⊎ (length cfg.metadata.metadata_tags ≡ length cfg.metadata.metadata_values)

pub is_empty-host_and_port : (host : Bytes) (port : ℕ) → is_empty (host_and_port host port) ≡ false
unfolding is_empty host_and_port
is_empty-host_and_port [] port = refl
is_empty-host_and_port (c ∷ host) port = refl

is_nil-eq : (tags : List Bytes) → is_nil tags ≡ true → tags ≡ []
is_nil-eq [] h = refl
is_nil-eq (t ∷ tags) h = absurd (ground arith)

is_empty-eq : is_empty [] ≡ true
unfolding is_empty
is_empty-eq = refl

-- A connection passes exactly if it is a local one or has all that a remote one needs.
pub get_connection_name-empty :
    (mq : MqConfig)
    → is_empty (get_connection_name mq)
      ≡ (is_empty mq.connection_name && (is_empty mq.host || not (is_pos mq.port)))
unfolding get_connection_name
get_connection_name-empty mq = ground (arith, is_empty-eq, is_empty-host_and_port mq.host mq.port)

IsValid-validate : (cfg : Config) → validate cfg ≡ none → IsValid cfg
unfolding validate validate_connection validate_numbers is_client_mode
IsValid-validate cfg h = record {
  named = ground (arith, h);
  remote = λ r. ground (arith, r, h, get_connection_name-empty cfg.mq);
  repeated = ground (arith, h);
  served = ground (arith, h);
  labelled = ground (arith, h, is_nil-eq cfg.metadata.metadata_tags);
}

validate-IsValid : (cfg : Config) → IsValid cfg → validate cfg ≡ none
unfolding validate validate_connection validate_numbers is_client_mode
validate-IsValid cfg h =
    ground
      (arith, get_connection_name-empty cfg.mq, h.named, h.remote, h.repeated, h.served, h.labelled)

-- Validation throws nothing exactly on the configurations that are as they must be.
pub validate_iff : (cfg : Config) → (validate cfg ≡ none) ↔ IsValid cfg
validate_iff cfg = (IsValid-validate cfg, validate-IsValid cfg)
