-- ===== src/Config/Records.antt =====
-- The records of the configuration and their defaults (include/ibmmq_exporter/config.h,
-- `default_config` of src/config.cpp). An `int` and a number of seconds are bit patterns of 32 bits.
use ibmmq_metrics_exporter.Base.{ℕ, Bool, true, false, List, [], codes}
use ibmmq_metrics_exporter.Memory.{Bytes}

pub record MqConfig : Type 0 where
  pub queue_manager : Bytes
  pub channel : Bytes
  pub connection_name : Bytes
  pub host : Bytes
  pub port : ℕ
  pub user : Bytes
  pub username : Bytes
  pub password : Bytes
  pub key_repository : Bytes
  pub cipher_spec : Bytes

pub record CollectorConfig : Type 0 where
  pub stats_queue : Bytes
  pub accounting_queue : Bytes
  pub reset_stats : Bool
  pub interval : ℕ
  pub max_cycles : ℕ
  pub continuous : Bool
  pub monitor_all_queues : Bool
  pub queue_exclusion_patterns : List Bytes
  pub keep_running : Bool
  pub reconnect_interval : ℕ
  pub use_status : Bool
  pub use_statistics : Bool
  pub use_reset_q_stats : Bool
  pub use_publications : Bool
  pub rediscover_interval : ℕ
  pub monitored_queues : List Bytes
  pub monitored_channels : List Bytes
  pub monitored_topics : List Bytes
  pub monitored_subscriptions : List Bytes
  pub monitored_amqp_channels : List Bytes
  pub monitored_mqtt_channels : List Bytes
  pub queue_subscription_selector : Bytes

pub record PrometheusConfig : Type 0 where
  pub port : ℕ
  pub path : Bytes
  pub metrics_namespace : Bytes
  pub subsystem : Bytes
  pub enable_otel : Bool
  pub host : Bytes
  pub https_cert_file : Bytes
  pub https_key_file : Bytes
  pub override_c_type : Bool

pub record MetadataConfig : Type 0 where
  pub meta_prefix : Bytes
  pub metadata_tags : List Bytes
  pub metadata_values : List Bytes
  pub locale : Bytes

pub record LoggingConfig : Type 0 where
  pub level : Bytes
  pub format : Bytes
  pub output_file : Bytes
  pub verbose : Bool

pub record Config : Type 0 where
  pub mq : MqConfig
  pub collector : CollectorConfig
  pub prometheus : PrometheusConfig
  pub metadata : MetadataConfig
  pub logging : LoggingConfig

abbrev pub default_config : Config
default_config = record {
  mq = record {
    queue_manager = [];
    channel = [];
    connection_name = [];
    host = [];
    port = 0;
    user = [];
    username = [];
    password = [];
    key_repository = [];
    cipher_spec = [];
  };
  collector = record {
    stats_queue = codes "SYSTEM.ADMIN.STATISTICS.QUEUE";
    accounting_queue = codes "SYSTEM.ADMIN.ACCOUNTING.QUEUE";
    reset_stats = false;
    interval = 60;
    max_cycles = 0;
    continuous = false;
    monitor_all_queues = true;
    queue_exclusion_patterns = [];
    keep_running = true;
    reconnect_interval = 5;
    use_status = true;
    use_statistics = false;
    use_reset_q_stats = false;
    use_publications = true;
    rediscover_interval = 0;
    monitored_queues = [];
    monitored_channels = [];
    monitored_topics = [];
    monitored_subscriptions = [];
    monitored_amqp_channels = [];
    monitored_mqtt_channels = [];
    queue_subscription_selector = [];
  };
  prometheus = record {
    port = 9091;
    path = codes "/metrics";
    metrics_namespace = codes "ibmmq";
    subsystem = [];
    enable_otel = false;
    host = codes "0.0.0.0";
    https_cert_file = [];
    https_key_file = [];
    override_c_type = false;
  };
  metadata = record { meta_prefix = []; metadata_tags = []; metadata_values = []; locale = [] };
  logging = record {
    level = codes "info";
    format = codes "json";
    output_file = [];
    verbose = false;
  };
}
