-- ===== src/Config/Sections.antt =====
-- The sections of the configuration file that `load_config` reads (src/config.cpp).
use ibmmq_metrics_exporter.Base.{ℕ, Bool, true, false, List, [], ◌∷◌, Option, none, some, codes}
use ibmmq_metrics_exporter.Memory.{Bytes}
use ibmmq_metrics_exporter.Config.Records.{
  MqConfig, CollectorConfig, PrometheusConfig, MetadataConfig, LoggingConfig, Config,
}
use ibmmq_metrics_exporter.Config.Duration.{parse_duration}

-- What a call of the YAML library gives, if it does not throw.
pub data Loaded {ℓ} (A : Type ℓ) : Type ℓ where
  loaded : A → Loaded A
  refused : Loaded A

infixl 5 ◌>>=◌
abbrev pub ◌>>=◌ {ℓ κ} : {A : Type ℓ} {B : Type κ} → Loaded A → (A → Loaded B) → Loaded B
loaded a >>= f = f a
refused >>= f = refused

-- The calls of yaml-cpp: `LoadFile`, `operator[]`, which is a node only if it is defined, `as` of a
-- node, with and without a fallback, and the elements of a sequence.
pub record Yaml : Type 1 where
  pub Node : Type 0
  pub load_file : Bytes → Loaded Node
  pub at : Node → Bytes → Loaded (Option Node)
  pub as_text_or : Node → Bytes → Loaded Bytes
  pub as_int_or : Node → ℕ → Loaded ℕ
  pub as_bool_or : Node → Bool → Loaded Bool
  pub as_text : Node → Loaded Bytes
  pub sequence : Node → Loaded (Option (List Node))

module _ (yaml : Yaml) where
  -- A field that the section defines is read, and one that it does not define stays.
  unfoldable pub read_field {ℓ} :
      {A : Type ℓ} → yaml.Node → Bytes → (yaml.Node → Loaded A) → A → Loaded A
  read_field node key convert old = do
    found ← yaml.at node key
    elim found [ none ↦ loaded old | some n ↦ convert n ]

  abbrev pub read_text : yaml.Node → Bytes → Bytes → Bytes → Loaded Bytes
  read_text node key def old = read_field node key (λ n. yaml.as_text_or n def) old

  abbrev pub read_int : yaml.Node → Bytes → ℕ → ℕ → Loaded ℕ
  read_int node key def old = read_field node key (λ n. yaml.as_int_or n def) old

  abbrev pub read_bool : yaml.Node → Bytes → Bool → Bool → Loaded Bool
  read_bool node key def old = read_field node key (λ n. yaml.as_bool_or n def) old

  abbrev pub read_needed : yaml.Node → Bytes → Bytes → Loaded Bytes
  read_needed node key old = read_field node key (λ n. yaml.as_text n) old

  abbrev pub read_duration : yaml.Node → Bytes → Bytes → ℕ → ℕ → Loaded ℕ
  read_duration node key text def old =
      read_field node key (λ n. yaml.as_text_or n text >>= (λ s. loaded (parse_duration s def))) old

  unfoldable pub texts_of : List yaml.Node → Loaded (List Bytes)
  texts_of [] = loaded []
  texts_of (item ∷ items) = do text ← yaml.as_text item; rest ← texts_of items; loaded (text ∷ rest)

  unfoldable pub parse_string_list : Option yaml.Node → Loaded (List Bytes)
  parse_string_list none = loaded []
  parse_string_list (some node) = do
    found ← yaml.sequence node
    elim found [ none ↦ loaded [] | some items ↦ texts_of items ]

  -- A list that the section does not define is emptied.
  abbrev pub read_list : yaml.Node → Bytes → Loaded (List Bytes)
  read_list node key = yaml.at node key >>= parse_string_list

  unfoldable pub read_mq : yaml.Node → MqConfig → Loaded MqConfig
  read_mq node mq = do
    queue_manager ← read_text node (codes "queue_manager") [] mq.queue_manager
    channel ← read_text node (codes "channel") [] mq.channel
    connection_name ← read_text node (codes "connection_name") [] mq.connection_name
    host ← read_text node (codes "host") [] mq.host
    port ← read_int node (codes "port") 0 mq.port
    user ← read_text node (codes "user") [] mq.user
    username ← read_text node (codes "username") [] mq.username
    password ← read_text node (codes "password") [] mq.password
    key_repository ← read_text node (codes "key_repository") [] mq.key_repository
    cipher_spec ← read_text node (codes "cipher_spec") [] mq.cipher_spec
    loaded (record {
      queue_manager = queue_manager;
      channel = channel;
      connection_name = connection_name;
      host = host;
      port = port;
      user = user;
      username = username;
      password = password;
      key_repository = key_repository;
      cipher_spec = cipher_spec;
    })

  unfoldable pub read_collector : yaml.Node → CollectorConfig → Loaded CollectorConfig
  read_collector node collector = do
    stats_queue ← read_needed node (codes "stats_queue") collector.stats_queue
    accounting_queue ← read_needed node (codes "accounting_queue") collector.accounting_queue
    reset_stats ← read_bool node (codes "reset_stats") false collector.reset_stats
    continuous ← read_bool node (codes "continuous") false collector.continuous
    max_cycles ← read_int node (codes "max_cycles") 0 collector.max_cycles
    monitor_all_queues ←
        read_bool node (codes "monitor_all_queues") true collector.monitor_all_queues
    interval ← read_duration node (codes "interval") (codes "60s") 60 collector.interval
    queue_exclusion_patterns ← read_list node (codes "queue_exclusion_patterns")
    keep_running ← read_bool node (codes "keep_running") true collector.keep_running
    reconnect_interval ←
        read_duration node (codes "reconnect_interval") (codes "5s") 5 collector.reconnect_interval
    use_status ← read_bool node (codes "use_status") true collector.use_status
    use_statistics ← read_bool node (codes "use_statistics") false collector.use_statistics
    use_reset_q_stats ← read_bool node (codes "use_reset_q_stats") false collector.use_reset_q_stats
    use_publications ← read_bool node (codes "use_publications") true collector.use_publications
    rediscover_interval ←
        read_duration node (codes "rediscover_interval") (codes "0s") 0
          collector.rediscover_interval
    monitored_queues ← read_list node (codes "monitored_queues")
    monitored_channels ← read_list node (codes "monitored_channels")
    monitored_topics ← read_list node (codes "monitored_topics")
    monitored_subscriptions ← read_list node (codes "monitored_subscriptions")
    monitored_amqp_channels ← read_list node (codes "monitored_amqp_channels")
    monitored_mqtt_channels ← read_list node (codes "monitored_mqtt_channels")
    queue_subscription_selector ←
        read_text node (codes "queue_subscription_selector") []
          collector.queue_subscription_selector
    loaded (record {
      stats_queue = stats_queue;
      accounting_queue = accounting_queue;
      reset_stats = reset_stats;
      continuous = continuous;
      max_cycles = max_cycles;
      monitor_all_queues = monitor_all_queues;
      interval = interval;
      queue_exclusion_patterns = queue_exclusion_patterns;
      keep_running = keep_running;
      reconnect_interval = reconnect_interval;
      use_status = use_status;
      use_statistics = use_statistics;
      use_reset_q_stats = use_reset_q_stats;
      use_publications = use_publications;
      rediscover_interval = rediscover_interval;
      monitored_queues = monitored_queues;
      monitored_channels = monitored_channels;
      monitored_topics = monitored_topics;
      monitored_subscriptions = monitored_subscriptions;
      monitored_amqp_channels = monitored_amqp_channels;
      monitored_mqtt_channels = monitored_mqtt_channels;
      queue_subscription_selector = queue_subscription_selector;
    })

  unfoldable pub read_prometheus : yaml.Node → PrometheusConfig → Loaded PrometheusConfig
  read_prometheus node prometheus = do
    port ← read_int node (codes "port") 9091 prometheus.port
    path ← read_text node (codes "path") (codes "/metrics") prometheus.path
    metrics_namespace ←
        read_text node (codes "namespace") (codes "ibmmq") prometheus.metrics_namespace
    subsystem ← read_text node (codes "subsystem") [] prometheus.subsystem
    enable_otel ← read_bool node (codes "enable_otel") false prometheus.enable_otel
    host ← read_text node (codes "host") (codes "0.0.0.0") prometheus.host
    https_cert_file ← read_text node (codes "https_cert_file") [] prometheus.https_cert_file
    https_key_file ← read_text node (codes "https_key_file") [] prometheus.https_key_file
    override_c_type ← read_bool node (codes "override_c_type") false prometheus.override_c_type
    loaded (record {
      port = port;
      path = path;
      metrics_namespace = metrics_namespace;
      subsystem = subsystem;
      enable_otel = enable_otel;
      host = host;
      https_cert_file = https_cert_file;
      https_key_file = https_key_file;
      override_c_type = override_c_type;
    })

  unfoldable pub read_metadata : yaml.Node → MetadataConfig → Loaded MetadataConfig
  read_metadata node metadata = do
    meta_prefix ← read_text node (codes "meta_prefix") [] metadata.meta_prefix
    locale ← read_text node (codes "locale") [] metadata.locale
    metadata_tags ← read_list node (codes "metadata_tags")
    metadata_values ← read_list node (codes "metadata_values")
    loaded (record {
      meta_prefix = meta_prefix;
      locale = locale;
      metadata_tags = metadata_tags;
      metadata_values = metadata_values;
    })

  unfoldable pub read_logging : yaml.Node → LoggingConfig → Loaded LoggingConfig
  read_logging node logging = do
    level ← read_text node (codes "level") (codes "info") logging.level
    format ← read_text node (codes "format") (codes "json") logging.format
    output_file ← read_text node (codes "output_file") [] logging.output_file
    verbose ← read_bool node (codes "verbose") false logging.verbose
    loaded (record { level = level; format = format; output_file = output_file; verbose = verbose })

  -- A section that the file does not have stays as it is.
  unfoldable pub read_section {ℓ} :
      {C : Type ℓ} → yaml.Node → Bytes → (yaml.Node → C → Loaded C) → C → Loaded C
  read_section root name read c = do
    found ← yaml.at root name
    elim found [ none ↦ loaded c | some node ↦ read node c ]

  unfoldable pub read_file : Bytes → Config → Loaded Config
  read_file path cfg = do
    root ← yaml.load_file path
    mq ← read_section root (codes "mq") read_mq cfg.mq
    collector ← read_section root (codes "collector") read_collector cfg.collector
    prometheus ← read_section root (codes "prometheus") read_prometheus cfg.prometheus
    metadata ← read_section root (codes "metadata") read_metadata cfg.metadata
    logging ← read_section root (codes "logging") read_logging cfg.logging
    loaded (record {
      mq = mq;
      collector = collector;
      prometheus = prometheus;
      metadata = metadata;
      logging = logging;
    })
