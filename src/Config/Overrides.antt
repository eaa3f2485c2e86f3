-- ===== src/Config/Overrides.antt =====
-- What holds of every configuration that `load_config` (src/config.cpp) returns.
use ibmmq_metrics_exporter.Base.{◌≡◌, ap, sym, ◌∙◌, Bool, true, false, codes, arith}
use ibmmq_metrics_exporter.Memory.{Bytes, is_pos}
use ibmmq_metrics_exporter.Pcf.Fold.{is_empty}
use ibmmq_metrics_exporter.Config.Records.{MqConfig, Config}
use ibmmq_metrics_exporter.Config.Sections.{Loaded, loaded, refused, ◌>>=◌, Yaml}
use ibmmq_metrics_exporter.Config.Load.{
  with_connection_name, with_env, finish_config, load_config, or_env,
}
use ibmmq_metrics_exporter.Config.Validate.{is_empty-host_and_port}

-- A variable that is set to a text decides its field.
abbrev pub Decides : Bytes → Bytes → Type 0
Decides value field = is_empty value ≡ false → field ≡ value

pub record IsSettled (get_env : Bytes → Bytes) (cfg : Config) : Type 0 where
  pub queue_manager : Decides (get_env (codes "IBMMQ_QUEUE_MANAGER")) cfg.mq.queue_manager
  pub channel : Decides (get_env (codes "IBMMQ_CHANNEL")) cfg.mq.channel
  pub connection_name : Decides (get_env (codes "IBMMQ_CONNECTION_NAME")) cfg.mq.connection_name
  pub user : Decides (get_env (codes "IBMMQ_USER")) cfg.mq.user
  pub password : Decides (get_env (codes "IBMMQ_PASSWORD")) cfg.mq.password
  pub key_repository : Decides (get_env (codes "IBMMQ_KEY_REPOSITORY")) cfg.mq.key_repository
  pub cipher_spec : Decides (get_env (codes "IBMMQ_CIPHER_SPEC")) cfg.mq.cipher_spec
  pub reachable :
      is_empty cfg.mq.host ≡ false
      → is_pos cfg.mq.port ≡ true
      → is_empty cfg.mq.connection_name ≡ false
  pub typed : cfg.collector.use_statistics ≡ true → cfg.prometheus.override_c_type ≡ true

with_connection_name-reachable :
    (mq : MqConfig)
    → is_empty mq.host ≡ false
    → is_pos mq.port ≡ true
    → is_empty (with_connection_name mq).connection_name ≡ false
unfolding with_connection_name
with_connection_name-reachable mq h p = ground (arith, h, p, is_empty-host_and_port mq.host mq.port)

or_env-Decides : (value old : Bytes) → Decides value (or_env value old)
or_env-Decides value old h = ground (arith, h)

or_env-nonempty : (value old : Bytes) → is_empty old ≡ false → is_empty (or_env value old) ≡ false
or_env-nonempty value old h = ground (arith, h)

with_connection_name-host : (mq : MqConfig) → (with_connection_name mq).host ≡ mq.host
unfolding with_connection_name
with_connection_name-host mq = ground arith

with_connection_name-port : (mq : MqConfig) → (with_connection_name mq).port ≡ mq.port
unfolding with_connection_name
with_connection_name-port mq = ground arith

finish_config-IsSettled :
    (get_env : Bytes → Bytes) (cfg : Config) → IsSettled get_env (finish_config get_env cfg)
unfolding finish_config with_env
finish_config-IsSettled get_env cfg =
    let mq = with_connection_name cfg.mq in
    record {
      queue_manager = or_env-Decides (get_env (codes "IBMMQ_QUEUE_MANAGER")) mq.queue_manager;
      channel = or_env-Decides (get_env (codes "IBMMQ_CHANNEL")) mq.channel;
      connection_name = or_env-Decides (get_env (codes "IBMMQ_CONNECTION_NAME")) mq.connection_name;
      user = or_env-Decides (get_env (codes "IBMMQ_USER")) mq.user;
      password = or_env-Decides (get_env (codes "IBMMQ_PASSWORD")) mq.password;
      key_repository = or_env-Decides (get_env (codes "IBMMQ_KEY_REPOSITORY")) mq.key_repository;
      cipher_spec = or_env-Decides (get_env (codes "IBMMQ_CIPHER_SPEC")) mq.cipher_spec;
      reachable = λ h p.
          or_env-nonempty (get_env (codes "IBMMQ_CONNECTION_NAME")) mq.connection_name (
            with_connection_name-reachable cfg.mq
              (ap is_empty (sym (with_connection_name-host cfg.mq)) ∙ h)
              (ap is_pos (sym (with_connection_name-port cfg.mq)) ∙ p));
      typed = λ s. ground (arith, s);
    }

-- What holds of a configuration, if one is loaded.
abbrev pub OnLoaded : (Config → Type 0) → Loaded Config → Type 0
OnLoaded P (loaded cfg) = P cfg
OnLoaded P refused = Unit {0}

OnLoaded-bind :
    (P : Config → Type 0) (m : Loaded Config) (f : Config → Config)
    → ((cfg : Config) → P (f cfg))
    → OnLoaded P (m >>= (λ cfg. loaded (f cfg)))
OnLoaded-bind P (loaded cfg) f h = h cfg
OnLoaded-bind P refused f h = tt

-- Whatever the file says, and if there is none, a configuration that is loaded has each of the
-- seven fields that an environment variable names from the variable, where that is not empty; it
-- has a connection name if it has a host and a positive port; and it overrides the metrics' types
-- if it uses statistics.
pub load_config-IsSettled :
    (yaml : Yaml) (is_good : Bytes → Bool) (get_env : Bytes → Bytes) (config_path : Bytes)
    → OnLoaded (IsSettled get_env) (load_config yaml is_good get_env config_path)
unfolding load_config
load_config-IsSettled yaml is_good get_env config_path =
    OnLoaded-bind (IsSettled get_env) _ (finish_config get_env) (finish_config-IsSettled get_env)
