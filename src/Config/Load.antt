-- ===== src/Config/Load.antt =====
-- `load_config` (src/config.cpp).
use ibmmq_metrics_exporter.Base.{Bool, true, not, ◌&&◌, List, [], ◌∷◌, if◌then◌else◌, codes}
use ibmmq_metrics_exporter.Memory.{Bytes, is_pos}
use ibmmq_metrics_exporter.Pcf.Fold.{is_empty}
use ibmmq_metrics_exporter.Config.Records.{MqConfig, Config, default_config}
use ibmmq_metrics_exporter.Config.Connection.{host_and_port}
use ibmmq_metrics_exporter.Config.Sections.{Loaded, loaded, ◌>>=◌, Yaml, read_file}

-- A connection name that is not set is built from the host and the port.
unfoldable pub with_connection_name : MqConfig → MqConfig
with_connection_name mq =
    if is_empty mq.connection_name && not (is_empty mq.host) && is_pos mq.port
    then record mq { connection_name = host_and_port mq.host mq.port }
    else mq

-- An environment variable that is not set reads as an empty text.
abbrev pub or_env : Bytes → Bytes → Bytes
or_env value old = if not (is_empty value) then value else old

unfoldable pub with_env : (Bytes → Bytes) → MqConfig → MqConfig
with_env get_env mq = record mq {
  queue_manager = or_env (get_env (codes "IBMMQ_QUEUE_MANAGER")) mq.queue_manager;
  channel = or_env (get_env (codes "IBMMQ_CHANNEL")) mq.channel;
  connection_name = or_env (get_env (codes "IBMMQ_CONNECTION_NAME")) mq.connection_name;
  user = or_env (get_env (codes "IBMMQ_USER")) mq.user;
  password = or_env (get_env (codes "IBMMQ_PASSWORD")) mq.password;
  key_repository = or_env (get_env (codes "IBMMQ_KEY_REPOSITORY")) mq.key_repository;
  cipher_spec = or_env (get_env (codes "IBMMQ_CIPHER_SPEC")) mq.cipher_spec;
}

-- What follows the reading of the file.
unfoldable pub finish_config : (Bytes → Bytes) → Config → Config
unfolding with_connection_name with_env
finish_config get_env cfg = record cfg {
  mq = with_env get_env (with_connection_name cfg.mq);
  prometheus =
      if cfg.collector.use_statistics
      then record cfg.prometheus { override_c_type = true }
      else cfg.prometheus;
}

-- The first of the standard locations where there is a file.
abbrev pub first_file : (Bytes → Bool) → List Bytes → Bytes
first_file is_good [] = []
first_file is_good (candidate ∷ candidates) =
    if is_good candidate then candidate else first_file is_good candidates

abbrev pub candidates : List Bytes
candidates = codes "config.yaml" ∷ codes "configs/default.yaml" ∷ codes "./config/config.yaml" ∷ []

-- The YAML library, the files that can be opened, and the environment.
module _ (yaml : Yaml) (is_good : Bytes → Bool) (get_env : Bytes → Bytes) where
  abbrev pub config_file : Bytes → Bytes
  config_file config_path =
      if is_empty config_path then first_file is_good candidates else config_path

  -- A configuration, or the exception that wraps one of the YAML library.
  unfoldable pub load_config : Bytes → Loaded Config
  unfolding finish_config read_file
  load_config config_path = do
    cfg ←
        (if is_empty (config_file config_path)
          then loaded default_config
          else read_file yaml (config_file config_path) default_config)
    loaded (finish_config get_env cfg)
