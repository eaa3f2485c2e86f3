-- ===== src/Tests/ConfigTests.antt =====
-- Configurations and an environment for src/config.cpp.
use ibmmq_metrics_exporter.Base.{
  ◌*◌, ◌≡◌, ◌↔◌, refl, true, ◌&&◌, ◌||◌, [], ◌++◌, if◌then◌else◌, is_same, none, some, codes, arith,
}
use ibmmq_metrics_exporter.Memory.{Bytes}
use ibmmq_metrics_exporter.Pcf.Fold.{is_empty}
use ibmmq_metrics_exporter.Config.Records.{Config, default_config}
use ibmmq_metrics_exporter.Config.Connection.{to_decimal, host_and_port}
use ibmmq_metrics_exporter.Config.Duration.{parse_duration}
use ibmmq_metrics_exporter.Config.Duration.RoundTrip.{parse_duration-to_decimal}
use ibmmq_metrics_exporter.Config.Sections.{loaded, Yaml, read_field, read_section, read_mq}
use ibmmq_metrics_exporter.Config.Load.{load_config}
use ibmmq_metrics_exporter.Config.Overrides.{IsSettled, OnLoaded, load_config-IsSettled}
use ibmmq_metrics_exporter.Config.Validate.{queue_manager_required, validate, IsValid, validate_iff}

duration_run : parse_duration (codes "-5m") 60 ≡ 4294966996
unfolding parse_duration is_empty
duration_run = refl

parse_duration-to_decimal_example :
    (parse_duration (to_decimal 90) 60 ≡ 90)
    × (parse_duration (to_decimal 90 ++ codes "s") 60 ≡ 90)
    × (parse_duration (to_decimal 90 ++ codes "m") 60 ≡ 90 * 60)
parse_duration-to_decimal_example = parse_duration-to_decimal 90 60 (omega arith)

-- A file with a section for the queue manager that has a host and a port: a node is a name.
abbrev pub small_yaml : Yaml
small_yaml = record {
  Node = Bytes;
  load_file = λ path. loaded [];
  at = λ node key.
      if is_same key (codes "mq")
        || is_same key (codes "host")
        || (is_same key (codes "port") && is_same node (codes "mq"))
      then loaded (some key)
      else loaded none;
  as_text_or = λ node def. loaded (codes "mq.example");
  as_int_or = λ node def. loaded 1414;
  as_bool_or = λ node def. loaded def;
  as_text = λ node. loaded node;
  sequence = λ node. loaded none;
}

abbrev small_env : Bytes → Bytes
small_env name = if is_same name (codes "IBMMQ_CHANNEL") then codes "DEV.APP" else []

abbrev small_config : Config
small_config = record default_config {
  mq = record default_config.mq {
    channel = codes "DEV.APP";
    host = codes "mq.example";
    port = 1414;
    connection_name = codes "mq.example(1414)";
  };
}

load_config_run : load_config small_yaml (λ path. true) small_env [] ≡ loaded small_config
unfolding load_config is_empty host_and_port to_decimal read_section read_mq read_field
load_config_run = refl

validate_run : validate small_config ≡ some queue_manager_required
unfolding validate is_empty
validate_run = refl

load_config-IsSettled_example :
    OnLoaded (IsSettled small_env) (load_config small_yaml (λ path. true) small_env [])
load_config-IsSettled_example = load_config-IsSettled small_yaml (λ path. true) small_env []

validate_iff_example : (validate small_config ≡ none) ↔ IsValid small_config
validate_iff_example = validate_iff small_config
