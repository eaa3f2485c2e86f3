-- ===== src/Command.antt =====
-- The command line (src/main.cpp), behind the parse of the arguments: what the flags change in the
-- configuration, and the exit codes.
pub mod Codes
use ibmmq_metrics_exporter.Base.{
  ℕ, Bool, true, false, not, List, [], ◌∷◌, ◌==◌, if◌then◌else◌, Option, none, some, codes, is_same,
}
use ibmmq_metrics_exporter.Memory.{Bytes}
use ibmmq_metrics_exporter.Pcf.Fold.{is_empty}
use ibmmq_metrics_exporter.Config.Records.{MqConfig, Config}
use ibmmq_metrics_exporter.Config.Sections.{Loaded, loaded, refused, Yaml}
use ibmmq_metrics_exporter.Config.Load.{load_config}
use ibmmq_metrics_exporter.Config.Validate.{validate}
use ibmmq_metrics_exporter.Client.Mqi.{Mqi}
use ibmmq_metrics_exporter.Client.State.{
  new_client, Outcome, returned, System, Method, Run, pure, attempt, ◌>>=◌, ◌>>◌,
}
use ibmmq_metrics_exporter.Client.Connection.{connect, disconnect}

-- What the main command's flags are set to.
pub record Flags : Type 0 where
  pub continuous : Bool
  pub interval : ℕ
  pub max_cycles : ℕ
  pub reset_stats : Bool
  pub prom_port : ℕ
  pub log_level : Bytes
  pub log_format : Bytes
  pub verbose : Bool

abbrev pub default_flags : Flags
default_flags = record {
  continuous = false;
  interval = 60;
  max_cycles = 0;
  reset_stats = false;
  prom_port = 9090;
  log_level = codes "info";
  log_format = codes "json";
  verbose = false;
}

-- A flag counts where it differs from its default.
unfoldable pub with_flags : Flags → Config → Config
with_flags flags cfg = record cfg {
  collector = record cfg.collector {
    continuous = if flags.continuous then true else cfg.collector.continuous;
    interval = if flags.interval == 60 then cfg.collector.interval else flags.interval;
    max_cycles = if flags.max_cycles == 0 then cfg.collector.max_cycles else flags.max_cycles;
    reset_stats = if flags.reset_stats then true else cfg.collector.reset_stats;
  };
  prometheus = record cfg.prometheus {
    port = if flags.prom_port == 9090 then cfg.prometheus.port else flags.prom_port;
  };
  logging = record cfg.logging {
    verbose = if flags.verbose then true else cfg.logging.verbose;
    level = if is_same flags.log_level (codes "info") then cfg.logging.level else flags.log_level;
    format =
        if is_same flags.log_format (codes "json") then cfg.logging.format else flags.log_format;
  };
}

-- The configuration, if it is loaded and valid.
abbrev pub checked : (Config → Config) → Loaded Config → Option Config
checked change refused = none
checked change (loaded cfg) = elim (validate (change cfg)) [
  | none ↦ some (change cfg)
  | some e ↦ none
]

-- What the arguments have chosen.
pub record Parsed : Type 0 where
  pub version_parsed : Bool
  pub test_parsed : Bool
  pub generate_parsed : Bool
  pub validate_parsed : Bool
  pub config_file : Bytes
  pub test_config : Bytes
  pub val_config : Bytes
  pub flags : Flags

-- The YAML library, the files and the environment; the MQ library; and what a collector does with a
-- configuration, from its construction until its thread is joined.
module _ (yaml : Yaml) (is_good : Bytes → Bool) (get_env : Bytes → Bytes) {W : Type 0} (mqi : Mqi W)
    (collect : Config → W → W) where
  abbrev pub check_file : (Config → Config) → Bytes → Option Config
  check_file change config_file = checked change (load_config yaml is_good get_env config_file)

  unfoldable pub run_collector : Bytes → Flags → W → ℕ × W
  run_collector config_file flags w = elim (check_file (with_flags flags) config_file) [
    | none ↦ (1, w)
    | some cfg ↦ (0, collect cfg w)
  ]

  unfoldable pub validate_config : Bytes → ℕ
  validate_config config_file =
      if is_empty config_file
      then 1
      else elim (check_file (λ cfg. cfg) config_file) [ none ↦ 1 | some cfg ↦ 0 ]

  -- The client's destructor disconnects again, whether an exception has come or not.
  unfoldable pub test_connection : MqConfig → Method W ℕ
  test_connection mq = do
    tested ← attempt (connect mqi mq >> disconnect mqi)
    _ ← attempt (disconnect mqi)
    pure (elim tested [ none ↦ 1 | some u ↦ 0 ])

  unfoldable pub run_test : Bytes → Method W ℕ
  run_test config_file = elim (check_file (λ cfg. cfg) config_file) [
    | none ↦ pure 1
    | some cfg ↦ test_connection cfg.mq
  ]

  abbrev pub or_global : Bytes → Bytes → Bytes
  or_global config_file global_file = if is_empty config_file then global_file else config_file

  -- The exit code of the program, once the arguments are parsed: a world behind a client, since the
  -- client of the connection test lives as long as the test.
  unfoldable pub main : Parsed → W → Outcome ℕ × W
  main parsed w =
      if parsed.version_parsed
      then (returned 0, w)
      else if parsed.test_parsed
      then (let (code, σ) =
            run_test (or_global parsed.test_config parsed.config_file)
              (record { client = new_client; world = w }) in
          (code, σ.world))
      else if parsed.generate_parsed
      then (returned 0, w)
      else if parsed.validate_parsed
      then (returned (validate_config (or_global parsed.val_config parsed.config_file)), w)
      else (let (code, w') = run_collector parsed.config_file parsed.flags w in (returned code, w'))
