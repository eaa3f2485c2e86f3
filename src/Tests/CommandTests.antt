-- ===== src/Tests/CommandTests.antt =====
-- Runs for src/main.cpp.
use ibmmq_metrics_exporter.Base.{◌≡◌, ◌⊎◌, refl, true, [], codes}
use ibmmq_metrics_exporter.Memory.{Bytes}
use ibmmq_metrics_exporter.Pcf.Fold.{is_empty}
use ibmmq_metrics_exporter.Config.Records.{Config, default_config}
use ibmmq_metrics_exporter.Config.Load.{load_config}
use ibmmq_metrics_exporter.Client.State.{new_client}
use ibmmq_metrics_exporter.Client.Ends.{Ends}
use ibmmq_metrics_exporter.Client.Handles.{connection}
use ibmmq_metrics_exporter.Command.{
  Flags, default_flags, with_flags, run_collector, validate_config, run_test,
}
use ibmmq_metrics_exporter.Command.Codes.{
  Taken, Refused, IsClosed, run_collector-Taken, validate_config-run_collector, run_test-IsClosed,
}
use ibmmq_metrics_exporter.Tests.ConfigTests.{small_yaml}
use ibmmq_metrics_exporter.Tests.MqiTests.{
  World, small_mqi, small_opened, small_HandleLaws, world_with,
}

-- An environment with the names that the file leaves out.
abbrev full_env : Bytes → Bytes
full_env name = codes "QM1"

-- A collector that empties the queue.
abbrev draining : Config → World → World
draining cfg w = record w { queue = [] }

abbrev quick : Flags
quick = record default_flags { interval = 10; prom_port = 9090 }

-- A port that is given as the flag's default leaves the port of the configuration.
with_flags_run : (with_flags quick default_config).prometheus.port ≡ 9091
unfolding with_flags
with_flags_run = refl

run_collector-Taken_example :
    (let found = load_config small_yaml (λ path. true) full_env [] in
      let p =
        run_collector small_yaml
          (λ path. true)
          full_env
          small_mqi
          draining
          []
          quick
          (world_with []) in
      ((cfg : Config) × Taken (with_flags quick) found cfg
        × (p ≡ (0, draining cfg (world_with []))))
      ⊎ (Refused (with_flags quick) found × (p ≡ (1, world_with []))))
run_collector-Taken_example =
    run_collector-Taken small_yaml (λ path. true) full_env small_mqi draining [] quick
      (world_with [])

validate_config-run_collector_example :
    validate_config small_yaml (λ path. true) full_env small_mqi draining (codes "x.yaml")
    ≡ (run_collector small_yaml
        (λ path. true)
        full_env
        small_mqi
        draining
        (codes "x.yaml")
        default_flags
        (world_with [])).0
unfolding is_empty
validate_config-run_collector_example =
    validate_config-run_collector small_yaml (λ path. true) full_env small_mqi draining
      (codes "x.yaml") (world_with []) refl

run_test-IsClosed_example :
    Ends
      (λ code. IsClosed small_opened connection (small_opened (world_with []) connection))
      (λ σ'. ⊥)
      (run_test small_yaml
        (λ path. true)
        full_env
        small_mqi
        draining
        []
        (record { client = new_client; world = world_with [] }))
run_test-IsClosed_example =
    run_test-IsClosed small_yaml (λ path. true) full_env small_mqi draining small_opened
      small_HandleLaws connection [] (world_with [])
