-- ===== src/Command/Codes.antt =====
-- The exit codes of src/main.cpp, and what its commands leave behind.
use ibmmq_metrics_exporter.Base.{
  ℕ, ◌≤◌, ◌≡◌, ◌⊎◌, inl, inr, refl, Bool, false, Option, none, some, arith,
}
use ibmmq_metrics_exporter.Memory.{Bytes}
use ibmmq_metrics_exporter.Pcf.Fold.{is_empty}
use ibmmq_metrics_exporter.Config.Records.{MqConfig, Config}
use ibmmq_metrics_exporter.Config.Sections.{Loaded, loaded, refused, Yaml}
use ibmmq_metrics_exporter.Config.Load.{load_config}
use ibmmq_metrics_exporter.Config.Validate.{ConfigError, validate, IsValid, validate_iff}
use ibmmq_metrics_exporter.Client.Mqi.{Mqi}
use ibmmq_metrics_exporter.Client.State.{Method, System, new_client, pure, attempt, ◌>>=◌, ◌>>◌}
use ibmmq_metrics_exporter.Client.Ends.{Ends, Ends-bind, Ends-attempt, Ends-weaken}
use ibmmq_metrics_exporter.Client.Connection.{connect, disconnect}
use ibmmq_metrics_exporter.Client.Handles.{Resource, HandleLaws, Within, is_live}
use ibmmq_metrics_exporter.Client.Handles.Members.{connect-Within}
use ibmmq_metrics_exporter.Client.Handles.Disconnect.{IsEmpty, disconnect-Ends}
use ibmmq_metrics_exporter.Command.{
  Flags, default_flags, with_flags, checked, run_collector, validate_config, test_connection,
  run_test,
}

-- A file is taken if it loads as a configuration that, once changed, is valid.
abbrev pub Taken : (Config → Config) → Loaded Config → Config → Type 0
Taken change found cfg' = (cfg : Config) × (found ≡ loaded cfg) × (cfg' ≡ change cfg) × IsValid cfg'

-- It is refused by the load, or because the configuration is not valid.
abbrev pub Refused : (Config → Config) → Loaded Config → Type 0
Refused change found =
    (found ≡ refused) ⊎ ((cfg : Config) × (found ≡ loaded cfg) × ¬ IsValid (change cfg))

abbrev Checked : (Config → Config) → Loaded Config → Option Config → Type 0
Checked change found (some cfg') = Taken change found cfg'
Checked change found none = Refused change found

validated :
    (change : Config → Config) (cfg : Config) (e : Option ConfigError)
    → validate (change cfg) ≡ e
    → Checked change (loaded cfg) (elim e [ none ↦ some (change cfg) | some e ↦ none ])
validated change cfg none h = (cfg, refl, refl, (validate_iff (change cfg)).0 h)
validated change cfg (some e) h =
    inr (cfg, refl, λ valid. ground (arith, h, (validate_iff (change cfg)).1 valid))

checked_lem :
    (change : Config → Config) (found : Loaded Config) → Checked change found (checked change found)
checked_lem change refused = inl refl
checked_lem change (loaded cfg) = validated change cfg (validate (change cfg)) refl

module _ (yaml : Yaml) (is_good : Bytes → Bool) (get_env : Bytes → Bytes) {W : Type 0} (mqi : Mqi W)
    (collect : Config → W → W) where
  run_with :
      (flags : Flags) (found : Loaded Config) (r : Option Config) (w : W)
      → Checked (with_flags flags) found r
      → (let p : ℕ × W = elim r [ none ↦ (1, w) | some cfg ↦ (0, collect cfg w) ] in
          ((cfg : Config) × Taken (with_flags flags) found cfg × (p ≡ (0, collect cfg w)))
          ⊎ (Refused (with_flags flags) found × (p ≡ (1, w))))
  run_with flags found none w h = inr (h, refl)
  run_with flags found (some cfg) w h = inl (cfg, h, refl)

  -- The program runs a collector with a valid configuration only: either the file loads as a
  -- configuration that is valid with the flags, which is the one that the collector runs with, and
  -- the exit code is 0; or the file is refused, or the configuration with the flags is not valid, and
  -- then the exit code is 1 and nothing has been done.
  pub run_collector-Taken :
      (config_file : Bytes) (flags : Flags) (w : W)
      → (let found = load_config yaml is_good get_env config_file in
          let p = run_collector yaml is_good get_env mqi collect config_file flags w in
          ((cfg : Config) × Taken (with_flags flags) found cfg × (p ≡ (0, collect cfg w)))
          ⊎ (Refused (with_flags flags) found × (p ≡ (1, w))))
  unfolding run_collector
  run_collector-Taken config_file flags w =
      let found = load_config yaml is_good get_env config_file in
      run_with flags found (checked (with_flags flags) found) w
        (checked_lem (with_flags flags) found)

  -- Without flags the configuration stays as it is, so that both commands check the same one.
  same_code :
      (found : Loaded Config) (w : W)
      → (let p : ℕ × W = elim (checked (with_flags default_flags) found) [
        | none ↦ (1, w)
        | some cfg ↦ (0, collect cfg w)
      ] in
          elim (checked (λ cfg. cfg) found) [ none ↦ 1 | some cfg ↦ 0 ] ≡ p.0)
  unfolding with_flags
  same_code refused w = refl
  same_code (loaded cfg) w =
      elim (validate cfg)
        as (λ e.
          (let r : Option Config = elim e [ none ↦ some cfg | some e ↦ none ] in
            let p : ℕ × W = elim r [ none ↦ (1, w) | some cfg ↦ (0, collect cfg w) ] in
            elim r [ none ↦ 1 | some cfg ↦ 0 ] ≡ p.0)) [ none ↦ refl | some e ↦ refl ]

  -- `config validate` says of a file what the program would say that runs with it and without flags:
  -- the exit codes are the same, where the name of the file is not empty.
  pub validate_config-run_collector :
      (config_file : Bytes) (w : W)
      → is_empty config_file ≡ false
      → validate_config yaml is_good get_env mqi collect config_file
        ≡ (run_collector yaml is_good get_env mqi collect config_file default_flags w).0
  unfolding validate_config run_collector
  validate_config-run_collector config_file w h =
      rw h (same_code (load_config yaml is_good get_env config_file) w)

-- The client has nothing open, and a resource is open `b` times at most.
abbrev pub IsClosed : {W : Type 0} → (W → Resource → ℕ) → Resource → ℕ → System W → Type 0
IsClosed opened r b σ = IsEmpty σ.client × (opened σ.world r ≤ b)

module _ {W : Type 0} (yaml : Yaml) (is_good : Bytes → Bool) (get_env : Bytes → Bytes) (mqi : Mqi W)
    (collect : Config → W → W) (opened : W → Resource → ℕ) (laws : HandleLaws mqi opened)
    (r : Resource) where
  -- The destructor, after what the test has come to.
  finish_test :
      (b code : ℕ) (σ : System W)
      → Within opened r b σ
      → Ends
          (λ code. IsClosed opened r b)
          (λ σ'. ⊥)
          ((attempt (disconnect mqi) >>= λ t. pure code) σ)
  finish_test b code σ h =
      Ends-attempt (λ u. IsClosed opened r b) (λ code. IsClosed opened r b) (λ σ'. ⊥) (λ σ'. ⊥)
        (disconnect mqi) (λ t. pure code) σ (disconnect-Ends mqi opened laws r (λ σ'. ⊥) b σ h)
        (λ σ' no. elim no [ ]) (λ u σ' k. k)

  test_connection-Ends :
      (mq : MqConfig) (b : ℕ) (σ : System W)
      → is_live σ.client ≡ σ.client.connected
      → Within opened r b σ
      → Ends
          (λ code. IsClosed opened r b)
          (λ σ'. ⊥)
          (test_connection yaml is_good get_env mqi collect mq σ)
  unfolding test_connection
  test_connection-Ends mq b σ live h =
      let within = Within opened r b in
      let next : Option (Unit {0}) → Method W ℕ = λ tested.
        (attempt (disconnect mqi) >>= λ t. pure (elim tested [ none ↦ 1 | some u ↦ 0 ])) in
      Ends-attempt (λ u. within) (λ code. IsClosed opened r b) (λ σ'. ⊥) within
        (connect mqi mq >> disconnect mqi) next σ
        (Ends-bind (λ u. within) (λ u. within) within (connect mqi mq) (λ u. disconnect mqi) σ
          (connect-Within mqi opened laws r b mq σ live h)
          (λ u σ' k.
            Ends-weaken (λ u. IsClosed opened r b) (λ u. within) within within (disconnect mqi σ')
              (λ u σ'' l. omega (arith, l.1)) (λ σ'' l. l)
              (disconnect-Ends mqi opened laws r within b σ' k)))
        (finish_test b 1) (λ u. finish_test b 0)

  test_with :
      (found : Option Config) (w : W)
      → (let m : Method W ℕ = elim found [
        | none ↦ pure 1
        | some cfg ↦ test_connection yaml is_good get_env mqi collect cfg.mq
      ] in
          Ends
            (λ code. IsClosed opened r (opened w r))
            (λ σ'. ⊥)
            (m (record { client = new_client; world = w })))
  test_with none w = ((refl, refl, refl, refl), omega arith)
  test_with (some cfg) w =
      test_connection-Ends cfg.mq (opened w r) (record { client = new_client; world = w }) refl
        (omega arith)

  -- The connection test leaves nothing open. With a library that keeps the laws of the handles, whatever
  -- the file says and wherever the connection fails, the test returns, unless it reads outside a
  -- buffer, and lets no exception through; its client then has nothing open, and no handle and no
  -- connection is open more often than before.
  pub run_test-IsClosed :
      (config_file : Bytes) (w : W)
      → Ends
          (λ code. IsClosed opened r (opened w r))
          (λ σ'. ⊥)
          (run_test yaml is_good get_env mqi collect config_file
            (record { client = new_client; world = w }))
  unfolding run_test
  run_test-IsClosed config_file w =
      test_with (checked (λ cfg. cfg) (load_config yaml is_good get_env config_file)) w
