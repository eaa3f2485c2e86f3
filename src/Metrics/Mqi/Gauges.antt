-- ===== src/Metrics/Mqi/Gauges.antt =====
-- What is exposed after `update_mqi_gauges` and after the counts of an accounting message
-- (src/metrics_collector.cpp).
use ibmmq_metrics_exporter.Base.{
  ◌≡◌, refl, sym, ap, ◌∙◌, Bool, true, false, not, ◌&&◌, List, [], ◌∷◌, ◌++◌, All, map, Option,
  none, some, codes, is_same, arith,
}
use mathlib.Core.Path.{subst}
use ibmmq_metrics_exporter.Metrics.Labels.{prefixed}
use ibmmq_metrics_exporter.Memory.{Bytes}
use ibmmq_metrics_exporter.Config.Records.{Config}
use ibmmq_metrics_exporter.Pcf.Records.{MqiStatistics, ConnectionInfo, OperationCounts}
use ibmmq_metrics_exporter.Client.State.{Outcome, returned, Run, ◌>>◌}
use ibmmq_metrics_exporter.Client.Finishes.{Delivers}
use ibmmq_metrics_exporter.Client.Queues.{is_in}
use ibmmq_metrics_exporter.Metrics.Labels.{Labels}
use ibmmq_metrics_exporter.Metrics.Registry.{
  Value, plus, Change, sets, increments, changed, value_or_zero, Registry, RegistryLaws,
}
use ibmmq_metrics_exporter.Metrics.Families.{metric_prefix, mqi_defs}
use ibmmq_metrics_exporter.Metrics.Cycle.{Sources, Cycle, for_each}
use ibmmq_metrics_exporter.Metrics.Mqi.Counters.{
  counters, operation_counters, caller_labels, operation_caller,
}
use ibmmq_metrics_exporter.Metrics.Mqi.{
  set_mqi, add_mqi, mqi_labels, mqi_values, update_mqi_gauges, operation_values, add_operations,
}

is_same_sym : (s t : Bytes) → is_same s t ≡ is_same t s
is_same_sym [] [] = refl
is_same_sym [] (d ∷ t) = refl
is_same_sym (c ∷ s) [] = refl
is_same_sym (c ∷ s) (d ∷ t) = ground (arith, is_same_sym s t)

abbrev Entry : Type 0
Entry = Bytes × Value

-- No two names are the same.
abbrev IsDistinct : List Entry → Type 0
IsDistinct [] = Unit {0}
IsDistinct (e ∷ es) = All (λ d. is_same e.0 d.0 ≡ false) es × IsDistinct es

abbrev IsKnown : Entry → Type 0
IsKnown e = is_in e.0 (map (λ d. d.0) mqi_defs) ≡ true

-- The same as tests, which the names of this file pass.
abbrev all_of : {A : Type 0} → (A → Bool) → List A → Bool
all_of test [] = true
all_of test (x ∷ xs) = test x && all_of test xs

all_of_lem :
    {A : Type 0} (test : A → Bool) (xs : List A)
    → all_of test xs ≡ true
    → All (λ x. test x ≡ true) xs
all_of_lem test [] h = tt
all_of_lem test (x ∷ xs) h = (ground (arith, h), all_of_lem test xs (ground (arith, h)))

abbrev is_distinct : List Entry → Bool
is_distinct [] = true
is_distinct (e ∷ es) = all_of (λ d. not (is_same e.0 d.0)) es && is_distinct es

differ :
    (e : Entry) (es : List Entry)
    → all_of (λ d. not (is_same e.0 d.0)) es ≡ true
    → All (λ d. is_same e.0 d.0 ≡ false) es
differ e [] h = tt
differ e (d ∷ es) h = (ground (arith, h), differ e es (ground (arith, h)))

is_distinct_lem : (es : List Entry) → is_distinct es ≡ true → IsDistinct es
is_distinct_lem [] h = tt
is_distinct_lem (e ∷ es) h =
    (differ e es (ground (arith, h)), is_distinct_lem es (ground (arith, h)))

module _ {V : Type 0} (registry : Registry V) (laws : RegistryLaws registry) (name : Bytes → Bytes)
    (apart : (s t : Bytes) → is_same (name s) (name t) ≡ is_same s t) (labels : Labels)
    (k : Value → Change) where
  abbrev value_at : Entry → V → Option Value
  value_at e = registry.exposed (name e.0) labels

  -- The changes one after the other.
  abbrev change_all : List Entry → V → V
  change_all [] v = v
  change_all (e ∷ es) v = change_all es (registry.change (name e.0) labels (k e.1) v)

  untouched :
      (e d : Entry) (v : V)
      → is_same d.0 e.0 ≡ false
      → value_at e (registry.change (name d.0) labels (k d.1) v) ≡ value_at e v
  untouched e d v h =
      laws.elsewhere (name d.0) labels (k d.1) v (name e.0) labels
        (ground (arith, h, apart d.0 e.0))

  kept :
      (e : Entry) (es : List Entry) (v : V)
      → All (λ d. is_same e.0 d.0 ≡ false) es
      → value_at e (change_all es v) ≡ value_at e v
  kept e [] v h = refl
  kept e (d ∷ es) v h =
      kept e es (registry.change (name d.0) labels (k d.1) v) h.1
      ∙ untouched e d v (is_same_sym d.0 e.0 ∙ h.0)

  abbrev Changed : V → V → Entry → Type 0
  Changed v v' e = value_at e v' ≡ some (changed (k e.1) (value_or_zero (value_at e v)))

  -- The values before another gauge was changed.
  before :
      (d : Entry) (es : List Entry) (v v' : V)
      → All (λ e. is_same d.0 e.0 ≡ false) es
      → All (Changed (registry.change (name d.0) labels (k d.1) v) v') es
      → All (Changed v v') es
  before d [] v v' h l = tt
  before d (e ∷ es) v v' h l = (
    l.0 ∙ ap (λ o. some (changed (k e.1) (value_or_zero o))) (untouched e d v h.0),
    before d es v v' h.1 l.1,
  )

  change_all-Changed :
      (es : List Entry) (v : V) → IsDistinct es → All (Changed v (change_all es v)) es
  change_all-Changed [] v h = tt
  change_all-Changed (e ∷ es) v h =
      let v' = registry.change (name e.0) labels (k e.1) v in
      (
        kept e es v' h.0 ∙ laws.at (name e.0) labels (k e.1) v,
        before e es v (change_all es v') h.0 (change_all-Changed es v' h.1),
      )

  each_change :
      (step : Entry → Run (Cycle V) (Unit {0}))
      → ((e : Entry) (σ : Cycle V)
          → IsKnown e
          → step e σ ≡ (
            returned tt,
            record σ { source = registry.change (name e.0) labels (k e.1) σ.source },
          ))
      → (es : List Entry) (σ : Cycle V) → All IsKnown es
      → for_each step es σ ≡ (returned tt, record σ { source = change_all es σ.source })
  unfolding for_each
  each_change step h [] σ l = refl
  each_change step h (e ∷ es) σ l =
      ap (λ p. ((λ σ'. p) >> for_each step es) σ) (h e σ l.0)
      ∙ each_change step h es
          (record σ { source = registry.change (name e.0) labels (k e.1) σ.source }) l.1

module _ {V : Type 0} (src : Sources V) (cfg : Config) where
  abbrev mqi_name : Bytes → Bytes
  mqi_name s = metric_prefix cfg.prometheus ++ (codes "_mqi_" ++ s)

  -- The gauge of each entry.
  abbrev pub gauge_of : Labels → Entry → Cycle V → Option Value
  gauge_of labels e σ = src.registry.exposed (mqi_name e.0) labels σ.source

  module _ (laws : RegistryLaws src.registry) where
    mqi_name_apart : (s t : Bytes) → is_same (mqi_name s) (mqi_name t) ≡ is_same s t
    mqi_name_apart s t =
        prefixed (metric_prefix cfg.prometheus) (codes "_mqi_" ++ s) (codes "_mqi_" ++ t)

    set_mqi_lem :
        (labels : Labels) (e : Entry) (σ : Cycle V)
        → IsKnown e
        → set_mqi src cfg labels e σ ≡ (
          returned tt,
          record σ { source = src.registry.change (mqi_name e.0) labels (sets e.1) σ.source },
        )
    unfolding set_mqi
    set_mqi_lem labels e σ h = rw h refl

    add_mqi_lem :
        (labels : Labels) (e : Entry) (σ : Cycle V)
        → IsKnown e
        → add_mqi src cfg labels e σ ≡ (
          returned tt,
          record σ { source = src.registry.change (mqi_name e.0) labels (increments e.1) σ.source },
        )
    unfolding add_mqi
    add_mqi_lem labels e σ h = rw h refl

    abbrev is_known : Entry → Bool
    is_known e = is_in e.0 (map (λ d. d.0) mqi_defs)

    -- After `update_mqi_gauges` each of the 44 counters is exposed, under its own name and the labels of
    -- its caller, as the value of its own field, whatever was exposed before. This holds for every
    -- configuration, where the registry keeps each gauge's value.
    pub update_mqi_gauges-exposes :
        (mqi : MqiStatistics) (qmgr : Bytes) (σ : Cycle V)
        → (let labels =
              caller_labels cfg qmgr mqi.application_name mqi.application_tag mqi.user_identifier
                mqi.connection_name mqi.channel_name in
            Delivers
              (λ u σ'. All (λ e. gauge_of labels e σ' ≡ some e.1) (counters mqi))
              (update_mqi_gauges src cfg mqi qmgr σ))
    unfolding update_mqi_gauges
    update_mqi_gauges-exposes mqi qmgr σ =
        let labels = mqi_labels src cfg mqi qmgr in
        let es = mqi_values mqi in
        let goal : Outcome (Unit {0}) × Cycle V → Type 0 =
          Delivers (λ u σ'. All (λ e. gauge_of labels e σ' ≡ some e.1) (counters mqi)) in
        subst goal
          (sym (
            each_change src.registry laws mqi_name mqi_name_apart labels sets
              (set_mqi src cfg labels) (set_mqi_lem labels) es σ (all_of_lem is_known es refl)))
          (change_all-Changed src.registry laws mqi_name mqi_name_apart labels sets es σ.source
            (is_distinct_lem es refl))

    -- An accounting message adds its counts.
    abbrev Adds : Labels → OperationCounts → Cycle V → Unit {0} → Cycle V → Type 0
    Adds labels ops σ u σ' =
        All (λ e. gauge_of labels e σ' ≡ some (plus (value_or_zero (gauge_of labels e σ)) e.1))
          (operation_counters ops)

    add_all-Adds :
        (labels : Labels) (ops : OperationCounts) (σ : Cycle V)
        → Delivers (Adds labels ops σ) (for_each (add_mqi src cfg labels) (operation_values ops) σ)
    add_all-Adds labels ops σ =
        let es = operation_values ops in
        subst (Delivers (Adds labels ops σ))
          (sym (
            each_change src.registry laws mqi_name mqi_name_apart labels increments
              (add_mqi src cfg labels) (add_mqi_lem labels) es σ (all_of_lem is_known es refl)))
          (change_all-Changed src.registry laws mqi_name mqi_name_apart labels increments es
            σ.source (is_distinct_lem es refl))

    -- After the counts of an accounting message are added, each of its six counters is exposed, under
    -- its own name and the labels of its caller, as the sum of what was exposed before, or of zero,
    -- and its own count; a caller of whom the message says nothing has empty labels. This holds for
    -- every configuration, where the registry keeps each gauge's value.
    pub add_operations-adds :
        (qmgr : Bytes) (info : Option ConnectionInfo) (ops : OperationCounts) (σ : Cycle V)
        → Delivers
            (λ u σ'.
              All
                (λ e.
                  gauge_of (operation_caller cfg qmgr info) e σ'
                  ≡ some (plus (value_or_zero (gauge_of (operation_caller cfg qmgr info) e σ)) e.1))
                (operation_counters ops))
            (add_operations src cfg qmgr info (some ops) σ)
    unfolding add_operations
    add_operations-adds qmgr none ops σ = add_all-Adds (operation_caller cfg qmgr none) ops σ
    add_operations-adds qmgr (some info) ops σ =
        add_all-Adds (operation_caller cfg qmgr (some info)) ops σ
