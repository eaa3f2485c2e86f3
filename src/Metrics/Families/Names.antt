-- ===== src/Metrics/Families/Names.antt =====
-- The names of the families that `init_metrics` registers (src/metrics_collector.cpp).
use ibmmq_metrics_exporter.Base.{
  ◌≡◌, refl, Bool, true, false, not, ◌&&◌, List, [], ◌∷◌, ◌++◌, All, map, codes, is_same, arith,
}
use ibmmq_metrics_exporter.Metrics.Labels.{prefixed}
use ibmmq_metrics_exporter.Memory.{Bytes}
use ibmmq_metrics_exporter.Config.Records.{PrometheusConfig}
use ibmmq_metrics_exporter.Metrics.Families.{
  metric_prefix, queue_families, channel_families, status_families, mqi_defs, collection_families,
  init_metrics,
}

-- No two of the names are the same.
abbrev pub AllDistinct : List Bytes → Type 0
AllDistinct [] = Unit {0}
AllDistinct (s ∷ names) = All (λ t. is_same s t ≡ false) names × AllDistinct names

abbrev is_new : Bytes → List Bytes → Bool
is_new s [] = true
is_new s (t ∷ names) = not (is_same s t) && is_new s names

abbrev all_distinct : List Bytes → Bool
all_distinct [] = true
all_distinct (s ∷ names) = is_new s names && all_distinct names

-- A prefix keeps names apart.
is_new_lem :
    (prefix s : Bytes) (names : List Bytes)
    → is_new s names ≡ true
    → All (λ t. is_same (prefix ++ s) t ≡ false) (map (λ t. prefix ++ t) names)
is_new_lem prefix s [] h = tt
is_new_lem prefix s (t ∷ names) h =
    (ground (arith, h, prefixed prefix s t), is_new_lem prefix s names (ground (arith, h)))

all_distinct_lem :
    (prefix : Bytes) (names : List Bytes)
    → all_distinct names ≡ true
    → AllDistinct (map (λ t. prefix ++ t) names)
all_distinct_lem prefix [] h = tt
all_distinct_lem prefix (s ∷ names) h = (
  is_new_lem prefix s names (ground (arith, h)),
  all_distinct_lem prefix names (ground (arith, h)),
)

abbrev suffixes : List Bytes
suffixes =
    map (λ d. d.0)
      (queue_families
        ++ channel_families
        ++ status_families
        ++ map (λ d. (codes "_mqi_" ++ d.0, d.1)) mqi_defs
        ++ collection_families)

-- Whatever the configuration, no two of the families that `init_metrics` registers have the same
-- name.
pub init_metrics-AllDistinct :
    (prometheus : PrometheusConfig) → AllDistinct (map (λ d. d.0) (init_metrics prometheus))
unfolding init_metrics
init_metrics-AllDistinct prometheus = all_distinct_lem (metric_prefix prometheus) suffixes refl
