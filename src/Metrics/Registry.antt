-- ===== src/Metrics/Registry.antt =====
-- The gauges of a prometheus-cpp registry, as src/metrics_collector.cpp uses them. The registry is a
-- parameter: what a gauge is changed to, and what is exposed of it.
use ibmmq_metrics_exporter.Base.{ℕ, ◌≡◌, false, ◌&&◌, Option, none, some, is_same}
use ibmmq_metrics_exporter.Memory.{Bytes}
use ibmmq_metrics_exporter.Metrics.Labels.{Labels, is_same_labels}

-- A `double`, as it is made: of an integer, which is a bit pattern, of a number of seconds, of a
-- raw number and its divisor, or as a sum.
pub data Value : Type 0 where
  of_int32 of_int64 of_seconds : ℕ → Value
  of_quotient : ℕ → ℕ → Value
  plus : Value → Value → Value

abbrev pub zero_value : Value
zero_value = of_int32 0

-- `Set(v)` and `Increment(v)`.
pub data Change : Type 0 where
  sets increments : Value → Change

abbrev pub changed : Change → Value → Value
changed (sets v) old = v
changed (increments v) old = plus old v

abbrev pub value_or_zero : Option Value → Value
value_or_zero none = zero_value
value_or_zero (some v) = v

-- `family->Add(labels)` with a change of the gauge, and the value that is exposed for a family's
-- name and labels.
pub record Registry (V : Type 0) : Type 0 where
  pub change : Bytes → Labels → Change → V → V
  pub exposed : Bytes → Labels → V → Option Value

-- A new gauge is 0, a changed one exposes its new value, and no other gauge is touched.
pub record RegistryLaws {V : Type 0} (registry : Registry V) : Type 0 where
  pub at :
      (family : Bytes) (labels : Labels) (c : Change) (v : V)
      → registry.exposed family labels (registry.change family labels c v)
        ≡ some (changed c (value_or_zero (registry.exposed family labels v)))
  pub elsewhere :
      (family : Bytes) (labels : Labels) (c : Change) (v : V) (family' : Bytes) (labels' : Labels)
      → (is_same family family' && is_same_labels labels labels') ≡ false
      → registry.exposed family' labels' (registry.change family labels c v)
        ≡ registry.exposed family' labels' v
