-- ===== src/Metrics/Azure.antt =====
-- pkg/metrics/azure/spec.go, window.go, reduce.go and the end of `fillOne` of client.go: metrics of
-- Azure Monitor.
use tellury.Base.{ℕ, ◌<>◌, String, Option, some, List, [], ◌∷◌, map, ltb, length, if◌then◌else◌}
use tellury.Float.{Numeric}
use tellury.Graph.Node.{MetricValue}
use tellury.Metrics.Percentile.{Sample, Rounding}
use tellury.Metrics.Reduce.{Reduction, by_time}
use tellury.Metrics.Reduce
use tellury.Metrics.Measure.{Enrichment, absent, scaled, settled, expected_of, coverage_of, clamp}

pub record Spec (F : Type 0) : Type 0 where
  pub key : String
  pub metric_name : String
  pub namespace : String
  pub aggregation : String
  pub interval : String
  pub unit : String
  pub time_stat : String
  pub quantile : F
  pub window_days : ℕ
  pub min_samples : ℕ
  pub min_coverage : F
  pub clamp_lo : F
  pub clamp_hi : F
  pub scale_down : Option (F → F)

unfoldable pub window : {F : Type 0} → ℕ → Spec F → ℕ
window requested spec = if ltb 0 spec.window_days then spec.window_days else requested

module _ {F : Type 0} (x : Numeric F) (r : Rounding F) where
  unfoldable pub reduce_time_stat : Spec F → List (Sample F) → Option (Reduction F)
  reduce_time_stat spec series =
      Reduce.reduce_time_stat x r "azure metrics" spec.time_stat spec.quantile series

  abbrev pub metric_value : Spec F → (window_days expected start end : ℕ) → ℕ → F → MetricValue F
  metric_value spec window_days expected start end samples value = record {
    value = clamp x r value spec.clamp_lo spec.clamp_hi;
    unit = spec.unit;
    stat = spec.time_stat;
    window_days = window_days;
    samples = samples;
    expected_samples = expected;
    coverage = coverage_of x r samples expected;
    source = "azuremonitor:" <> (spec.namespace <> (":" <> spec.metric_name));
    aligner = spec.aggregation;
    reducer = "REDUCE_NONE";
    window_start = start;
    window_end = end;
  }

  -- What `fillOne` does with the points of a metric of a machine. `period` is
  -- `intervalSeconds` of the interval.
  unfoldable pub measure :
      Spec F → (window_days period start end : ℕ) → List (Sample F) → Option (Enrichment F)
  unfolding reduce_time_stat
  measure spec window_days period start end [] = some absent
  measure spec window_days period start end (s ∷ ss) =
      settled spec.key
        (metric_value spec window_days (expected_of window_days period) start end (length (s ∷ ss)))
        (reduce_time_stat spec (by_time (map (scaled spec.scale_down) (s ∷ ss))))
