-- ===== src/Metrics/Gcp.antt =====
-- pkg/metrics/gcp/registry.go, window.go, reduce.go and the end of `fillOne` of client.go: metrics of Cloud Monitoring.
use tellury.Base.{ℕ, String, Option, some, List, [], ◌∷◌, ltb, length, if◌then◌else◌}
use tellury.Float.{Numeric}
use tellury.Graph.Node.{MetricValue}
use tellury.Metrics.Percentile.{Sample, Rounding}
use tellury.Metrics.Reduce.{Reduction, by_time}
use tellury.Metrics.Reduce
use tellury.Metrics.Measure.{Enrichment, absent, settled, expected_of, coverage_of, clamp_tests}

pub record Spec (F : Type 0) : Type 0 where
  pub key : String
  pub metric_types : List String
  pub monitored_resource_type : String
  pub join_label : String
  pub join_attr : String
  pub unit : String
  pub alignment_sec : ℕ
  pub aligner : String
  pub reducer : String
  pub time_stat : String
  pub quantile : F
  pub window_days : ℕ
  pub min_samples : ℕ
  pub min_coverage : F
  pub clamp_lo : F
  pub clamp_hi : F

unfoldable pub window : {F : Type 0} → ℕ → Spec F → ℕ
window requested spec = if ltb 0 spec.window_days then spec.window_days else requested

module _ {F : Type 0} (x : Numeric F) (r : Rounding F) where
  unfoldable pub reduce_time_stat : Spec F → List (Sample F) → Option (Reduction F)
  reduce_time_stat spec series =
      Reduce.reduce_time_stat x r "gcp metrics" spec.time_stat spec.quantile series

  abbrev pub metric_value :
      Spec F → (window_days expected start end : ℕ) → String → ℕ → F → MetricValue F
  metric_value spec window_days expected start end source samples value = record {
    value = clamp_tests x r value spec.clamp_lo spec.clamp_hi;
    unit = spec.unit;
    stat = spec.time_stat;
    window_days = window_days;
    samples = samples;
    expected_samples = expected;
    coverage = coverage_of x r samples expected;
    source = source;
    aligner = spec.aligner;
    reducer = spec.reducer;
    window_start = start;
    window_end = end;
  }

  -- What `fillOne` does with the samples of a resource, which came from the metric type `source`.
  unfoldable pub measure :
      Spec F → (requested start end : ℕ) → String → List (Sample F) → Option (Enrichment F)
  unfolding reduce_time_stat window
  measure spec requested start end source [] = some absent
  measure spec requested start end source (s ∷ ss) =
      let window_days = window requested spec in
      settled spec.key
        (metric_value spec window_days (expected_of window_days spec.alignment_sec) start end source
          (length (s ∷ ss)))
        (reduce_time_stat spec (by_time (s ∷ ss)))
