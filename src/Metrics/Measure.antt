-- ===== src/Metrics/Measure.antt =====
-- The end of `fillOne` of pkg/metrics/gcp/client.go, pkg/metrics/aws/client.go and
-- pkg/metrics/azure/client.go, as far as they are alike: what becomes of the samples of a resource.
use tellury.Base.{ℕ, zero, suc, ◌*◌, ◌/◌, String, not, Option, none, some, ltb, if◌then◌else◌}
use tellury.Float.{Numeric}
use tellury.Graph.Node.{MetricValue}
use tellury.Metrics.Percentile.{Sample, Rounding}
use tellury.Metrics.Reduce.{Reduction, reduced, unsupported}

-- No sample and no metric; an error, by its key; or the value that `set` is called with.
pub data Enrichment (F : Type 0) : Type 0 where
  absent : Enrichment F
  failed : (key backend time_stat : String) → Enrichment F
  written : MetricValue F → Enrichment F

-- `windowDays * 86400 / period`, or 0 without a period.
abbrev pub expected_of : ℕ → ℕ → ℕ
expected_of window_days zero = 0
expected_of window_days (suc period) = window_days * 86400 / suc period

-- `ScaleDown` of a spec of AWS or Azure, if there is one.
abbrev pub scaled : {F : Type 0} → Option (F → F) → Sample F → Sample F
scaled none s = s
scaled (some f) s = record { timestamp = s.timestamp; value = f s.value }

module _ {F : Type 0} (x : Numeric F) (r : Rounding F) where
  abbrev pub capped : F → F
  capped coverage = if x.order.lt (x.literal "1") coverage then x.literal "1" else coverage

  unfoldable pub coverage_of : (samples expected : ℕ) → F
  coverage_of samples expected =
      if ltb 0 expected
      then capped (x.div (r.from_count samples) (r.from_count expected))
      else x.literal "0.0"

  -- The two tests of pkg/metrics/gcp/client.go.
  unfoldable pub clamp_tests : F → F → F → F
  clamp_tests v lo hi =
      let raised = if x.order.lt v lo then lo else v in if x.order.lt hi raised then hi else raised

  -- `clamp` of the other two clients.
  unfoldable pub clamp : F → F → F → F
  clamp v lo hi =
      if not (x.order.eq v v)
      then lo
      else if x.order.lt v lo
      then lo
      else if x.order.lt hi v
      then hi
      else v

-- What is done with the reduced value: the error is wrapped with the key.
abbrev pub settled :
    {F : Type 0} → String → (F → MetricValue F) → Option (Reduction F) → Option (Enrichment F)
settled key m none = none
settled key m (some (unsupported backend time_stat)) = some (failed key backend time_stat)
settled key m (some (reduced v)) = some (written (m v))
