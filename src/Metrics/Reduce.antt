-- ===== src/Metrics/Reduce.antt =====
-- `reduceTimeStat`, which pkg/metrics/gcp/reduce.go, pkg/metrics/aws/reduce.go and
-- pkg/metrics/azure/reduce.go have alike. `none` is the panic on an index out of range.
use tellury.Base.{
  ℕ, ◌-◌, String, Bool, not, ◌||◌, ◌&&◌, Option, none, some, List, [], ◌∷◌, ltb, map, length,
  str_eq, if◌then◌else◌,
}
use tellury.Base.Sort
use tellury.Float.{Float64, Numeric}
use tellury.Metrics.Percentile.{Sample, Rounding, percentile, get_elem?}

-- What `reduceTimeStat` returns: a value, or the error on a statistic that the backend lacks.
pub data Reduction (F : Type 0) : Type 0 where
  reduced : F → Reduction F
  unsupported : (backend time_stat : String) → Reduction F

-- The order of `sort.Float64s`, with a NaN first.
unfoldable pub float_less : {F : Type 0} → Float64 F → F → F → Bool
float_less f a b = f.lt a b || (not (f.eq a a) && f.eq b b)

abbrev pub sum_from : {F : Type 0} → Numeric F → F → List (Sample F) → F
sum_from x sum [] = sum
sum_from x sum (s ∷ ss) = sum_from x (x.add sum s.value) ss

abbrev pub reduced_to : {F : Type 0} → Option F → Option (Reduction F)
reduced_to none = none
reduced_to (some v) = some (reduced v)

abbrev pub value_at : {F : Type 0} → List (Sample F) → ℕ → Option F
value_at series i = get_elem? (map (λ s. s.value) series) i

module _ {F : Type 0} (x : Numeric F) (r : Rounding F) where
  unfoldable pub p95_of : F → List (Sample F) → Option F
  p95_of quantile series =
      percentile x r (Sort.sort (float_less x.order) (map (λ s. s.value) series)) quantile

  unfoldable pub mean_of : List (Sample F) → F
  mean_of series = x.div (sum_from x (x.literal "0") series) (r.from_count (length series))

  unfoldable pub reduce_time_stat :
      (backend time_stat : String) → F → List (Sample F) → Option (Reduction F)
  unfolding p95_of mean_of
  reduce_time_stat backend time_stat quantile series =
      if str_eq time_stat "p95"
      then reduced_to (p95_of quantile series)
      else if str_eq time_stat "mean"
      then some (reduced (mean_of series))
      else if str_eq time_stat "first"
      then reduced_to (value_at series 0)
      else if str_eq time_stat "last"
      then reduced_to (value_at series (length series - 1))
      else some (unsupported backend time_stat)

-- `sort.Slice` by `Timestamp.Before`.
unfoldable pub by_time : {F : Type 0} → List (Sample F) → List (Sample F)
by_time series = Sort.sort (λ a b. ltb a.timestamp b.timestamp) series
