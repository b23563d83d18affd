-- ===== src/Metrics/Percentile.antt =====
-- pkg/metrics/metrics.go: `Sample`, `Series`, the metric keys and `Percentile`. A `Series` is a list
-- of samples.
use tellury.Base.{
  ℕ, zero, suc, ◌-◌, String, Bool, Option, none, some, List, [], ◌∷◌, ltb, length, any, str_eq,
  if◌then◌else◌,
}
use tellury.Base.Int.{ℤ, pos, negsuc, minus_one}
use tellury.Float.{Numeric}

pub record Sample (F : Type 0) : Type 0 where
  pub timestamp : ℕ
  pub value : F

unfoldable pub known_keys : List String
known_keys =
    "cpu_utilization_p95" ∷ "cpu_utilization_mean" ∷ "mem_utilization_p95"
    ∷ "bucket_total_bytes_mean" ∷ "bucket_total_bytes_first" ∷ "bucket_total_bytes_last"
    ∷ "bucket_object_count_last" ∷ []

unfoldable pub known_key : String → Bool
unfolding known_keys
known_key key = any (str_eq key) known_keys

-- Go's `xs[i]`, with `none` for the panic out of range.
abbrev pub get_elem? {ℓ} : {A : Type ℓ} → List A → ℕ → Option A
get_elem? [] i = none
get_elem? (x ∷ xs) zero = some x
get_elem? (x ∷ xs) (suc i) = get_elem? xs i

-- The conversions between `int` and `float64`, and `math.Ceil`.
pub record Rounding (F : Type 0) : Type 0 where
  pub from_count : ℕ → F
  pub ceil : F → F
  pub to_int : F → ℤ

-- The two tests of `idx`, of which the first reads `idx < 0`.
abbrev pub not_below_zero : ℤ → ℕ
not_below_zero (pos i) = i
not_below_zero (negsuc i) = 0

abbrev pub at_most : ℕ → ℕ → ℕ
at_most top i = if ltb top i then top else i

module _ {F : Type 0} (x : Numeric F) (r : Rounding F) where
  abbrev pub ceil_rank : F → ℕ → ℤ
  ceil_rank q n = r.to_int (r.ceil (x.mul q (r.from_count n)))

  unfoldable pub percentile_index : F → ℕ → ℕ
  percentile_index q n = at_most (n - 1) (not_below_zero (minus_one (ceil_rank q n)))

  unfoldable pub percentile : List F → F → Option F
  unfolding percentile_index
  percentile [] q = some (x.literal "0")
  percentile (v ∷ vs) q = get_elem? (v ∷ vs) (percentile_index q (length (v ∷ vs)))
