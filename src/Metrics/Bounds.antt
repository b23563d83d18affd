-- ===== src/Metrics/Bounds.antt =====
-- What `fillOne` of the three clients of pkg/metrics writes for a resource.
use tellury.Base.{
  ℕ, suc, ◌-◌, String, false, ◌≡◌, refl, ap, ◌∙◌, Option, some, List, [], ◌∷◌, map, length, ltb,
  any, str_eq, arith, Bool-cases, inl, inr,
}
use tellury.Base.Sort
use tellury.Float.{IsOrdered, Numeric}
use tellury.Graph.Node.{MetricValue}
use tellury.Metrics.Percentile.{Sample, Rounding}
use tellury.Metrics.Reduce.{Reduction, reduced, unsupported, mean_of, reduce_time_stat, by_time}
use tellury.Metrics.Rank.{p95_of-IsRanked, elem_of_lt, length-values}
use tellury.Metrics.Measure.{
  Enrichment, scaled, absent, failed, written, coverage_of, clamp, clamp_tests, settled,
}
use tellury.Metrics.Gcp
use tellury.Metrics.Aws
use tellury.Metrics.Azure

abbrev statistics : List String
statistics = "p95" ∷ "mean" ∷ "first" ∷ "last" ∷ []

module _ {F : Type 0} (x : Numeric F) where
  -- What a written metric promises of its numbers.
  pub record IsWithin (lo hi : F) (count : ℕ) (m : MetricValue F) : Type 0 where
    pub not_low : x.order.lt m.value lo ≡ false
    pub not_high : x.order.lt hi m.value ≡ false
    pub not_over : x.order.lt (x.literal "1") m.coverage ≡ false
    pub counted : m.samples ≡ count

  -- Just an empty series leaves the metric absent, and just an unknown statistic is an error.
  abbrev pub Fate : (lo hi : F) → String → List (Sample F) → Enrichment F → Type 0
  Fate lo hi stat series absent = series ≡ []
  Fate lo hi stat series (failed key backend s) = any (str_eq stat) statistics ≡ false
  Fate lo hi stat series (written m) = IsWithin lo hi (length series) m

module _ {F : Type 0} (x : Numeric F) (r : Rounding F) (o : IsOrdered x.order)
    (unit_interval : x.order.lt (x.literal "1") (x.literal "0.0") ≡ false) where
  irrefl : (a : F) → x.order.lt a a ≡ false
  irrefl a = ground (arith, o.asym a a)

  coverage_of-le :
      (n expected : ℕ) → x.order.lt (x.literal "1") (coverage_of x r n expected) ≡ false
  unfolding coverage_of
  coverage_of-le n expected = ground (arith, irrefl (x.literal "1"), unit_interval)

  clamp-low : (v lo hi : F) → x.order.lt hi lo ≡ false → x.order.lt (clamp x r v lo hi) lo ≡ false
  unfolding clamp
  clamp-low v lo hi h = ground (arith, irrefl lo)

  clamp-high : (v lo hi : F) → x.order.lt hi lo ≡ false → x.order.lt hi (clamp x r v lo hi) ≡ false
  unfolding clamp
  clamp-high v lo hi h = ground (arith, irrefl hi)

  clamp_tests-low :
      (v lo hi : F) → x.order.lt hi lo ≡ false → x.order.lt (clamp_tests x r v lo hi) lo ≡ false
  unfolding clamp_tests
  clamp_tests-low v lo hi h = ground (arith, irrefl lo)

  clamp_tests-high :
      (v lo hi : F) → x.order.lt hi lo ≡ false → x.order.lt hi (clamp_tests x r v lo hi) ≡ false
  unfolding clamp_tests
  clamp_tests-high v lo hi h = ground (arith, irrefl hi)

  -- A series with a sample is reduced, unless the statistic is unknown; nothing panics.
  abbrev Reduces : String → Reduction F → Type 0
  Reduces stat (reduced v) = Unit
  Reduces stat (unsupported backend s) = any (str_eq stat) statistics ≡ false

  reduces :
      (backend stat : String) (q : F) (s : Sample F) (ss : List (Sample F))
      → (out : Reduction F) × (reduce_time_stat x r backend stat q (s ∷ ss) ≡ some out)
        × Reduces stat out
  unfolding reduce_time_stat
  reduces backend stat q s ss =
      let p95 = p95_of-IsRanked x r o q s ss in
      let last =
        elem_of_lt x.order o (map (λ p. p.value) (s ∷ ss)) (length (s ∷ ss) - 1)
          (omega (arith, length-values x r (s ∷ ss))) in
      elim (Bool-cases (str_eq stat "p95")) [
        | inl is_p95 ↦ (reduced p95.0, rw (is_p95, p95.1) refl, tt)
        | inr not_p95 ↦ elim (Bool-cases (str_eq stat "mean")) [
          | inl is_mean ↦ (reduced (mean_of x r (s ∷ ss)), rw (not_p95, is_mean) refl, tt)
          | inr not_mean ↦ elim (Bool-cases (str_eq stat "first")) [
            | inl is_first ↦ (reduced s.value, rw (not_p95, not_mean, is_first) refl, tt)
            | inr not_first ↦ elim (Bool-cases (str_eq stat "last")) [
              | inl is_last ↦
                  (reduced last.0, rw (not_p95, not_mean, not_first, is_last, last.1) refl, tt)
              | inr not_last ↦ (
                unsupported backend stat,
                rw (not_p95, not_mean, not_first, not_last) refl,
                rw (not_p95, not_mean, not_first, not_last) refl,
              )
            ]
          ]
        ]
      ]

  settles :
      (lo hi : F) (key stat : String) (m : F → MetricValue F) (series : List (Sample F))
      → ((v : F) → IsWithin x lo hi (length series) (m v))
      → (from : Option (Reduction F)) (out : Reduction F) → from ≡ some out
      → Reduces stat out
      → (end : Enrichment F) × (settled key m from ≡ some end) × Fate x lo hi stat series end
  settles lo hi key stat m series bounds from (reduced v) e h =
      (written (m v), ap (settled key m) e, bounds v)
  settles lo hi key stat m series bounds from (unsupported b t) e h =
      (failed key b t, ap (settled key m) e, h)

  -- The same of a series that has some sample.
  reduce_nonempty :
      (backend stat : String) (q : F) (n : ℕ) (series : List (Sample F))
      → length series ≡ suc n
      → (out : Reduction F) × (reduce_time_stat x r backend stat q series ≡ some out)
        × Reduces stat out
  reduce_nonempty backend stat q n [] size = absurd (omega arith)
  reduce_nonempty backend stat q n (s ∷ ss) size = reduces backend stat q s ss

  length-by_time : (series : List (Sample F)) → length (by_time series) ≡ length series
  unfolding by_time
  length-by_time series = Sort.length-sort (λ a b. ltb a.timestamp b.timestamp) series

  length-map : (f : Sample F → Sample F) (ss : List (Sample F)) → length (map f ss) ≡ length ss
  length-map f [] = refl
  length-map f (s ∷ ss) = ap suc (length-map f ss)

  gcp-Fate :
      (spec : Gcp.Spec F) (requested start end : ℕ) (source : String) (series : List (Sample F))
      → x.order.lt spec.clamp_hi spec.clamp_lo ≡ false
      → (out : Enrichment F) × (Gcp.measure x r spec requested start end source series ≡ some out)
        × Fate x spec.clamp_lo spec.clamp_hi spec.time_stat series out
  unfolding Gcp.measure Gcp.reduce_time_stat
  gcp-Fate spec requested start end source [] h = (absent, refl, refl)
  gcp-Fate spec requested start end source (s ∷ ss) h =
      let done =
        reduce_nonempty "gcp metrics" spec.time_stat spec.quantile (length ss) (by_time (s ∷ ss))
          (length-by_time (s ∷ ss)) in
      settles spec.clamp_lo spec.clamp_hi spec.key spec.time_stat _ (s ∷ ss)
        (λ v. record {
          not_low = clamp_tests-low v spec.clamp_lo spec.clamp_hi h;
          not_high = clamp_tests-high v spec.clamp_lo spec.clamp_hi h;
          not_over = coverage_of-le _ _;
          counted = refl;
        })
        _ done.0 done.1 done.2

  aws-Fate :
      (spec : Aws.Spec F) (requested start end : ℕ) (series : List (Sample F))
      → x.order.lt spec.clamp_hi spec.clamp_lo ≡ false
      → (out : Enrichment F) × (Aws.measure x r spec requested start end series ≡ some out)
        × Fate x spec.clamp_lo spec.clamp_hi spec.time_stat series out
  unfolding Aws.measure Aws.reduce_time_stat
  aws-Fate spec requested start end [] h = (absent, refl, refl)
  aws-Fate spec requested start end (s ∷ ss) h =
      let series = map (scaled spec.scale_down) (s ∷ ss) in
      let done =
        reduce_nonempty "aws metrics" spec.time_stat spec.quantile (length ss) (by_time series)
          (length-by_time series ∙ length-map (scaled spec.scale_down) (s ∷ ss)) in
      settles spec.clamp_lo spec.clamp_hi spec.key spec.time_stat _ (s ∷ ss)
        (λ v. record {
          not_low = clamp-low v spec.clamp_lo spec.clamp_hi h;
          not_high = clamp-high v spec.clamp_lo spec.clamp_hi h;
          not_over = coverage_of-le _ _;
          counted = refl;
        })
        _ done.0 done.1 done.2

  azure-Fate :
      (spec : Azure.Spec F) (window_days period start end : ℕ) (series : List (Sample F))
      → x.order.lt spec.clamp_hi spec.clamp_lo ≡ false
      → (out : Enrichment F) × (Azure.measure x r spec window_days period start end series
          ≡ some out)
        × Fate x spec.clamp_lo spec.clamp_hi spec.time_stat series out
  unfolding Azure.measure Azure.reduce_time_stat
  azure-Fate spec window_days period start end [] h = (absent, refl, refl)
  azure-Fate spec window_days period start end (s ∷ ss) h =
      let series = map (scaled spec.scale_down) (s ∷ ss) in
      let done =
        reduce_nonempty "azure metrics" spec.time_stat spec.quantile (length ss) (by_time series)
          (length-by_time series ∙ length-map (scaled spec.scale_down) (s ∷ ss)) in
      settles spec.clamp_lo spec.clamp_hi spec.key spec.time_stat _ (s ∷ ss)
        (λ v. record {
          not_low = clamp-low v spec.clamp_lo spec.clamp_hi h;
          not_high = clamp-high v spec.clamp_lo spec.clamp_hi h;
          not_over = coverage_of-le _ _;
          counted = refl;
        })
        _ done.0 done.1 done.2

  -- Provided that the floats are ordered, 0 is not above 1 and the bounds of each spec do not
  -- cross, what the client of each cloud does with the samples of a resource never panics: it
  -- leaves the metric out just for no samples, fails only for a statistic that is unknown, and else
  -- writes a value within the bounds of the spec, with the number of the samples and a coverage of
  -- at most 1.
  pub measure-Fate :
      (gcp : Gcp.Spec F) (aws : Aws.Spec F) (azure : Azure.Spec F)
      → (requested period start end : ℕ) (source : String) (series : List (Sample F))
      → x.order.lt gcp.clamp_hi gcp.clamp_lo ≡ false
      → x.order.lt aws.clamp_hi aws.clamp_lo ≡ false
      → x.order.lt azure.clamp_hi azure.clamp_lo ≡ false
      → ((out : Enrichment F) × (Gcp.measure x r gcp requested start end source series ≡ some out)
          × Fate x gcp.clamp_lo gcp.clamp_hi gcp.time_stat series out)
        × ((out : Enrichment F) × (Aws.measure x r aws requested start end series ≡ some out)
            × Fate x aws.clamp_lo aws.clamp_hi aws.time_stat series out)
        × ((out : Enrichment F) × (Azure.measure x r azure
                (Azure.window requested azure)
                period
                start
                end
                series
              ≡ some out)
            × Fate x azure.clamp_lo azure.clamp_hi azure.time_stat series out)
  measure-Fate gcp aws azure requested period start end source series g a z = (
    gcp-Fate gcp requested start end source series g,
    aws-Fate aws requested start end series a,
    azure-Fate azure (Azure.window requested azure) period start end series z,
  )
