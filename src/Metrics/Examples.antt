-- ===== src/Metrics/Examples.antt =====
-- Series on which the results on metrics apply, with percents for floats. Tests of the reductions.
use tellury.Base.{
  ℕ, ◌+◌, ◌-◌, ◌*◌, str_eq, if◌then◌else◌, arith, ◌/◌, ◌≡◌, refl, none, some, List, [], ◌∷◌, map,
}
use tellury.Base.Int.{pos}
use tellury.Base.Sort
use tellury.Float.{Numeric, cents, cents-IsOrdered}
use tellury.Metrics.Percentile.{Sample, Rounding, percentile}
use tellury.Metrics.Reduce.{reduce_time_stat, reduced, p95_of, float_less}
use tellury.Metrics.Rank.{IsRanked, reduce_time_stat-IsRanked}
use tellury.Metrics.Measure.{Enrichment}
use tellury.Metrics.Bounds.{Fate, measure-Fate}
use tellury.Metrics.Gcp
use tellury.Metrics.Aws
use tellury.Metrics.Azure

abbrev wholes : Numeric ℕ
wholes = record {
  order = cents;
  add = ◌+◌;
  sub = ◌-◌;
  mul = ◌*◌;
  div = ◌/◌;
  neg = λ v. v;
  floor = λ v. v;
  round = λ v. v;
  literal = λ s. if str_eq s "1" then 1 else 0;
}

-- A quantile is a number of percents.
abbrev percents : Rounding ℕ
percents = record { from_count = λ n. n; ceil = λ v. (v + 99) / 100; to_int = pos }

abbrev sample : ℕ → ℕ → Sample ℕ
sample t v = record { timestamp = t; value = v }

abbrev later : List (Sample ℕ)
later = sample 1 70 ∷ sample 2 20 ∷ sample 4 50 ∷ []

abbrev cloud_monitoring : Gcp.Spec ℕ
cloud_monitoring = record {
  key = "cpu_utilization_p95";
  metric_types = "compute.googleapis.com/instance/cpu/utilization" ∷ [];
  monitored_resource_type = "gce_instance";
  join_label = "instance_id";
  join_attr = "instance_id";
  unit = "ratio";
  alignment_sec = 3600;
  aligner = "ALIGN_MEAN";
  reducer = "REDUCE_NONE";
  time_stat = "p95";
  quantile = 95;
  window_days = 0;
  min_samples = 168;
  min_coverage = 0;
  clamp_lo = 0;
  clamp_hi = 60;
}

abbrev cloud_watch : Aws.Spec ℕ
cloud_watch = record {
  key = "cpu_utilization_mean";
  namespace = "AWS/EC2";
  metric_name = "CPUUtilization";
  dimension_key = "InstanceId";
  join_attr = "instance_id";
  stat = "Average";
  period_sec = 3600;
  unit = "ratio";
  time_stat = "mean";
  quantile = 0;
  window_days = 7;
  min_samples = 168;
  min_coverage = 0;
  clamp_lo = 0;
  clamp_hi = 100;
  scale_down = some (λ v. v / 10);
}

abbrev azure_monitor : Azure.Spec ℕ
azure_monitor = record {
  key = "mem_utilization_p95";
  metric_name = "Available Memory Percentage";
  namespace = "Microsoft.Compute/virtualMachines";
  aggregation = "Average";
  interval = "PT1H";
  unit = "ratio";
  time_stat = "median";
  quantile = 0;
  window_days = 0;
  min_samples = 168;
  min_coverage = 0;
  clamp_lo = 0;
  clamp_hi = 100;
  scale_down = none;
}

reduce_time_stat-IsRanked_example :
    (v : ℕ) × (reduce_time_stat wholes percents "gcp metrics" "p95" 95 (sample 3 10 ∷ later)
      ≡ some (reduced v))
    × IsRanked cents (map (λ p. p.value) (sample 3 10 ∷ later)) 3 v
reduce_time_stat-IsRanked_example =
    reduce_time_stat-IsRanked wholes percents cents-IsOrdered "gcp metrics" 95 (sample 3 10) later 3
      refl (omega arith)

measure-Fate_example :
    ((out : Enrichment ℕ) × (Gcp.measure wholes percents cloud_monitoring 14 100 200 "cpu" later
        ≡ some out)
      × Fate wholes 0 60 "p95" later out)
    × ((out : Enrichment ℕ) × (Aws.measure wholes percents cloud_watch 14 100 200 later ≡ some out)
        × Fate wholes 0 100 "mean" later out)
    × ((out : Enrichment ℕ) × (Azure.measure wholes percents azure_monitor
            (Azure.window 14 azure_monitor)
            3600
            100
            200
            later
          ≡ some out)
        × Fate wholes 0 100 "median" later out)
measure-Fate_example =
    measure-Fate wholes percents cents-IsOrdered refl cloud_monitoring cloud_watch azure_monitor 14
      3600 100 200 "cpu" later refl refl refl

percentiles :
    map (λ q. p95_of wholes percents q (sample 3 10 ∷ later)) (0 ∷ 50 ∷ 95 ∷ 200 ∷ [])
    ≡ some 10 ∷ some 20 ∷ some 70 ∷ some 70 ∷ []
unfolding p95_of percentile Sort.sort float_less
percentiles = refl
