-- ===== src/Rules/Gcp/NoLifecyclePolicy.antt =====
-- pkg/rules/gcp/gcs/no_lifecycle_policy/rule.go: buckets of the standard class without lifecycle rules.
pub mod Promise
use tellury.Base.{
  ℕ, String, Bool, true, false, not, ◌&&◌, ◌||◌, ◌==◌, ◌≡◌, refl, ap, ◌∙◌, Option, none, some, List,
  [], ◌∷◌, ◌++◌, str_eq, if◌then◌else◌, ◌<>◌, arith, Option-cases, Bool-cases, inl, inr, eq_iff,
}
use tellury.Base.Dict.{list_at}
use tellury.Float.{Numeric}
use tellury.Graph.Node.{Node, num, str, bool, metric_ok}
use tellury.Graph.Query.{in_degree}
use tellury.Graph.Reach.{Reach}
use tellury.Graph.Walk.{nodes_at}
use tellury.Pricing.Region.{region_of}
use tellury.Pricing.Provenance.{round_2}
use tellury.Rules.Types.{
  Evidence, Meta, Pass, NodeContext, CostBranch, Guard, NodeRule, Formats, set,
}
use tellury.Rules.Adapt.{Run, eval_node_rule, check_guards, auto_collect}
use tellury.Rules.Toolbox.{
  Services, Std, Stash, words, amount, entries, stashed_words, stashed_amount, stashed_entries,
  stashed_instant, num_or_zero, str_or_empty, bool_or_false, has_text, has_number, has_positive,
  parsed_time, node_time, days_since, round2, known_text, other_text, truth, stashed_truth, instant,
  known, value_or,
}
use tellury.Rules.Evidence.{
  price_evidence, price_evidence_for, PricedComponent, currency_of, ev_money_in,
}
use tellury.Rules.Passing.{plain, timed, aged}

abbrev no_lifecycle_policy_meta : Meta
no_lifecycle_policy_meta = record {
  id = "no_lifecycle_policy";
  provider = "gcp";
  service = "gcs";
  title = "Bucket has no lifecycle policy";
  description =
      "A STANDARD-class bucket with zero lifecycle rules keeps all objects at full price forever. A class-transition rule to NEARLINE reclaims the delta on the cold fraction of stored bytes.";
  severity = "low";
  required_asset_types = "storage.googleapis.com/Bucket" ∷ [];
  required_metrics = "bucket_total_bytes_mean" ∷ [];
  remediation = "gcloud storage buckets update gs://NAME --lifecycle-file=lifecycle.json";
  origin = "native";
  target_kind = "";
}

module _ {F : Type 0} (x : Numeric F) (std : Std F) where
  unfoldable pub normalize_storage_class : String → String
  normalize_storage_class c =
      if str_eq c "MULTI_REGIONAL" || str_eq c "REGIONAL" || str_eq c "DURABLE_REDUCED_AVAILABILITY"
      then "STANDARD"
      else c

  abbrev metric_sufficient : Guard F (Stash F) (Services F)
  metric_sufficient = record {
    skip_code = "no_metric";
    name = "metric_sufficient";
    check = λ n nc p. elim (metric_ok x.order n "bucket_total_bytes_mean" 7 (x.literal "0.20")) [
      | none ↦ (false, nc)
      | some m ↦ (true, set nc "total_bytes" (amount m.value))
    ];
  }

  abbrev min_bytes_reached : Guard F (Stash F) (Services F)
  min_bytes_reached = record {
    skip_code = "below_min_bytes";
    name = "min_bytes_reached";
    check =
        λ n nc p. (x.order.le (x.literal "10737418240") (stashed_amount nc "total_bytes" x), nc);
  }

  unfoldable pub lifecycle_guards : List (Guard F (Stash F) (Services F))
  unfolding stashed_amount node_time parsed_time has_number has_positive has_text str_or_empty
      num_or_zero bool_or_false stashed_instant days_since in_degree
  lifecycle_guards =
      plain "bucket_name_present" "missing_attribute" (λ n p. has_text n "bucket_name")
      ∷ plain "lifecycle_count_present" "missing_attribute"
          (λ n p. has_number n "lifecycle_rule_count")
      ∷ plain "storage_class_present" "missing_attribute" (λ n p. has_text n "storage_class")
      ∷ plain "no_lifecycle_rules" "has_lifecycle"
          (λ n p. x.order.eq (num_or_zero n "lifecycle_rule_count" x) x.order.nought)
      ∷ plain "standard_class" "not_standard_class"
          (λ n p. str_eq (normalize_storage_class (str_or_empty n "storage_class")) "STANDARD")
      ∷ plain "no_autoclass" "autoclass_enabled" (λ n p. not (bool_or_false n "autoclass_enabled"))
      ∷ plain "not_retention_locked" "retention_locked"
          (λ n p. not (bool_or_false n "retention_locked"))
      ∷ metric_sufficient
      ∷ min_bytes_reached
      ∷ []

  unfoldable pub lifecycle_cost :
      ℕ
      → Node F
      → NodeContext (Stash F)
      → Pass F (Services F)
      → NodeContext (Stash F) × Option (List (CostBranch F))
  unfolding region_of round2 price_evidence currency_of stashed_amount
  lifecycle_cost moment n nc p =
      let prices = p.services.prices in
      let region = region_of std.to_lower n.location in
      elim (prices.pricer.unit_price "gcs_storage" "gcp" "STANDARD" region) [
        | none ↦ (nc, none)
        | some from ↦ elim (prices.pricer.unit_price "gcs_storage" "gcp" "NEARLINE" region) [
          | none ↦ (nc, none)
          | some to ↦
              let delta = x.sub from.0 to.0 in
              let total_gib = x.div (stashed_amount nc "total_bytes" x) (x.literal "1073741824") in
              let waste = x.mul (x.mul total_gib (x.literal "0.60")) delta in
              let from_source =
                price_evidence "from_price_source" prices "gcs_storage" "STANDARD" from.1 in
              let to_source =
                price_evidence "to_price_source" prices "gcs_storage" "NEARLINE" to.1 in
              let nc1 = set nc "currency" (words (currency_of prices)) in
              let nc2 = set nc1 "delta_per_gb_month" (amount delta) in
              let nc3 = set nc2 "from_price_source" (entries (from_source ∷ [])) in
              (
                set nc3 "to_price_source" (entries (to_source ∷ [])),
                some (
                    record {
                      waste = waste;
                      confidence = round2 x (x.literal "0.6");
                      label = "class_transition";
                    }
                    ∷ []),
              )
        ]
      ]

  unfoldable pub lifecycle_evidence : Node F → NodeContext (Stash F) → CostBranch F → List Evidence
  unfolding has_text has_number str_or_empty num_or_zero stashed_words stashed_amount
      stashed_entries ev_money_in
  lifecycle_evidence n nc branch =
      record { key = "total_bytes"; value = std.show_fixed 0 (stashed_amount nc "total_bytes" x) }
      ∷ record { key = "storage_class"; value = str_or_empty n "storage_class" }
      ∷ record {
        key = "lifecycle_rules";
        value = std.show_fixed 0 (num_or_zero n "lifecycle_rule_count" x);
      }
      ∷ record { key = "cold_fraction"; value = std.show_fixed 2 (x.literal "0.60") }
      ∷ ev_money_in std "delta_per_gb_month" (stashed_words nc "currency")
          (stashed_amount nc "delta_per_gb_month" x) 4
      ∷ (stashed_entries nc "from_price_source" ++ stashed_entries nc "to_price_source")

  unfoldable pub no_lifecycle_policy : NodeRule F (Stash F) (Services F)
  unfolding lifecycle_guards lifecycle_cost lifecycle_evidence
  no_lifecycle_policy = record {
    meta = no_lifecycle_policy_meta;
    kind = "bucket";
    guards = lifecycle_guards;
    cost = lifecycle_cost;
    min_waste = x.literal "0.0";
    evidence_keys = [];
    extra_evidence = lifecycle_evidence;
  }
