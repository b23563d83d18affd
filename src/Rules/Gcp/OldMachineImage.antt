-- ===== src/Rules/Gcp/OldMachineImage.antt =====
-- pkg/rules/gcp/compute/old_machine_image/rule.go: machine images older than the retention window.
pub mod Promise
use tellury.Base.{
  ℕ, String, Bool, true, false, not, ◌&&◌, ◌||◌, ◌==◌, ◌≡◌, refl, ap, ◌∙◌, Option, none, some, List,
  [], ◌∷◌, ◌++◌, str_eq, if◌then◌else◌, ◌<>◌, arith, Option-cases, Bool-cases, inl, inr, eq_iff,
}
use tellury.Base.Dict.{list_at}
use tellury.Float.{Numeric}
use tellury.Graph.Node.{Node, num, str, bool, metric_ok}
use tellury.Graph.Query.{in_degree}
use tellury.Graph.Reach.{Reach}
use tellury.Graph.Walk.{nodes_at}
use tellury.Pricing.Region.{region_of}
use tellury.Pricing.Provenance.{round_2}
use tellury.Rules.Types.{
  Evidence, Meta, Pass, NodeContext, CostBranch, Guard, NodeRule, Formats, set,
}
use tellury.Rules.Adapt.{Run, eval_node_rule, check_guards, auto_collect}
use tellury.Rules.Toolbox.{
  Services, Std, Stash, words, amount, entries, stashed_words, stashed_amount, stashed_entries,
  stashed_instant, num_or_zero, str_or_empty, bool_or_false, has_text, has_number, has_positive,
  parsed_time, node_time, days_since, round2, known_text, other_text, truth, stashed_truth, instant,
  known, value_or,
}
use tellury.Rules.Evidence.{
  price_evidence, price_evidence_for, PricedComponent, currency_of, ev_money_in,
}
use tellury.Rules.Passing.{plain, timed, aged}

abbrev old_machine_image_meta : Meta
old_machine_image_meta = record {
  id = "old_machine_image";
  provider = "gcp";
  service = "compute";
  title = "Machine image is older than the retention window";
  description =
      "A GCP machine image bills a flat per-GiB-month storage rate for as long as it exists. A machine image has no persistent reference path in the GA Compute API, so at or beyond the 90-day retention window it is idle storage and the entire monthly cost is reclaimable by deleting it.";
  severity = "low";
  required_asset_types = "compute.googleapis.com/MachineImage" ∷ [];
  required_metrics = [];
  remediation = "gcloud compute machine-images delete NAME";
  origin = "native";
  target_kind = "";
}

module _ {F : Type 0} (x : Numeric F) (std : Std F) where
  unfoldable pub machine_image_guards : List (Guard F (Stash F) (Services F))
  unfolding node_time parsed_time has_number has_positive has_text str_or_empty num_or_zero
      bool_or_false stashed_instant days_since in_degree
  machine_image_guards =
      plain "asset_type" "not_target_asset_type"
        (λ n p. str_eq n.asset_type "compute.googleapis.com/MachineImage")
      ∷ plain "storage_bytes_present" "missing_attribute" (λ n p. has_number n "storage_bytes")
      ∷ timed "creation_time_parseable" "missing_attribute" "created_at"
          (λ n. parsed_time n "creation_timestamp" std)
      ∷ plain "status_ready" "non_billing_status" (λ n p. str_eq (str_or_empty n "status") "READY")
      ∷ plain "storage_location_present" "missing_attribute" (λ n p. has_text n "storage_location")
      ∷ aged x std "old_enough" "too_young" (x.literal "90")
          (λ days nc. set nc "age_days" (amount days))
      ∷ []

  unfoldable pub machine_image_cost :
      ℕ
      → Node F
      → NodeContext (Stash F)
      → Pass F (Services F)
      → NodeContext (Stash F) × Option (List (CostBranch F))
  unfolding region_of round2 price_evidence currency_of num_or_zero
  machine_image_cost moment n nc p =
      let prices = p.services.prices in
      let size_gb = x.div (num_or_zero n "storage_bytes" x) (x.literal "1073741824") in
      let region = region_of std.to_lower n.location in
      elim (prices.pricer.unit_price "machine_image_storage" "gcp" "standard" region) [
        | none ↦ (nc, none)
        | some unit ↦
            let waste = x.mul size_gb unit.0 in
            let source =
              price_evidence "price_source" prices "machine_image_storage" "standard" unit.1 in
            let nc1 = set nc "currency" (words (currency_of prices)) in
            let nc1a = set nc1 "storage_gib" (amount size_gb) in
            let nc2 = set nc1a "unit_price_gib_month" (amount unit.0) in
            (
              set nc2 "price_source" (entries (source ∷ [])),
              some (
                  record {
                    waste = round2 x waste;
                    confidence = x.literal "0.7";
                    label = "delete_machine_image";
                  }
                  ∷ []),
            )
      ]

  unfoldable pub machine_image_evidence :
      Node F → NodeContext (Stash F) → CostBranch F → List Evidence
  unfolding has_text has_number str_or_empty num_or_zero stashed_words stashed_amount
      stashed_entries ev_money_in
  machine_image_evidence n nc branch =
      record { key = "storage_gib"; value = std.show_fixed 2 (stashed_amount nc "storage_gib" x) }
      ∷ record { key = "age_days"; value = std.show_fixed 0 (stashed_amount nc "age_days" x) }
      ∷ record { key = "size_basis"; value = "total_storage_bytes" }
      ∷ ev_money_in std "unit_price_gib_month" (stashed_words nc "currency")
          (stashed_amount nc "unit_price_gib_month" x) 4
      ∷ ((if has_text n "storage_location"
            then record { key = "storage_location"; value = str_or_empty n "storage_location" } ∷ []
            else [])
          ++ stashed_entries nc "price_source")

  unfoldable pub old_machine_image : NodeRule F (Stash F) (Services F)
  unfolding machine_image_guards machine_image_cost machine_image_evidence
  old_machine_image = record {
    meta = old_machine_image_meta;
    kind = "image";
    guards = machine_image_guards;
    cost = machine_image_cost;
    min_waste = x.literal "0.10";
    evidence_keys = "storage_bytes" ∷ "creation_timestamp" ∷ [];
    extra_evidence = machine_image_evidence;
  }
