-- ===== src/Rules/Aws/UnusedAmi.antt =====
-- pkg/rules/aws/ec2/unused_ami/rule.go: machine images that nothing refers to.
pub mod Promise
use tellury.Base.{
  ℕ, String, Bool, true, false, not, ◌&&◌, ◌||◌, ◌==◌, ◌≡◌, refl, ap, ◌∙◌, Option, none, some, List,
  [], ◌∷◌, ◌++◌, str_eq, if◌then◌else◌, ◌<>◌, arith, Option-cases, Bool-cases, inl, inr, eq_iff,
}
use tellury.Base.Dict.{list_at}
use tellury.Float.{Numeric}
use tellury.Graph.Node.{Node, num, str, bool, metric_ok}
use tellury.Graph.Query.{in_degree}
use tellury.Graph.Reach.{Reach}
use tellury.Graph.Walk.{nodes_at}
use tellury.Pricing.Region.{region_of}
use tellury.Pricing.Provenance.{round_2}
use tellury.Rules.Types.{
  Evidence, Meta, Pass, NodeContext, CostBranch, Guard, NodeRule, Formats, set,
}
use tellury.Rules.Adapt.{Run, eval_node_rule, check_guards, auto_collect}
use tellury.Rules.Toolbox.{
  Services, Std, Stash, words, amount, entries, stashed_words, stashed_amount, stashed_entries,
  stashed_instant, num_or_zero, str_or_empty, bool_or_false, has_text, has_number, has_positive,
  parsed_time, node_time, days_since, round2, known_text, other_text, truth, stashed_truth, instant,
  known, value_or,
}
use tellury.Rules.Evidence.{
  price_evidence, price_evidence_for, PricedComponent, currency_of, ev_money_in,
}
use tellury.Rules.Passing.{plain, timed, aged}

abbrev unused_ami_meta : Meta
unused_ami_meta = record {
  id = "unused_ami";
  provider = "aws";
  service = "ec2";
  title = "AMI is not referenced by any instance, launch template, launch configuration, or fleet";
  description =
      "A customer-owned AMI costs nothing on its own, but the EBS snapshots named by its block-device mappings bill every month. When nothing references the AMI, deregister it and delete the snapshots it exclusively owns to reclaim that storage spend.";
  severity = "medium";
  required_asset_types = "aws.ec2.image" ∷ [];
  required_metrics = [];
  remediation =
      "aws ec2 deregister-image --image-id IMAGE_ID && aws ec2 delete-snapshot --snapshot-id SNAPSHOT_ID";
  origin = "native";
  target_kind = "";
}

module _ {F : Type 0} (x : Numeric F) (std : Std F) where
  unfoldable pub ami_guards : List (Guard F (Stash F) (Services F))
  unfolding node_time parsed_time has_number has_positive has_text str_or_empty num_or_zero
      bool_or_false stashed_instant days_since in_degree
  ami_guards =
      plain "asset_type" "not_target_asset_type" (λ n p. str_eq n.asset_type "aws.ec2.image")
      ∷ plain "image_id_present" "missing_attribute" (λ n p. has_text n "image_id")
      ∷ timed "creation_time_parseable" "missing_attribute" "created_at"
          (λ n. parsed_time n "creation_timestamp" std)
      ∷ plain "state_available" "non_billing_status"
          (λ n p. str_eq (str_or_empty n "state") "available")
      ∷ plain "backing_complete" "missing_attribute" (λ n p. bool_or_false n "backing_complete")
      ∷ plain "references_complete" "references_unknown"
          (λ n p. bool_or_false n "references_complete")
      ∷ plain "not_referenced" "in_use"
          (λ n p. x.order.eq (num_or_zero n "reference_count" x) x.order.nought)
      ∷ aged x std "old_enough" "too_young" (x.literal "90.0")
          (λ days nc. set nc "age_days" (amount days))
      ∷ []

  unfoldable pub ami_cost :
      ℕ
      → Node F
      → NodeContext (Stash F)
      → Pass F (Services F)
      → NodeContext (Stash F) × Option (List (CostBranch F))
  unfolding region_of round_2 price_evidence currency_of num_or_zero
  ami_cost moment n nc p =
      let prices = p.services.prices in
      let size_gb = num_or_zero n "backing_exclusive_size_gb" x in
      let region = region_of std.to_lower n.location in
      elim (prices.pricer.unit_price "snapshot_storage" "aws" "standard" region) [
        | none ↦ (nc, none)
        | some unit ↦
            let waste = x.mul size_gb unit.0 in
            let source =
              price_evidence "price_source" prices "snapshot_storage" "standard" unit.1 in
            let nc1 = set nc "currency" (words (currency_of prices)) in
            let nc1a = set nc1 "exclusive_size_gb" (amount size_gb) in
            let nc2 = set nc1a "unit_price" (amount unit.0) in
            (
              set nc2 "price_source" (entries (source ∷ [])),
              some (
                  record {
                    waste = round_2 x waste;
                    confidence = x.literal "0.6";
                    label = "backing_snapshots";
                  }
                  ∷ []),
            )
      ]

  unfoldable pub ami_evidence : Node F → NodeContext (Stash F) → CostBranch F → List Evidence
  unfolding has_text has_number str_or_empty num_or_zero stashed_words stashed_amount
      stashed_entries ev_money_in
  ami_evidence n nc branch =
      record {
        key = "backing_exclusive_size_gb";
        value = std.show_fixed 0 (stashed_amount nc "exclusive_size_gb" x);
      }
      ∷ record { key = "age_days"; value = std.show_fixed 0 (stashed_amount nc "age_days" x) }
      ∷ record { key = "size_basis"; value = "source_volume_size" }
      ∷ ev_money_in std "unit_price_gib_month" (stashed_words nc "currency")
          (stashed_amount nc "unit_price" x) 4
      ∷ (stashed_entries nc "price_source"
          ++ (if has_number n "backing_snapshot_count"
              then record {
                key = "backing_snapshot_count";
                value = std.show_fixed 0 (num_or_zero n "backing_snapshot_count" x);
              }
                ∷ []
              else [])
          ++ (if has_number n "reference_count"
              then record {
                key = "reference_count";
                value = std.show_fixed 0 (num_or_zero n "reference_count" x);
              }
                ∷ []
              else []))

  unfoldable pub unused_ami : NodeRule F (Stash F) (Services F)
  unfolding ami_guards ami_cost ami_evidence
  unused_ami = record {
    meta = unused_ami_meta;
    kind = "image";
    guards = ami_guards;
    cost = ami_cost;
    min_waste = x.literal "0.10";
    evidence_keys = "image_id" ∷ "image_name" ∷ [];
    extra_evidence = ami_evidence;
  }
