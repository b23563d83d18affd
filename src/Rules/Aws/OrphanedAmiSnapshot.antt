-- ===== src/Rules/Aws/OrphanedAmiSnapshot.antt =====
-- pkg/rules/aws/ec2/orphaned_ami_snapshot/rule.go: snapshots of images that are gone.
pub mod Promise
use tellury.Base.{
  ℕ, String, Bool, true, false, not, ◌&&◌, ◌||◌, ◌==◌, ◌≡◌, refl, ap, ◌∙◌, Option, none, some, List,
  [], ◌∷◌, ◌++◌, str_eq, if◌then◌else◌, ◌<>◌, arith, Option-cases, Bool-cases, inl, inr, eq_iff,
}
use tellury.Base.Dict.{list_at}
use tellury.Float.{Numeric}
use tellury.Graph.Node.{Node, num, str, bool, metric_ok}
use tellury.Graph.Query.{in_degree}
use tellury.Graph.Reach.{Reach}
use tellury.Graph.Walk.{nodes_at}
use tellury.Pricing.Region.{region_of}
use tellury.Pricing.Provenance.{round_2}
use tellury.Rules.Types.{
  Evidence, Meta, Pass, NodeContext, CostBranch, Guard, NodeRule, Formats, set,
}
use tellury.Rules.Adapt.{Run, eval_node_rule, check_guards, auto_collect}
use tellury.Rules.Toolbox.{
  Services, Std, Stash, words, amount, entries, stashed_words, stashed_amount, stashed_entries,
  stashed_instant, num_or_zero, str_or_empty, bool_or_false, has_text, has_number, has_positive,
  parsed_time, node_time, days_since, round2, known_text, other_text, truth, stashed_truth, instant,
  known, value_or,
}
use tellury.Rules.Evidence.{
  price_evidence, price_evidence_for, PricedComponent, currency_of, ev_money_in,
}
use tellury.Rules.Passing.{plain, timed, aged}

abbrev orphaned_ami_snapshot_meta : Meta
orphaned_ami_snapshot_meta = record {
  id = "orphaned_ami_snapshot";
  provider = "aws";
  service = "ec2";
  title = "EBS snapshot was created for an AMI that no longer exists";
  description =
      "Deregistering an AMI does not delete the EBS snapshots behind it. They stop appearing under AMIs in the console and keep billing per GiB-month. This rule reports snapshots AWS created for an AMI when no current AMI references them.";
  severity = "medium";
  required_asset_types = "aws.ec2.snapshot" ∷ [];
  required_metrics = [];
  remediation = "aws ec2 delete-snapshot --snapshot-id SNAPSHOT_ID";
  origin = "native";
  target_kind = "";
}

module _ {F : Type 0} (x : Numeric F) (std : Std F) where
  abbrev volume_size_gb_positive : Guard F (Stash F) (Services F)
  volume_size_gb_positive = record {
    skip_code = "missing_attribute";
    name = "volume_size_gb_positive";
    check = λ n nc p. elim (num n "volume_size_gb") [
      | none ↦ (false, nc)
      | some v ↦
          if x.order.le v x.order.nought then (false, nc) else (true, set nc "size_gb" (amount v))
    ];
  }

  unfoldable pub orphan_guards : List (Guard F (Stash F) (Services F))
  unfolding node_time parsed_time has_number has_positive has_text str_or_empty num_or_zero
      bool_or_false stashed_instant days_since in_degree
  orphan_guards =
      plain "asset_type" "not_target_asset_type" (λ n p. str_eq n.asset_type "aws.ec2.snapshot")
      ∷ plain "snapshot_id_present" "missing_attribute" (λ n p. has_text n "snapshot_id")
      ∷ volume_size_gb_positive
      ∷ timed "creation_time_parseable" "missing_attribute" "created_at"
          (λ n. parsed_time n "creation_timestamp" std)
      ∷ plain "state_completed" "non_billing_status"
          (λ n p. str_eq (str_or_empty n "state") "completed")
      ∷ plain "ami_created" "not_ami_created_snapshot" (λ n p. bool_or_false n "ami_created")
      ∷ plain "ami_reference_complete" "references_unknown"
          (λ n p. bool_or_false n "ami_reference_complete")
      ∷ plain "not_referenced_by_ami" "in_use" (λ n p. elim (num n "referenced_by_ami_count") [
        | none ↦ false
        | some count ↦ x.order.eq count x.order.nought
      ])
      ∷ aged x std "old_enough" "too_young" (x.literal "90.0")
          (λ days nc. set nc "age_days" (amount days))
      ∷ []

  unfoldable pub orphan_cost :
      ℕ
      → Node F
      → NodeContext (Stash F)
      → Pass F (Services F)
      → NodeContext (Stash F) × Option (List (CostBranch F))
  unfolding region_of round_2 price_evidence currency_of num_or_zero stashed_amount
  orphan_cost moment n nc p =
      let prices = p.services.prices in
      let region = region_of std.to_lower n.location in
      elim (prices.pricer.unit_price "snapshot_storage" "aws" "standard" region) [
        | none ↦ (nc, none)
        | some unit ↦
            let waste = x.mul (stashed_amount nc "size_gb" x) unit.0 in
            let source =
              price_evidence "price_source" prices "snapshot_storage" "standard" unit.1 in
            let nc1 = set nc "price_source" (entries (source ∷ [])) in
            let nc2 = set nc1 "currency" (words (currency_of prices)) in
            (
              set nc2 "unit_price" (amount unit.0),
              some (
                  record { waste = round_2 x waste; confidence = x.literal "0.6"; label = "delete" }
                  ∷ []),
            )
      ]

  unfoldable pub orphan_evidence : Node F → NodeContext (Stash F) → CostBranch F → List Evidence
  unfolding has_text has_number str_or_empty num_or_zero stashed_words stashed_amount
      stashed_entries ev_money_in
  orphan_evidence n nc branch =
      record { key = "age_days"; value = std.show_fixed 0 (stashed_amount nc "age_days" x) }
      ∷ record { key = "size_basis"; value = "source_volume_size" }
      ∷ ev_money_in std "unit_price_gib_month" (stashed_words nc "currency")
          (stashed_amount nc "unit_price" x) 4
      ∷ stashed_entries nc "price_source"

  unfoldable pub orphaned_ami_snapshot : NodeRule F (Stash F) (Services F)
  unfolding orphan_guards orphan_cost orphan_evidence
  orphaned_ami_snapshot = record {
    meta = orphaned_ami_snapshot_meta;
    kind = "snapshot";
    guards = orphan_guards;
    cost = orphan_cost;
    min_waste = x.literal "0.10";
    evidence_keys = "snapshot_id" ∷ "volume_size_gb" ∷ "referenced_by_ami_count" ∷ [];
    extra_evidence = orphan_evidence;
  }
