-- ===== src/Rules/Aws/UnattachedEbsVolume.antt =====
-- pkg/rules/aws/ec2/unattached_ebs_volume/rule.go: volumes that no instance uses.
pub mod Promise
use tellury.Base.{
  ℕ, String, Bool, true, false, not, ◌&&◌, ◌||◌, ◌==◌, ◌≡◌, refl, ap, ◌∙◌, Option, none, some, List,
  [], ◌∷◌, ◌++◌, str_eq, if◌then◌else◌, ◌<>◌, arith, Option-cases, Bool-cases, inl, inr, eq_iff,
}
use tellury.Base.Dict.{list_at}
use tellury.Float.{Numeric}
use tellury.Graph.Node.{Node, num, str, bool, metric_ok}
use tellury.Graph.Query.{in_degree}
use tellury.Graph.Reach.{Reach}
use tellury.Graph.Walk.{nodes_at}
use tellury.Pricing.Region.{region_of}
use tellury.Pricing.Provenance.{round_2}
use tellury.Rules.Types.{
  Evidence, Meta, Pass, NodeContext, CostBranch, Guard, NodeRule, Formats, set,
}
use tellury.Rules.Adapt.{Run, eval_node_rule, check_guards, auto_collect}
use tellury.Rules.Toolbox.{
  Services, Std, Stash, words, amount, entries, stashed_words, stashed_amount, stashed_entries,
  stashed_instant, num_or_zero, str_or_empty, bool_or_false, has_text, has_number, has_positive,
  parsed_time, node_time, days_since, round2, known_text, other_text, truth, stashed_truth, instant,
  known, value_or,
}
use tellury.Rules.Evidence.{
  price_evidence, price_evidence_for, PricedComponent, currency_of, ev_money_in,
}
use tellury.Rules.Passing.{plain, timed, aged}

abbrev unattached_ebs_volume_meta : Meta
unattached_ebs_volume_meta = record {
  id = "unattached_ebs_volume";
  provider = "aws";
  service = "ec2";
  title = "EBS volume is not attached to any instance";
  description =
      "An EBS volume in state \"available\" is attached to no instance and still bills at its full provisioned rate — capacity, plus provisioned IOPS/throughput for gp3/io1/io2 — while doing nothing. Snapshot and delete it, or attach it to the instance that needs it.";
  severity = "medium";
  required_asset_types = "aws.ec2.volume" ∷ [];
  required_metrics = [];
  remediation =
      "aws ec2 create-snapshot --volume-id ID --description 'NAME pre-delete' && aws ec2 delete-volume --volume-id ID";
  origin = "native";
  target_kind = "";
}

module _ {F : Type 0} (x : Numeric F) (std : Std F) where
  unfoldable pub volume_sku : String → String
  volume_sku volume_type = volume_type

  -- The provisioning that each volume type includes; a type that is not listed includes none.
  unfoldable pub included_iops : String → F
  included_iops sku = if str_eq sku "gp3" then x.literal "3000" else x.order.nought

  unfoldable pub included_throughput_mbps : String → F
  included_throughput_mbps sku = if str_eq sku "gp3" then x.literal "125" else x.order.nought

  unfoldable pub billable_above : F → F → F
  billable_above provisioned included =
      if x.order.le provisioned included then x.order.nought else x.sub provisioned included

  -- The parts of the cost, of which each has a size, a price and the region it was found in.
  unfoldable pub volume_priced_components :
      String → F × String → F × String → F × String → F → F → F → List PricedComponent
  volume_priced_components sku cap_price iops_price thr_price size_gb iops mbps =
      let zero = x.order.nought in
      let capacity : PricedComponent = record {
        kind = "disk_capacity";
        sku = sku;
        region = cap_price.1;
        key = "capacity";
      } in
      let comps : List PricedComponent =
        (if not (x.order.eq size_gb zero) then capacity ∷ [] else [])
        ++ (if x.order.lt zero iops && not (x.order.eq iops_price.0 zero)
            then record { kind = "disk_iops"; sku = sku; region = iops_price.1; key = "iops" } ∷ []
            else [])
        ++ (if x.order.lt zero mbps && not (x.order.eq thr_price.0 zero)
            then record {
              kind = "disk_throughput";
              sku = sku;
              region = thr_price.1;
              key = "throughput";
            }
              ∷ []
            else []) in
      elim comps [ [] ↦ capacity ∷ [] | c ∷ cs ↦ c ∷ cs ]

  -- The price of a part of the volume, and what a lookup that fails returns with its error.
  abbrev part_price : Pass F (Services F) → Node F → String → F × String
  part_price p n kind =
      elim (p.services.prices.pricer.unit_price kind "aws"
        (volume_sku (str_or_empty n "volume_type")) (region_of std.to_lower n.location)) [
          | none ↦ (x.order.nought, "")
          | some answer ↦ answer
        ]

  unfoldable pub volume_guards : List (Guard F (Stash F) (Services F))
  unfolding node_time parsed_time has_number has_positive has_text str_or_empty num_or_zero
      bool_or_false stashed_instant days_since in_degree
  volume_guards =
      plain "size_gb_positive" "missing_attribute" (λ n p. has_positive n "size_gb" x)
      ∷ plain "volume_type_present" "missing_attribute" (λ n p. has_text n "volume_type")
      ∷ plain "state_present" "missing_attribute" (λ n p. has_text n "state")
      ∷ timed "creation_time_parseable" "missing_attribute" "created_at"
          (λ n. parsed_time n "create_time" std)
      ∷ plain "not_attached" "in_use" (λ n p.
        x.order.eq (num_or_zero n "attachment_count" x) x.order.nought
        && in_degree p.graph n.id ("attached_to" ∷ []) == 0)
      ∷ plain "available_state" "non_billing_status"
          (λ n p. str_eq (str_or_empty n "state") "available")
      ∷ aged x std "detached_long_enough" "recently_detached" (x.literal "7.0") (λ days nc.
        set (set nc "detached_days" (amount days)) "age_basis" (words "creation_fallback"))
      ∷ []

  unfoldable pub volume_cost :
      ℕ
      → Node F
      → NodeContext (Stash F)
      → Pass F (Services F)
      → NodeContext (Stash F) × Option (List (CostBranch F))
  unfolding region_of round_2 price_evidence_for currency_of num_or_zero volume_sku included_iops
      included_throughput_mbps billable_above volume_priced_components
  volume_cost moment n nc p =
      let prices = p.services.prices in
      let size_gb = num_or_zero n "size_gb" x in
      let sku = volume_sku (str_or_empty n "volume_type") in
      let region = region_of std.to_lower n.location in
      elim (prices.pricer.unit_price "disk_capacity" "aws" sku region) [
        | none ↦ (nc, none)
        | some cap_price ↦
            let iops_price = part_price p n "disk_iops" in
            let thr_price = part_price p n "disk_throughput" in
            let iops = num_or_zero n "iops" x in
            let mbps = num_or_zero n "throughput" x in
            let billable_iops = billable_above iops (included_iops sku) in
            let billable_mbps = billable_above mbps (included_throughput_mbps sku) in
            let waste =
              x.add (x.add (x.mul size_gb cap_price.0) (x.mul billable_iops iops_price.0))
                (x.mul billable_mbps thr_price.0) in
            let comps =
              volume_priced_components sku cap_price iops_price thr_price size_gb iops mbps in
            let nc1 =
              set (set nc "billable_iops" (amount billable_iops)) "billable_throughput"
                (amount billable_mbps) in
            let nc2 =
              set (set nc1 "currency" (words (currency_of prices))) "disk_sku" (words sku) in
            let nc3 =
              set (set nc2 "cap_price" (amount cap_price.0)) "price_source_evidence"
                (entries (price_evidence_for "price_source" prices comps)) in
            (
              set (set nc3 "provisioned_iops" (amount iops)) "provisioned_throughput" (amount mbps),
              some (
                  record {
                    waste = round_2 x waste;
                    confidence = x.literal "0.85";
                    label = "detached";
                  }
                  ∷ []),
            )
      ]

  unfoldable pub volume_evidence : Node F → NodeContext (Stash F) → CostBranch F → List Evidence
  unfolding has_text has_number str_or_empty num_or_zero stashed_words stashed_amount
      stashed_entries ev_money_in
  volume_evidence n nc branch =
      record { key = "size_gb"; value = std.show_fixed 0 (num_or_zero n "size_gb" x) }
      ∷ record { key = "volume_type"; value = str_or_empty n "volume_type" }
      ∷ record { key = "disk_sku"; value = stashed_words nc "disk_sku" }
      ∷ record { key = "state"; value = str_or_empty n "state" }
      ∷ record { key = "attached_instances"; value = "0" }
      ∷ record {
        key = "detached_days";
        value = std.show_fixed 0 (stashed_amount nc "detached_days" x);
      }
      ∷ record { key = "age_basis"; value = stashed_words nc "age_basis" }
      ∷ ev_money_in std "unit_price_gib_month" (stashed_words nc "currency")
          (stashed_amount nc "cap_price" x) 4
      ∷ (stashed_entries nc "price_source_evidence"
          ++ (if x.order.lt x.order.nought (stashed_amount nc "provisioned_iops" x)
              then record {
                key = "iops";
                value = std.show_fixed 0 (stashed_amount nc "provisioned_iops" x);
              }
                ∷ []
              else [])
          ++ (if x.order.lt x.order.nought (stashed_amount nc "provisioned_throughput" x)
              then record {
                key = "throughput";
                value = std.show_fixed 0 (stashed_amount nc "provisioned_throughput" x);
              }
                ∷ []
              else []))

  unfoldable pub unattached_ebs_volume : NodeRule F (Stash F) (Services F)
  unfolding volume_guards volume_cost volume_evidence
  unattached_ebs_volume = record {
    meta = unattached_ebs_volume_meta;
    kind = "disk";
    guards = volume_guards;
    cost = volume_cost;
    min_waste = x.literal "0.10";
    evidence_keys = [];
    extra_evidence = volume_evidence;
  }
