-- ===== src/Rules/Aws/UnassociatedEip.antt =====
-- pkg/rules/aws/ec2/unassociated_eip/rule.go: elastic addresses that nothing is associated with.
pub mod Promise
use tellury.Base.{
  ℕ, String, Bool, true, false, not, ◌&&◌, ◌||◌, ◌==◌, ◌≡◌, refl, ap, ◌∙◌, Option, none, some, List,
  [], ◌∷◌, ◌++◌, str_eq, if◌then◌else◌, ◌<>◌, arith, Option-cases, Bool-cases, inl, inr, eq_iff,
}
use tellury.Base.Dict.{list_at}
use tellury.Float.{Numeric}
use tellury.Graph.Node.{Node, num, str, bool, metric_ok}
use tellury.Graph.Query.{in_degree}
use tellury.Graph.Reach.{Reach}
use tellury.Graph.Walk.{nodes_at}
use tellury.Pricing.Region.{region_of}
use tellury.Pricing.Provenance.{round_2}
use tellury.Rules.Types.{
  Evidence, Meta, Pass, NodeContext, CostBranch, Guard, NodeRule, Formats, set,
}
use tellury.Rules.Adapt.{Run, eval_node_rule, check_guards, auto_collect}
use tellury.Rules.Toolbox.{
  Services, Std, Stash, words, amount, entries, stashed_words, stashed_amount, stashed_entries,
  stashed_instant, num_or_zero, str_or_empty, bool_or_false, has_text, has_number, has_positive,
  parsed_time, node_time, days_since, round2, known_text, other_text, truth, stashed_truth, instant,
  known, value_or,
}
use tellury.Rules.Evidence.{
  price_evidence, price_evidence_for, PricedComponent, currency_of, ev_money_in,
}
use tellury.Rules.Passing.{plain, timed, aged}

abbrev unassociated_eip_meta : Meta
unassociated_eip_meta = record {
  id = "unassociated_eip";
  provider = "aws";
  service = "ec2";
  title = "Elastic IP address is not associated with any instance";
  description =
      "An Elastic IP address with no association still bills the hourly rate while providing nothing. AWS charges for every Elastic IP that is not associated with a running instance; associating it or releasing it removes the charge. There is no partial component to compute — the entire hourly charge is waste.";
  severity = "medium";
  required_asset_types = "aws.ec2.address" ∷ [];
  required_metrics = [];
  remediation = "aws ec2 release-address --allocation-id EIPALLOC";
  origin = "native";
  target_kind = "";
}

module _ {F : Type 0} (x : Numeric F) (std : Std F) where
  unfoldable pub eip_guards : List (Guard F (Stash F) (Services F))
  unfolding node_time parsed_time has_number has_positive has_text str_or_empty num_or_zero
      bool_or_false stashed_instant days_since in_degree
  eip_guards =
      plain "domain_present" "missing_attribute" (λ n p. has_text n "domain")
      ∷ plain "is_eip" "internal_address" (λ n p.
        str_eq (str_or_empty n "domain") "vpc" || str_eq (str_or_empty n "domain") "standard")
      ∷ plain "not_associated" "in_use" (λ n p. elim (str n "association_state") [
        | none ↦ true
        | some state ↦ str_eq state "unassociated"
      ])
      ∷ []

  unfoldable pub eip_cost :
      ℕ
      → Node F
      → NodeContext (Stash F)
      → Pass F (Services F)
      → NodeContext (Stash F) × Option (List (CostBranch F))
  unfolding region_of round2 price_evidence currency_of num_or_zero
  eip_cost moment n nc p =
      let prices = p.services.prices in
      let region = region_of std.to_lower n.location in
      elim (prices.pricer.unit_price "static_ip" "aws" "AdditionalAddress" region) [
        | none ↦ (nc, none)
        | some unit ↦
            let waste = x.mul unit.0 (x.literal "730.0") in
            let source =
              price_evidence "price_source" prices "static_ip" "AdditionalAddress" unit.1 in
            let nc1 = set nc "currency" (words (currency_of prices)) in
            let nc2 = set nc1 "unit_price_hourly" (amount unit.0) in
            (
              set nc2 "price_source" (entries (source ∷ [])),
              some (
                  record {
                    waste = round2 x waste;
                    confidence = x.literal "1.0";
                    label = "full_hourly_charge";
                  }
                  ∷ []),
            )
      ]

  unfoldable pub eip_evidence : Node F → NodeContext (Stash F) → CostBranch F → List Evidence
  unfolding has_text has_number str_or_empty num_or_zero stashed_words stashed_amount
      stashed_entries ev_money_in
  eip_evidence n nc branch =
      ev_money_in std "unit_price_hourly" (stashed_words nc "currency")
        (stashed_amount nc "unit_price_hourly" x) 4
      ∷ ((if has_text n "allocation_id"
            then record { key = "allocation_id"; value = str_or_empty n "allocation_id" } ∷ []
            else [])
          ++ stashed_entries nc "price_source")

  unfoldable pub unassociated_eip : NodeRule F (Stash F) (Services F)
  unfolding eip_guards eip_cost eip_evidence
  unassociated_eip = record {
    meta = unassociated_eip_meta;
    kind = "address";
    guards = eip_guards;
    cost = eip_cost;
    min_waste = x.literal "0.10";
    evidence_keys = "domain" ∷ "public_ip" ∷ [];
    extra_evidence = eip_evidence;
  }
