-- ===== src/Rules/Azure/UnassociatedPublicIp.antt =====
-- pkg/rules/azure/network/unassociated_public_ip/rule.go: public addresses that nothing is associated with.
pub mod Promise
use tellury.Base.{
  ℕ, String, Bool, true, false, not, ◌&&◌, ◌||◌, ◌==◌, ◌≡◌, refl, ap, ◌∙◌, Option, none, some, List,
  [], ◌∷◌, ◌++◌, str_eq, if◌then◌else◌, ◌<>◌, arith, Option-cases, Bool-cases, inl, inr, eq_iff,
}
use tellury.Base.Dict.{list_at}
use tellury.Float.{Numeric}
use tellury.Graph.Node.{Node, num, str, bool, metric_ok}
use tellury.Graph.Query.{in_degree}
use tellury.Graph.Reach.{Reach}
use tellury.Graph.Walk.{nodes_at}
use tellury.Pricing.Region.{region_of}
use tellury.Pricing.Provenance.{round_2}
use tellury.Rules.Types.{
  Evidence, Meta, Pass, NodeContext, CostBranch, Guard, NodeRule, Formats, set,
}
use tellury.Rules.Adapt.{Run, eval_node_rule, check_guards, auto_collect}
use tellury.Rules.Toolbox.{
  Services, Std, Stash, words, amount, entries, stashed_words, stashed_amount, stashed_entries,
  stashed_instant, num_or_zero, str_or_empty, bool_or_false, has_text, has_number, has_positive,
  parsed_time, node_time, days_since, round2, known_text, other_text, truth, stashed_truth, instant,
  known, value_or,
}
use tellury.Rules.Evidence.{
  price_evidence, price_evidence_for, PricedComponent, currency_of, ev_money_in,
}
use tellury.Rules.Passing.{plain, timed, aged}

abbrev unassociated_public_ip_meta : Meta
unassociated_public_ip_meta = record {
  id = "unassociated_public_ip";
  provider = "azure";
  service = "network";
  title = "Public IP address is not associated with any resource";
  description =
      "A Standard Azure public IP address with no IP configuration association still bills the hourly rate while providing nothing. Azure charges for every Standard public IP that is not associated with a resource; associating it or deleting it removes the charge. There is no partial component to compute — the entire hourly charge is waste.";
  severity = "medium";
  required_asset_types = "azure.network.publicipaddress" ∷ [];
  required_metrics = [];
  remediation = "az network public-ip delete --ids ID";
  origin = "native";
  target_kind = "";
}

module _ {F : Type 0} (x : Numeric F) (std : Std F) where
  unfoldable pub public_ip_guards : List (Guard F (Stash F) (Services F))
  unfolding node_time parsed_time has_number has_positive has_text str_or_empty num_or_zero
      bool_or_false stashed_instant days_since in_degree
  public_ip_guards =
      plain "sku_name_present" "missing_attribute" (λ n p. has_text n "sku_name")
      ∷ plain "public_ip_allocation_method_present" "missing_attribute"
          (λ n p. has_text n "public_ip_allocation_method")
      ∷ plain "billable_sku" "non_billing_status"
          (λ n p. str_eq (str_or_empty n "sku_name") "Standard")
      ∷ plain "ip_configuration_count_present" "missing_attribute"
          (λ n p. has_number n "ip_configuration_count")
      ∷ plain "not_associated" "in_use"
          (λ n p. x.order.eq (num_or_zero n "ip_configuration_count" x) x.order.nought)
      ∷ []

  unfoldable pub public_ip_cost :
      ℕ
      → Node F
      → NodeContext (Stash F)
      → Pass F (Services F)
      → NodeContext (Stash F) × Option (List (CostBranch F))
  unfolding region_of round_2 price_evidence currency_of num_or_zero
  public_ip_cost moment n nc p =
      let prices = p.services.prices in
      let region = region_of std.to_lower n.location in
      elim (prices.pricer.unit_price "static_ip" "azure" "Standard" region) [
        | none ↦ (nc, none)
        | some unit ↦
            let waste = x.mul unit.0 (x.literal "730.0") in
            let source = price_evidence "price_source" prices "static_ip" "Standard" unit.1 in
            let nc1 = set nc "currency" (words (currency_of prices)) in
            let nc2 = set nc1 "unit_price_hourly" (amount unit.0) in
            (
              set nc2 "price_source" (entries (source ∷ [])),
              some (
                  record {
                    waste = round_2 x waste;
                    confidence = x.literal "1.0";
                    label = "full_hourly_charge";
                  }
                  ∷ []),
            )
      ]

  unfoldable pub public_ip_evidence : Node F → NodeContext (Stash F) → CostBranch F → List Evidence
  unfolding has_text has_number str_or_empty num_or_zero stashed_words stashed_amount
      stashed_entries ev_money_in
  public_ip_evidence n nc branch =
      record { key = "sku_name"; value = str_or_empty n "sku_name" }
      ∷ record {
        key = "public_ip_allocation_method";
        value = str_or_empty n "public_ip_allocation_method";
      }
      ∷ record {
        key = "ip_configuration_count";
        value = std.show_fixed 0 (num_or_zero n "ip_configuration_count" x);
      }
      ∷ ev_money_in std "unit_price_hourly" (stashed_words nc "currency")
          (stashed_amount nc "unit_price_hourly" x) 4
      ∷ ((if has_text n "ip_address"
            then record { key = "ip_address"; value = str_or_empty n "ip_address" } ∷ []
            else [])
          ++ stashed_entries nc "price_source")

  unfoldable pub unassociated_public_ip : NodeRule F (Stash F) (Services F)
  unfolding public_ip_guards public_ip_cost public_ip_evidence
  unassociated_public_ip = record {
    meta = unassociated_public_ip_meta;
    kind = "address";
    guards = public_ip_guards;
    cost = public_ip_cost;
    min_waste = x.literal "0.10";
    evidence_keys = [];
    extra_evidence = public_ip_evidence;
  }
