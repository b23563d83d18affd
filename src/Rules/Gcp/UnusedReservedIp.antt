-- ===== src/Rules/Gcp/UnusedReservedIp.antt =====
-- pkg/rules/gcp/compute/unused_reserved_ip/rule.go: reserved addresses that nothing uses.
pub mod Promise
use tellury.Base.{
  ℕ, String, Bool, not, ◌&&◌, Option, none, some, List, [], ◌∷◌, ◌++◌, str_eq, if◌then◌else◌, ◌<>◌,
}
use tellury.Float.{Numeric}
use tellury.Graph.Node.{Node}
use tellury.Pricing.Region.{region_of}
use tellury.Rules.Types.{Evidence, Meta, Pass, NodeContext, CostBranch, Guard, NodeRule, set}
use tellury.Rules.Toolbox.{
  Services, Std, Stash, words, amount, entries, stashed_words, stashed_amount, stashed_entries,
  num_or_zero, str_or_empty, has_text, round2,
}
use tellury.Rules.Evidence.{price_evidence, currency_of, ev_money_in}
use tellury.Rules.Passing.{plain}

abbrev unused_reserved_ip_meta : Meta
unused_reserved_ip_meta = record {
  id = "unused_reserved_ip";
  provider = "gcp";
  service = "compute";
  title = "Reserved external IP address is not attached to anything";
  description =
      "A reserved (static) EXTERNAL IP address with no attached "
      <> ("instance or forwarding rule bills the full hourly reservation rate "
          <> ("while providing nothing. An internal address is free and an "
              <> ("in-use address is not waste; only a reserved, unattached, "
                  <> ("EXTERNAL address is reclaimable, and its entire monthly cost is "
                      <> "the waste — there is no partial component to compute."))));
  severity = "medium";
  required_asset_types = "compute.googleapis.com/Address" ∷ [];
  required_metrics = [];
  remediation = "gcloud compute addresses delete NAME --region REGION";
  origin = "native";
  target_kind = "";
}

module _ {F : Type 0} (x : Numeric F) (std : Std F) where
  unfoldable pub reserved_ip_guards : List (Guard F (Stash F) (Services F))
  unfolding has_text str_or_empty num_or_zero
  reserved_ip_guards =
      plain "address_type_present" "missing_attribute" (λ n p. has_text n "address_type")
      ∷ plain "status_present" "missing_attribute" (λ n p. has_text n "status")
      ∷ plain "external_type" "internal_address"
          (λ n p. str_eq (str_or_empty n "address_type") "EXTERNAL")
      ∷ plain "not_in_use" "in_use" (λ n p. not (str_eq (str_or_empty n "status") "IN_USE"))
      ∷ plain "reserved_status" "non_billing_status"
          (λ n p. str_eq (str_or_empty n "status") "RESERVED")
      ∷ plain "no_cai_users" "in_use"
          (λ n p. x.order.eq (num_or_zero n "address_user_count" x) x.order.nought)
      ∷ []

  unfoldable pub reserved_ip_cost :
      ℕ
      → Node F
      → NodeContext (Stash F)
      → Pass F (Services F)
      → NodeContext (Stash F) × Option (List (CostBranch F))
  unfolding region_of round2 price_evidence currency_of
  reserved_ip_cost moment n nc p =
      let prices = p.services.prices in
      let region = region_of std.to_lower n.location in
      elim (prices.pricer.unit_price "static_ip" "gcp" "unattached" region) [
        | none ↦ (nc, none)
        | some unit ↦
            let waste = x.mul unit.0 (x.literal "730.0") in
            let source = price_evidence "price_source" prices "static_ip" "unattached" unit.1 in
            let nc1 = set nc "currency" (words (currency_of prices)) in
            let nc2 = set nc1 "unit_price_hourly" (amount unit.0) in
            (
              set nc2 "price_source" (entries (source ∷ [])),
              some (
                  record {
                    waste = round2 x waste;
                    confidence = x.literal "1.0";
                    label = "full_reservation";
                  }
                  ∷ []),
            )
      ]

  unfoldable pub reserved_ip_evidence :
      Node F → NodeContext (Stash F) → CostBranch F → List Evidence
  unfolding has_text str_or_empty stashed_words stashed_amount stashed_entries ev_money_in
  reserved_ip_evidence n nc branch =
      ev_money_in std "unit_price_hourly" (stashed_words nc "currency")
        (stashed_amount nc "unit_price_hourly" x) 4
      ∷ ((if has_text n "address_purpose"
            then record { key = "address_purpose"; value = str_or_empty n "address_purpose" } ∷ []
            else [])
          ++ (if has_text n "address_ip"
              then record { key = "address_ip"; value = str_or_empty n "address_ip" } ∷ []
              else [])
          ++ stashed_entries nc "price_source")

  unfoldable pub unused_reserved_ip : NodeRule F (Stash F) (Services F)
  unfolding reserved_ip_guards reserved_ip_cost reserved_ip_evidence
  unused_reserved_ip = record {
    meta = unused_reserved_ip_meta;
    kind = "address";
    guards = reserved_ip_guards;
    cost = reserved_ip_cost;
    min_waste = x.literal "0.10";
    evidence_keys = "address_type" ∷ "status" ∷ [];
    extra_evidence = reserved_ip_evidence;
  }
