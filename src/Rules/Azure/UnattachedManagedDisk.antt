-- ===== src/Rules/Azure/UnattachedManagedDisk.antt =====
-- pkg/rules/azure/compute/unattached_managed_disk/rule.go: managed disks that no machine uses.
pub mod Promise
use tellury.Base.{
  ℕ, String, Bool, true, false, not, ◌&&◌, ◌||◌, ◌==◌, ◌≡◌, refl, ap, ◌∙◌, Option, none, some, List,
  [], ◌∷◌, ◌++◌, str_eq, if◌then◌else◌, ◌<>◌, arith, Option-cases, Bool-cases, inl, inr, eq_iff,
}
use tellury.Base.Dict.{list_at}
use tellury.Float.{Numeric}
use tellury.Graph.Node.{Node, num, str, bool, metric_ok}
use tellury.Graph.Query.{in_degree}
use tellury.Graph.Reach.{Reach}
use tellury.Graph.Walk.{nodes_at}
use tellury.Pricing.Region.{region_of}
use tellury.Pricing.Provenance.{round_2}
use tellury.Rules.Types.{
  Evidence, Meta, Pass, NodeContext, CostBranch, Guard, NodeRule, Formats, set,
}
use tellury.Rules.Adapt.{Run, eval_node_rule, check_guards, auto_collect}
use tellury.Rules.Toolbox.{
  Services, Std, Stash, words, amount, entries, stashed_words, stashed_amount, stashed_entries,
  stashed_instant, num_or_zero, str_or_empty, bool_or_false, has_text, has_number, has_positive,
  parsed_time, node_time, days_since, round2, known_text, other_text, truth, stashed_truth, instant,
  known, value_or,
}
use tellury.Rules.Evidence.{
  price_evidence, price_evidence_for, PricedComponent, currency_of, ev_money_in,
}
use tellury.Rules.Passing.{plain, timed, aged}
use tellury.Pricing.ManagedDisk.{managed_disk_tier_sku}

abbrev unattached_managed_disk_meta : Meta
unattached_managed_disk_meta = record {
  id = "unattached_managed_disk";
  provider = "azure";
  service = "compute";
  title = "Managed disk is not attached to any virtual machine";
  description =
      "An Azure managed disk in the Unattached state is attached to no virtual machine and still bills its full per-disk-month tier rate while doing nothing. Snapshot and delete it, or attach it to the VM that needs it.";
  severity = "medium";
  required_asset_types = "azure.compute.disk" ∷ [];
  required_metrics = [];
  remediation = "az disk delete --ids ID --yes";
  origin = "native";
  target_kind = "";
}

module _ {F : Type 0} (x : Numeric F) (std : Std F) where
  unfoldable pub managed_disk_guards : List (Guard F (Stash F) (Services F))
  unfolding node_time parsed_time has_number has_positive has_text str_or_empty num_or_zero
      bool_or_false stashed_instant days_since in_degree
  managed_disk_guards =
      plain "disk_size_gb_positive" "missing_attribute" (λ n p. has_positive n "disk_size_gb" x)
      ∷ plain "sku_name_present" "missing_attribute" (λ n p. has_text n "sku_name")
      ∷ plain "disk_state_present" "missing_attribute" (λ n p. has_text n "disk_state")
      ∷ timed "time_created_parseable" "missing_attribute" "created_at"
          (λ n. node_time n "time_created" std)
      ∷ plain "not_attached" "in_use" (λ n p.
        if str_eq (str_or_empty n "disk_state") "Attached"
        then false
        else str_eq (str_or_empty n "managed_by") "")
      ∷ plain "billing_state" "non_billing_status"
          (λ n p. str_eq (str_or_empty n "disk_state") "Unattached")
      ∷ aged x std "detached_long_enough" "recently_detached" (x.literal "7.0") (λ days nc.
        set (set nc "detached_days" (amount days)) "age_basis" (words "creation_fallback"))
      ∷ []

  unfoldable pub managed_disk_cost :
      ℕ
      → Node F
      → NodeContext (Stash F)
      → Pass F (Services F)
      → NodeContext (Stash F) × Option (List (CostBranch F))
  unfolding managed_disk_tier_sku region_of round_2 price_evidence currency_of num_or_zero
      str_or_empty
  managed_disk_cost moment n nc p =
      let prices = p.services.prices in
      elim (managed_disk_tier_sku std.to_lower x (str_or_empty n "sku_name")
        (num_or_zero n "disk_size_gb" x)) [
          | none ↦ (nc, none)
          | some disk_sku ↦
              let region = region_of std.to_lower n.location in
              elim (prices.pricer.unit_price "managed_disk" "azure" disk_sku region) [
                | none ↦ (nc, none)
                | some unit ↦
                    let source =
                      price_evidence "price_source" prices "managed_disk" disk_sku unit.1 in
                    let nc1 = set nc "currency" (words (currency_of prices)) in
                    let nc2 = set nc1 "disk_sku" (words disk_sku) in
                    let nc3 = set nc2 "unit_price_disk_month" (amount unit.0) in
                    (
                      set nc3 "price_source" (entries (source ∷ [])),
                      some (
                          record {
                            waste = round_2 x unit.0;
                            confidence = x.literal "0.85";
                            label = "unattached";
                          }
                          ∷ []),
                    )
              ]
        ]

  unfoldable pub managed_disk_evidence :
      Node F → NodeContext (Stash F) → CostBranch F → List Evidence
  unfolding has_text has_number str_or_empty num_or_zero stashed_words stashed_amount
      stashed_entries ev_money_in
  managed_disk_evidence n nc branch =
      record { key = "size_gb"; value = std.show_fixed 0 (num_or_zero n "disk_size_gb" x) }
      ∷ record { key = "sku_name"; value = str_or_empty n "sku_name" }
      ∷ record { key = "disk_sku"; value = stashed_words nc "disk_sku" }
      ∷ record { key = "disk_state"; value = str_or_empty n "disk_state" }
      ∷ record { key = "managed_by"; value = str_or_empty n "managed_by" }
      ∷ record { key = "time_created"; value = str_or_empty n "time_created" }
      ∷ record {
        key = "detached_days";
        value = std.show_fixed 0 (stashed_amount nc "detached_days" x);
      }
      ∷ record { key = "age_basis"; value = stashed_words nc "age_basis" }
      ∷ ev_money_in std "unit_price_disk_month" (stashed_words nc "currency")
          (stashed_amount nc "unit_price_disk_month" x) 4
      ∷ stashed_entries nc "price_source"

  unfoldable pub unattached_managed_disk : NodeRule F (Stash F) (Services F)
  unfolding managed_disk_guards managed_disk_cost managed_disk_evidence
  unattached_managed_disk = record {
    meta = unattached_managed_disk_meta;
    kind = "disk";
    guards = managed_disk_guards;
    cost = managed_disk_cost;
    min_waste = x.literal "0.10";
    evidence_keys = [];
    extra_evidence = managed_disk_evidence;
  }
