-- ===== src/Rules/Gcp/OldSnapshot.antt =====
-- pkg/rules/gcp/compute/old_snapshot/rule.go: disk snapshots older than the retention window.
pub mod Promise
use tellury.Base.{
  ℕ, String, Bool, true, false, not, ◌&&◌, ◌||◌, ◌==◌, ◌≡◌, refl, ap, ◌∙◌, Option, none, some, List,
  [], ◌∷◌, ◌++◌, str_eq, if◌then◌else◌, ◌<>◌, arith, Option-cases, Bool-cases, inl, inr, eq_iff,
}
use tellury.Base.Dict.{list_at}
use tellury.Float.{Numeric}
use tellury.Graph.Node.{Node, num, str, bool, metric_ok}
use tellury.Graph.Query.{in_degree}
use tellury.Graph.Reach.{Reach}
use tellury.Graph.Walk.{nodes_at}
use tellury.Pricing.Region.{region_of}
use tellury.Pricing.Provenance.{round_2}
use tellury.Rules.Types.{
  Evidence, Meta, Pass, NodeContext, CostBranch, Guard, NodeRule, Formats, set,
}
use tellury.Rules.Adapt.{Run, eval_node_rule, check_guards, auto_collect}
use tellury.Rules.Toolbox.{
  Services, Std, Stash, words, amount, entries, stashed_words, stashed_amount, stashed_entries,
  stashed_instant, num_or_zero, str_or_empty, bool_or_false, has_text, has_number, has_positive,
  parsed_time, node_time, days_since, round2, known_text, other_text, truth, stashed_truth, instant,
  known, value_or,
}
use tellury.Rules.Evidence.{
  price_evidence, price_evidence_for, PricedComponent, currency_of, ev_money_in,
}
use tellury.Rules.Passing.{plain, timed, aged}

abbrev old_snapshot_meta : Meta
old_snapshot_meta = record {
  id = "old_snapshot";
  provider = "gcp";
  service = "compute";
  title = "Persistent disk snapshot is older than the retention window";
  description =
      "A persistent disk snapshot bills a flat per-GiB-month storage rate for as long as it exists, whether or not anything ever restores from it. A snapshot at or beyond the 90-day retention window is idle storage: its point-in-time recovery value has decayed, and the entire monthly cost is reclaimable by deleting it. There is no partial component to compute — the whole cost is waste.";
  severity = "low";
  required_asset_types = "compute.googleapis.com/Snapshot" ∷ [];
  required_metrics = [];
  remediation = "gcloud compute snapshots delete NAME";
  origin = "native";
  target_kind = "";
}

module _ {F : Type 0} (x : Numeric F) (std : Std F) where
  -- The guard on the age, which keeps it also when it fails.
  abbrev snapshot_old_enough : Guard F (Stash F) (Services F)
  snapshot_old_enough = record {
    skip_code = "too_young";
    name = "old_enough";
    check = λ n nc p. elim (stashed_instant nc "created_at") [
      | none ↦ (false, nc)
      | some created_at ↦
          let days = x.floor (days_since x std p.now created_at) in
          (x.order.le (x.literal "90") days, set nc "age_days" (amount days))
    ];
  }

  unfoldable pub old_snapshot_guards : List (Guard F (Stash F) (Services F))
  unfolding node_time parsed_time has_number has_positive has_text str_or_empty num_or_zero
      bool_or_false stashed_instant days_since in_degree
  old_snapshot_guards =
      timed "creation_timestamp_parseable" "missing_attribute" "created_at"
        (λ n. node_time n "creation_timestamp" std)
      ∷ plain "billable_bytes_present" "missing_attribute" (λ n p. has_number n "storage_bytes")
      ∷ snapshot_old_enough
      ∷ []

  unfoldable pub old_snapshot_cost :
      ℕ
      → Node F
      → NodeContext (Stash F)
      → Pass F (Services F)
      → NodeContext (Stash F) × Option (List (CostBranch F))
  unfolding region_of round2 price_evidence currency_of num_or_zero
  old_snapshot_cost moment n nc p =
      let prices = p.services.prices in
      let size_gb = x.div (num_or_zero n "storage_bytes" x) (x.literal "1073741824") in
      let region = region_of std.to_lower n.location in
      elim (prices.pricer.unit_price "snapshot_storage" "gcp" "standard" region) [
        | none ↦ (nc, none)
        | some unit ↦
            let waste = x.mul unit.0 size_gb in
            let source =
              price_evidence "price_source" prices "snapshot_storage" "standard" unit.1 in
            let nc1 = set nc "currency" (words (currency_of prices)) in
            let nc2 = set nc1 "unit_price_gib_month" (amount unit.0) in
            (
              set nc2 "price_source" (entries (source ∷ [])),
              some (
                  record {
                    waste = round2 x waste;
                    confidence = x.literal "0.7";
                    label = "delete_snapshot";
                  }
                  ∷ []),
            )
      ]

  unfoldable pub old_snapshot_evidence :
      Node F → NodeContext (Stash F) → CostBranch F → List Evidence
  unfolding has_text has_number str_or_empty num_or_zero stashed_words stashed_amount
      stashed_entries ev_money_in
  old_snapshot_evidence n nc branch =
      record { key = "age_days"; value = std.show_fixed 0 (stashed_amount nc "age_days" x) }
      ∷ ev_money_in std "unit_price_gib_month" (stashed_words nc "currency")
          (stashed_amount nc "unit_price_gib_month" x) 4
      ∷ stashed_entries nc "price_source"

  unfoldable pub old_snapshot : NodeRule F (Stash F) (Services F)
  unfolding old_snapshot_guards old_snapshot_cost old_snapshot_evidence
  old_snapshot = record {
    meta = old_snapshot_meta;
    kind = "snapshot";
    guards = old_snapshot_guards;
    cost = old_snapshot_cost;
    min_waste = x.literal "0.10";
    evidence_keys = "storage_bytes" ∷ "source_disk_size_gb" ∷ "creation_timestamp" ∷ [];
    extra_evidence = old_snapshot_evidence;
  }
