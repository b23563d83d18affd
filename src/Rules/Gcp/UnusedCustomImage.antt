-- ===== src/Rules/Gcp/UnusedCustomImage.antt =====
-- pkg/rules/gcp/compute/unused_custom_image/rule.go: custom images that no instance template refers to.
pub mod Promise
use tellury.Base.{
  ℕ, String, Bool, true, false, not, ◌&&◌, ◌||◌, ◌==◌, ◌≡◌, refl, ap, ◌∙◌, Option, none, some, List,
  [], ◌∷◌, ◌++◌, str_eq, if◌then◌else◌, ◌<>◌, arith, Option-cases, Bool-cases, inl, inr, eq_iff,
}
use tellury.Base.Dict.{list_at}
use tellury.Float.{Numeric}
use tellury.Graph.Node.{Node, num, str, bool, metric_ok}
use tellury.Graph.Query.{in_degree}
use tellury.Graph.Reach.{Reach}
use tellury.Graph.Walk.{nodes_at}
use tellury.Pricing.Region.{region_of}
use tellury.Pricing.Provenance.{round_2}
use tellury.Rules.Types.{
  Evidence, Meta, Pass, NodeContext, CostBranch, Guard, NodeRule, Formats, set,
}
use tellury.Rules.Adapt.{Run, eval_node_rule, check_guards, auto_collect}
use tellury.Rules.Toolbox.{
  Services, Std, Stash, words, amount, entries, stashed_words, stashed_amount, stashed_entries,
  stashed_instant, num_or_zero, str_or_empty, bool_or_false, has_text, has_number, has_positive,
  parsed_time, node_time, days_since, round2, known_text, other_text, truth, stashed_truth, instant,
  known, value_or,
}
use tellury.Rules.Evidence.{
  price_evidence, price_evidence_for, PricedComponent, currency_of, ev_money_in,
}
use tellury.Rules.Passing.{plain, timed, aged}

abbrev unused_custom_image_meta : Meta
unused_custom_image_meta = record {
  id = "unused_custom_image";
  provider = "gcp";
  service = "compute";
  title = "Custom image is not referenced by any instance template";
  description =
      "A GCP custom image bills per GiB-month for its stored archive whether or not anything runs from it. An image referenced by an instance template is in use even with no current instances; only an image with no template reference at or beyond the 90-day retention window is reclaimable. GCP publishes the compressed archive size only for images imported from a tar.gz; for a disk-sourced image the cost is bounded by the source disk size and the size_basis evidence says which was used.";
  severity = "medium";
  required_asset_types = "compute.googleapis.com/Image" ∷ [];
  required_metrics = [];
  remediation = "gcloud compute images delete NAME";
  origin = "native";
  target_kind = "";
}

module _ {F : Type 0} (x : Numeric F) (std : Std F) where
  -- The size in GiB and what it was read from: the archive, or else the disk it was made of.
  unfoldable pub custom_image_size : Node F → Option (F × String)
  unfolding num
  custom_image_size n = elim (num n "storage_bytes") [
    | some bytes ↦ some (x.div bytes (x.literal "1073741824"), "archive_size_bytes")
    | none ↦ elim (num n "source_disk_size_gb") [
      | some gb ↦ if x.order.lt x.order.nought gb then some (gb, "source_disk_size") else none
      | none ↦ none
    ]
  ]

  abbrev size_determinable : Guard F (Stash F) (Services F)
  size_determinable = record {
    skip_code = "missing_attribute";
    name = "size_determinable";
    check = λ n nc p. elim (custom_image_size n) [
      | none ↦ (false, nc)
      | some (size, basis) ↦
          (true, set (set nc "size_gib" (amount size)) "size_basis" (words basis))
    ];
  }

  unfoldable pub custom_image_guards : List (Guard F (Stash F) (Services F))
  unfolding custom_image_size node_time parsed_time has_number has_positive has_text str_or_empty
      num_or_zero bool_or_false stashed_instant days_since in_degree
  custom_image_guards =
      plain "asset_type" "not_target_asset_type"
        (λ n p. str_eq n.asset_type "compute.googleapis.com/Image")
      ∷ size_determinable
      ∷ timed "creation_time_parseable" "missing_attribute" "created_at"
          (λ n. parsed_time n "creation_timestamp" std)
      ∷ plain "status_ready" "non_billing_status" (λ n p. str_eq (str_or_empty n "status") "READY")
      ∷ plain "storage_location_present" "missing_attribute" (λ n p. has_text n "storage_location")
      ∷ plain "references_complete" "references_unknown"
          (λ n p. bool_or_false n "references_complete")
      ∷ plain "not_referenced" "in_use"
          (λ n p. x.order.eq (num_or_zero n "reference_count" x) x.order.nought)
      ∷ aged x std "old_enough" "too_young" (x.literal "90")
          (λ days nc. set nc "age_days" (amount days))
      ∷ []

  unfoldable pub custom_image_cost :
      ℕ
      → Node F
      → NodeContext (Stash F)
      → Pass F (Services F)
      → NodeContext (Stash F) × Option (List (CostBranch F))
  unfolding region_of round2 price_evidence currency_of num_or_zero stashed_amount stashed_words
  custom_image_cost moment n nc p =
      let prices = p.services.prices in
      let size_gb = stashed_amount nc "size_gib" x in
      let basis = stashed_words nc "size_basis" in
      let region = region_of std.to_lower n.location in
      elim (prices.pricer.unit_price "image_storage" "gcp" "standard" region) [
        | none ↦ (nc, none)
        | some unit ↦
            let waste = x.mul size_gb unit.0 in
            let source = price_evidence "price_source" prices "image_storage" "standard" unit.1 in
            let nc1 = set nc "currency" (words (currency_of prices)) in
            let nc2 = set nc1 "unit_price_gib_month" (amount unit.0) in
            (
              set nc2 "price_source" (entries (source ∷ [])),
              some (
                  record {
                    waste = round2 x waste;
                    confidence =
                        (if str_eq basis "source_disk_size"
                          then x.literal "0.6"
                          else x.literal "0.7");
                    label = "delete_image";
                  }
                  ∷ []),
            )
      ]

  unfoldable pub custom_image_evidence :
      Node F → NodeContext (Stash F) → CostBranch F → List Evidence
  unfolding has_text has_number str_or_empty num_or_zero stashed_words stashed_amount
      stashed_entries ev_money_in
  custom_image_evidence n nc branch =
      record { key = "storage_gib"; value = std.show_fixed 2 (stashed_amount nc "size_gib" x) }
      ∷ record { key = "age_days"; value = std.show_fixed 0 (stashed_amount nc "age_days" x) }
      ∷ record { key = "size_basis"; value = stashed_words nc "size_basis" }
      ∷ ev_money_in std "unit_price_gib_month" (stashed_words nc "currency")
          (stashed_amount nc "unit_price_gib_month" x) 4
      ∷ ((if has_text n "storage_location"
            then record { key = "storage_location"; value = str_or_empty n "storage_location" } ∷ []
            else [])
          ++ (if has_number n "reference_count"
              then record {
                key = "reference_count";
                value = std.show_fixed 0 (num_or_zero n "reference_count" x);
              }
                ∷ []
              else [])
          ++ stashed_entries nc "price_source")

  unfoldable pub unused_custom_image : NodeRule F (Stash F) (Services F)
  unfolding custom_image_guards custom_image_cost custom_image_evidence
  unused_custom_image = record {
    meta = unused_custom_image_meta;
    kind = "image";
    guards = custom_image_guards;
    cost = custom_image_cost;
    min_waste = x.literal "0.10";
    evidence_keys = "storage_bytes" ∷ "source_disk_size_gb" ∷ "creation_timestamp" ∷ [];
    extra_evidence = custom_image_evidence;
  }
