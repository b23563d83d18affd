-- ===== src/Rules/Gcp/DetachedDisk.antt =====
-- pkg/rules/gcp/compute/detached_disk/rule.go: disks that no instance uses.
pub mod Findings
use tellury.Base.{
  ℕ, String, Bool, true, false, not, ◌&&◌, ◌||◌, ◌==◌, Option, none, some, List, [], ◌∷◌, ◌++◌,
  str_eq, if◌then◌else◌, ◌<>◌,
}
use tellury.Float.{Numeric}
use tellury.Graph.Node.{Node, str, num}
use tellury.Graph.Query.{in_degree}
use tellury.Pricing.Cost.{Pricer}
use tellury.Pricing.Region.{region_of}
use tellury.Rules.Types.{Evidence, Meta, Pass, NodeContext, CostBranch, Guard, NodeRule, set}
use tellury.Rules.Toolbox.{
  Services, Std, Stash, words, amount, instant, entries, stashed_words, stashed_amount,
  stashed_instant, stashed_entries, num_or_zero, str_or_empty, has_text, has_positive, parsed_time,
  days_since, round2,
}
use tellury.Rules.Evidence.{PricedComponent, price_evidence_for, currency_of, ev_money_in}
use tellury.Rules.Passing.{plain, timed}

abbrev pub detached_disk_meta : Meta
detached_disk_meta = record {
  id = "detached_disk";
  provider = "gcp";
  service = "compute";
  title = "Persistent disk is not attached to any instance";
  description =
      "A zonal or regional persistent disk with no attached "
      <> ("instance still bills at the full provisioned-capacity rate. "
          <> "Snapshot and delete, or attach it.");
  severity = "medium";
  required_asset_types = "compute.googleapis.com/Disk" ∷ "compute.googleapis.com/Instance" ∷ [];
  required_metrics = [];
  remediation =
      "gcloud compute disks snapshot NAME --zone ZONE "
      <> ("--snapshot-names NAME-pre-delete && "
          <> "gcloud compute disks delete NAME --zone ZONE --quiet");
  origin = "native";
  target_kind = "";
}

unfoldable pub billing_statuses : String → Bool
billing_statuses s =
    str_eq s "READY" || str_eq s "FAILED" || str_eq s "RESTORING" || str_eq s "UNAVAILABLE"

-- What a failed lookup of a price returns with its error.
abbrev pub price_or_zero : {F : Type 0} → Numeric F → Option (F × String) → F × String
price_or_zero x none = (x.order.nought, "")
price_or_zero x (some answer) = answer

-- The provisioned quantities, and the prices and regions of their lookups.
pub record DiskPrices (F : Type 0) : Type 0 where
  pub size_gb : F
  pub iops : F
  pub mbps : F
  pub cap : F × String
  pub iops_price : F × String
  pub thr_price : F × String

abbrev component : String → String → String → String → PricedComponent
component kind sku region key = record { kind = kind; sku = sku; region = region; key = key }

module _ {F : Type 0} (x : Numeric F) where
  unfoldable pub disk_sku : String → F → String
  disk_sku disk_type replica_zones =
      if x.order.le (x.literal "2") replica_zones then disk_type <> "-regional" else disk_type

  unfoldable pub confidence_for : String → String → F
  confidence_for age_basis status =
      let c = if str_eq age_basis "creation_fallback" then x.literal "0.9" else x.literal "1.0" in
      if str_eq status "FAILED" || str_eq status "UNAVAILABLE" then x.mul c (x.literal "0.9") else c

  unfoldable pub disk_priced_components : String → DiskPrices F → List PricedComponent
  disk_priced_components sku d =
      let zero = x.order.nought in
      let comps : List PricedComponent =
        (if not (x.order.eq d.size_gb zero)
          then component "disk_capacity" sku d.cap.1 "capacity" ∷ []
          else [])
        ++ (if x.order.lt zero d.iops && not (x.order.eq d.iops_price.0 zero)
            then component "disk_iops" sku d.iops_price.1 "iops" ∷ []
            else [])
        ++ (if x.order.lt zero d.mbps && not (x.order.eq d.thr_price.0 zero)
            then component "disk_throughput" sku d.thr_price.1 "throughput" ∷ []
            else []) in
      elim comps [ [] ↦ component "disk_capacity" sku d.cap.1 "capacity" ∷ [] | c ∷ cs ↦ c ∷ cs ]

  -- The quantities and prices that `Cost` reads of a node, for a price of its capacity.
  unfoldable pub disk_prices : Pricer F → Node F → String → String → F × String → DiskPrices F
  unfolding num_or_zero
  disk_prices pricer n sku region cap = record {
    size_gb = num_or_zero n "size_gb" x;
    iops = num_or_zero n "provisioned_iops" x;
    mbps = num_or_zero n "provisioned_throughput_mbps" x;
    cap = cap;
    iops_price = price_or_zero x (pricer.unit_price "disk_iops" "gcp" sku region);
    thr_price = price_or_zero x (pricer.unit_price "disk_throughput" "gcp" sku region);
  }

  unfoldable pub disk_waste : DiskPrices F → F
  disk_waste d =
      x.add (x.add (x.mul d.size_gb d.cap.0) (x.mul d.iops d.iops_price.0))
        (x.mul d.mbps d.thr_price.0)

module _ {F : Type 0} (x : Numeric F) (std : Std F) where
  unfoldable pub detached_days : ℕ → Node F → ℕ → F × String
  unfolding days_since str
  detached_days now n created_at =
      let without : F × String = elim (str n "last_attach_time") [
        | none ↦ (days_since x std now created_at, "never_attached")
        | some _ ↦ (days_since x std now created_at, "creation_fallback")
      ] in
      elim (str n "last_detach_time") [
        | none ↦ without
        | some ts ↦ elim (std.parse_time ts) [
          | none ↦ without
          | some t ↦ (days_since x std now t, "last_detach")
        ]
      ]

  abbrev Now : Type 0
  Now = Pass F (Services F)

  -- The last guard: it keeps the days and their basis for the cost and the evidence.
  abbrev detached_long_enough : Guard F (Stash F) (Services F)
  detached_long_enough = record {
    skip_code = "recently_detached";
    name = "detached_long_enough";
    check = λ n nc p. elim (stashed_instant nc "created_at") [
      | none ↦ (false, nc)
      | some created_at ↦
          let (days, basis) = detached_days p.now n created_at in
          if x.order.lt days (x.literal "7.0")
          then (false, nc)
          else (true, set (set nc "detached_days" (amount days)) "age_basis" (words basis))
    ];
  }

  unfoldable pub detached_disk_guards : List (Guard F (Stash F) (Services F))
  unfolding detached_days has_positive has_text parsed_time in_degree num_or_zero str_or_empty
      billing_statuses stashed_instant
  detached_disk_guards =
      plain "size_gb_positive" "missing_attribute" (λ n p. has_positive n "size_gb" x)
      ∷ plain "disk_type_present" "missing_attribute" (λ n p. has_text n "disk_type")
      ∷ plain "status_present" "missing_attribute" (λ n p. has_text n "status")
      ∷ timed "creation_timestamp_parseable" "missing_attribute" "created_at"
          (λ n. parsed_time n "creation_timestamp" std)
      ∷ plain "not_attached" "in_use" (λ n p. in_degree p.graph n.id ("attached_to" ∷ []) == 0)
      ∷ plain "no_cai_users" "in_use"
          (λ n p. x.order.eq (num_or_zero n "user_count" x) x.order.nought)
      ∷ plain "billing_status" "non_billing_status"
          (λ n p. billing_statuses (str_or_empty n "status"))
      ∷ detached_long_enough
      ∷ []

  unfoldable pub detached_disk_cost :
      ℕ
      → Node F
      → NodeContext (Stash F)
      → Now
      → NodeContext (Stash F) × Option (List (CostBranch F))
  unfolding disk_prices disk_waste disk_sku confidence_for round2 stashed_words num_or_zero
      str_or_empty disk_priced_components price_evidence_for currency_of
  detached_disk_cost moment n nc p =
      let prices = p.services.prices in
      let sku = disk_sku x (str_or_empty n "disk_type") (num_or_zero n "replica_zone_count" x) in
      let region = region_of std.to_lower n.location in
      elim (prices.pricer.unit_price "disk_capacity" "gcp" sku region) [
        | none ↦ (nc, none)
        | some cap ↦
            let d = disk_prices x prices.pricer n sku region cap in
            let confidence =
              round2 x
                (confidence_for x (stashed_words nc "age_basis") (str_or_empty n "status")) in
            let comps = disk_priced_components x sku d in
            let source = price_evidence_for "price_source" prices comps in
            let nc1 = set (set nc "currency" (words (currency_of prices))) "disk_sku" (words sku) in
            let nc2 =
              set (set nc1 "cap_price" (amount cap.0)) "price_source_evidence" (entries source) in
            let nc3 =
              set (set nc2 "provisioned_iops" (amount d.iops)) "provisioned_throughput_mbps"
                (amount d.mbps) in
            (
              nc3,
              some (
                  record { waste = disk_waste x d; confidence = confidence; label = "detached" }
                  ∷ []),
            )
      ]

  unfoldable pub detached_disk_evidence :
      Node F → NodeContext (Stash F) → CostBranch F → List Evidence
  unfolding num_or_zero str_or_empty stashed_words stashed_amount stashed_entries ev_money_in
  detached_disk_evidence n nc branch =
      let iops = stashed_amount nc "provisioned_iops" x in
      let mbps = stashed_amount nc "provisioned_throughput_mbps" x in
      let zero = x.order.nought in
      record { key = "size_gb"; value = std.show_fixed 0 (num_or_zero n "size_gb" x) }
      ∷ record { key = "disk_type"; value = str_or_empty n "disk_type" }
      ∷ record { key = "disk_sku"; value = stashed_words nc "disk_sku" }
      ∷ record { key = "status"; value = str_or_empty n "status" }
      ∷ record { key = "attached_instances"; value = "0" }
      ∷ record {
        key = "detached_days";
        value = std.show_fixed 0 (stashed_amount nc "detached_days" x);
      }
      ∷ record { key = "age_basis"; value = stashed_words nc "age_basis" }
      ∷ ev_money_in std "unit_price_gib_month" (stashed_words nc "currency")
          (stashed_amount nc "cap_price" x) 4
      ∷ (stashed_entries nc "price_source_evidence"
          ++ (if x.order.lt zero iops
              then record { key = "provisioned_iops"; value = std.show_fixed 0 iops } ∷ []
              else [])
          ++ (if x.order.lt zero mbps
              then record { key = "provisioned_throughput_mbps"; value = std.show_fixed 0 mbps }
                ∷ []
              else []))

  unfoldable pub detached_disk : NodeRule F (Stash F) (Services F)
  unfolding detached_disk_guards detached_disk_cost detached_disk_evidence
  detached_disk = record {
    meta = detached_disk_meta;
    kind = "disk";
    guards = detached_disk_guards;
    cost = detached_disk_cost;
    min_waste = x.literal "0.10";
    evidence_keys = [];
    extra_evidence = detached_disk_evidence;
  }
