-- ===== src/Rules/Gcp/DetachedDisk/Findings.antt =====
-- What the findings of the rule detached_disk say.
use tellury.Base.{
  ℕ, String, Bool, true, false, ◌≡◌, sym, ap, ◌∙◌, none, some, List, [], ◌∷◌, ◌++◌, Every, arith,
  Option-cases, Bool-cases, inl, inr, ◌==◌, if◌then◌else◌, str_eq, ◌||◌, ◌<>◌, refl,
}
use mathlib.Core.Path.{subst}
use tellury.Base.Dict.{lookup}
use tellury.Float.{Numeric, IsOrdered}
use tellury.Graph.Node.{Node, exempt, str}
use tellury.Graph.Query.{in_degree}
use tellury.Graph.Reach.{Reach}
use tellury.Pricing.Region.{region_of}
use tellury.Rules.Types.{Evidence, Finding, Pass, NodeContext, Formats, set}
use tellury.Rules.Adapt.{Run, eval_node_rule, check_guards, to_finding}
use tellury.Rules.Justified.{IsJustified}
use tellury.Rules.Toolbox.{
  Services, Std, Stash, instant, words, amount, num_or_zero, str_or_empty, has_text, has_positive,
  parsed_time, days_since, round2, stashed_instant,
}
use tellury.Rules.Evidence.{price_evidence_for, currency_of, ev_money_in}
use tellury.Rules.Passing.{timed, one_branch, eval_node_rule-Every}
use tellury.Rules.Guarded.{check_guards-Passes}
use tellury.Rules.Gcp.DetachedDisk.{
  detached_disk, detached_disk_guards, detached_disk_cost, detached_days, billing_statuses,
  DiskPrices, disk_prices, disk_waste, disk_sku, confidence_for, disk_priced_components,
}

module _ {F : Type 0} (x : Numeric F) (std : Std F) (p : Pass F (Services F)) where
  -- Since when a disk counts as detached: since its last detachment, if that can be read, or else
  -- since it was made; then the basis tells whether it was ever attached.
  abbrev pub idle_since : Node F → ℕ → ℕ × String
  idle_since n created_at =
      let made : ℕ × String = elim (str n "last_attach_time") [
        | none ↦ (created_at, "never_attached")
        | some _ ↦ (created_at, "creation_fallback")
      ] in
      elim (str n "last_detach_time") [
        | none ↦ made
        | some ts ↦ elim (std.parse_time ts) [ none ↦ made | some t ↦ (t, "last_detach") ]
      ]

  abbrev pub idle_days : Node F → ℕ → F × String
  idle_days n created_at =
      (days_since x std p.now (idle_since n created_at).0, (idle_since n created_at).1)

  detached_days-idle_days :
      (n : Node F) (created_at : ℕ)
      → detached_days x std p.now n created_at ≡ idle_days n created_at
  unfolding detached_days
  detached_days-idle_days n created_at = elim (Option-cases (str n "last_detach_time")) [
    | inl never ↦ elim (Option-cases (str n "last_attach_time")) [
      | inl new ↦ rw (never, new, detached_days, idle_days, idle_since) refl
      | inr (u, used) ↦ rw (never, used, detached_days, idle_days, idle_since) refl
    ]
    | inr (ts, told) ↦ elim (Option-cases (std.parse_time ts)) [
      | inr (t, read) ↦ rw (told, read, detached_days, idle_days, idle_since) refl
      | inl unread ↦ elim (Option-cases (str n "last_attach_time")) [
        | inl new ↦ rw (told, unread, new, detached_days, idle_days, idle_since) refl
        | inr (u, used) ↦ rw (told, unread, used, detached_days, idle_days, idle_since) refl
      ]
    ]
  ]

  -- A disk of some size and type, in a status that bills. No instance is attached to it, by the edges
  -- and by the count of its users, and at least 7 days have gone since it was detached or made.
  pub record IsDetached (n : Node F) : Type 0 where
    pub has_size : has_positive n "size_gb" x ≡ true
    pub has_type : has_text n "disk_type" ≡ true
    pub bills :
        (str_eq (str_or_empty n "status") "READY"
          || str_eq (str_or_empty n "status") "FAILED"
          || str_eq (str_or_empty n "status") "RESTORING"
          || str_eq (str_or_empty n "status") "UNAVAILABLE")
        ≡ true
    pub unattached : (in_degree p.graph n.id ("attached_to" ∷ []) == 0) ≡ true
    pub no_users : x.order.eq (num_or_zero n "user_count" x) x.order.nought ≡ true
    pub created_at : ℕ
    pub created : parsed_time n "creation_timestamp" std ≡ some created_at
    pub for_a_week : x.order.lt (idle_days n created_at).0 (x.literal "7.0") ≡ false

  -- What the guards leave in the context.
  abbrev noted : Node F → ℕ → NodeContext (Stash F)
  noted n created_at =
      let (days, basis) = detached_days x std p.now n created_at in
      ("created_at", instant created_at)
      ∷ ("detached_days", amount days)
      ∷ ("age_basis", words basis)
      ∷ []

  passed-IsDetached :
      (n : Node F) (nc : NodeContext (Stash F))
      → check_guards (detached_disk_guards x std) n [] p ≡ (none, nc)
      → (d : IsDetached n) × (nc ≡ noted n d.created_at)
  unfolding detached_disk_guards billing_statuses set stashed_instant
  passed-IsDetached n nc h =
      let c = check_guards-Passes n p (detached_disk_guards x std) [] nc h in
      elim (Option-cases (parsed_time n "creation_timestamp" std)) [
        | inl missing ↦ absurd (ground (arith, rw (missing, timed) at c.1.1.1.0))
        | inr (t, found) ↦
            let d = rw (found, timed) at c.1.1.1 in
            elim (Bool-cases (x.order.lt (detached_days x std p.now n t).0 (x.literal "7.0"))) [
              | inl recent ↦ absurd (ground (arith, rw recent at d.1.1.1.1.0))
              | inr old ↦ (
                record {
                  has_size = c.0;
                  has_type = c.1.0;
                  bills = d.1.1.1.0;
                  unattached = d.1.0;
                  no_users = d.1.1.0;
                  created_at = t;
                  created = found;
                  for_a_week =
                      subst (λ d. x.order.lt d.0 (x.literal "7.0") ≡ false)
                        (detached_days-idle_days n t) old;
                },
                sym (rw old at d.1.1.1.1.1),
              )
            ]
      ]

  -- What a finding says of the disk and of its price.
  abbrev pub evidence_of : F × String → Node F → String → DiskPrices F → List Evidence
  evidence_of (days, basis) n sku d =
      record { key = "size_gb"; value = std.show_fixed 0 d.size_gb }
      ∷ record { key = "disk_type"; value = str_or_empty n "disk_type" }
      ∷ record { key = "disk_sku"; value = sku }
      ∷ record { key = "status"; value = str_or_empty n "status" }
      ∷ record { key = "attached_instances"; value = "0" }
      ∷ record { key = "detached_days"; value = std.show_fixed 0 days }
      ∷ record { key = "age_basis"; value = basis }
      ∷ ev_money_in std "unit_price_gib_month" (currency_of p.services.prices) d.cap.0 4
      ∷ (price_evidence_for "price_source" p.services.prices (disk_priced_components x sku d)
          ++ (if x.order.lt x.order.nought d.iops
              then record { key = "provisioned_iops"; value = std.show_fixed 0 d.iops } ∷ []
              else [])
          ++ (if x.order.lt x.order.nought d.mbps
              then record { key = "provisioned_throughput_mbps"; value = std.show_fixed 0 d.mbps }
                ∷ []
              else []))

  -- A disk with replicas in two zones or more is billed as regional.
  abbrev pub sku_of : Node F → String
  sku_of n =
      if x.order.le (x.literal "2") (num_or_zero n "replica_zone_count" x)
      then str_or_empty n "disk_type" <> "-regional"
      else str_or_empty n "disk_type"

  -- The price of a part of the disk, or 0 if it has none.
  abbrev pub part_of : String → Node F → F × String
  part_of kind n =
      elim (p.services.prices.pricer.unit_price kind "gcp" (sku_of n)
        (region_of std.to_lower n.location)) [ none ↦ (x.order.nought, "") | some answer ↦ answer ]

  abbrev pub prices_of : Node F → F × String → DiskPrices F
  prices_of n cap = record {
    size_gb = num_or_zero n "size_gb" x;
    iops = num_or_zero n "provisioned_iops" x;
    mbps = num_or_zero n "provisioned_throughput_mbps" x;
    cap = cap;
    iops_price = part_of "disk_iops" n;
    thr_price = part_of "disk_throughput" n;
  }

  -- Full confidence, less a tenth if the age is only that of the disk, and a tenth less of a disk that
  -- is not in order.
  abbrev pub trust : String → Node F → F
  trust basis n =
      let c = if str_eq basis "creation_fallback" then x.literal "0.9" else x.literal "1.0" in
      if str_eq (str_or_empty n "status") "FAILED" || str_eq (str_or_empty n "status") "UNAVAILABLE"
      then x.mul c (x.literal "0.9")
      else c

  -- A finding is about a detached disk that the graph holds and that is not exempt. Its waste is what
  -- the capacity and what is provisioned cost, and reaches the floor.
  pub record IsDetachedFinding (fd : Finding F) : Type 0 where
    pub node : Node F
    pub found : lookup fd.resource_id p.graph.nodes ≡ some node
    pub not_exempt : exempt node ≡ false
    pub detached : IsDetached node
    pub price : F × String
    pub priced :
        p.services.prices.pricer.unit_price "disk_capacity" "gcp"
          (sku_of node)
          (region_of std.to_lower node.location)
        ≡ some price
    pub wasted :
        fd.monthly_waste
        ≡ x.add
            (x.add
              (x.mul (num_or_zero node "size_gb" x) price.0)
              (x.mul (num_or_zero node "provisioned_iops" x) (part_of "disk_iops" node).0))
            (x.mul
              (num_or_zero node "provisioned_throughput_mbps" x)
              (part_of "disk_throughput" node).0)
    pub above : x.order.le (x.literal "0.10") fd.monthly_waste ≡ true
    pub confident : fd.confidence ≡ round2 x (trust (idle_days node detached.created_at).1 node)
    pub told :
        fd.evidence
        ≡ evidence_of (idle_days node detached.created_at) node (sku_of node) (prices_of node price)

  module _ (fmt : Formats F) (ctx : ℕ → Bool) where
    justified-IsDetachedFinding :
        (fd : Finding F)
        → IsJustified x.order fmt ctx (detached_disk x std) p fd
        → IsDetachedFinding fd
    unfolding detached_disk to_finding set disk_waste disk_prices disk_sku confidence_for
    justified-IsDetachedFinding fd j =
        let (d, left) = passed-IsDetached j.node j.before j.passed in
        let found =
          p.services.prices.pricer.unit_price "disk_capacity" "gcp" (sku_of j.node)
            (region_of std.to_lower j.node.location) in
        let cost = ap (λ nc. detached_disk_cost x std j.moment j.node nc p) (sym left) ∙ j.priced in
        let same = detached_days-idle_days j.node d.created_at in
        elim (Option-cases found) [
          | inl missing ↦
              absurd (ground (arith, ap (λ o. o.1) (rw (missing, detached_disk_cost) at cost)))
          | inr (unit, priced) ↦
              let (reported, above) = one_branch j (rw (priced, detached_disk_cost) at cost) in
              record {
                node = j.node;
                found = j.found;
                not_exempt = j.not_exempt;
                detached = d;
                price = unit;
                priced = priced;
                wasted = ap (λ (f : Finding F). f.monthly_waste) reported;
                above = rw reported above;
                confident =
                    ap (λ (f : Finding F). f.confidence) reported
                    ∙ ap (λ days. round2 x (trust days.1 j.node)) same;
                told =
                    ap (λ (f : Finding F). f.evidence) reported
                    ∙ ap (λ days. evidence_of days j.node (sku_of j.node) (prices_of j.node unit))
                        same;
              }
        ]

    -- On a graph that the API reaches, evaluating detached_disk meets no nil node, whatever the
    -- context answers, and every finding is about a detached disk of the graph, in a status that
    -- bills, not exempt, to which no instance is attached and that was detached, or else made, at least
    -- 7 days ago; its waste is the cost of its capacity and of the operations and the throughput that
    -- are provisioned, its confidence is lower where the age is only that of the disk or the status is
    -- FAILED or UNAVAILABLE, and its evidence tells these, provided that the floats are ordered.
    pub eval_node_rule-detached_disk :
        IsOrdered x.order
        → Reach p.graph
        → (r : Run F) × (eval_node_rule x.order fmt ctx (detached_disk x std) p ≡ some r)
          × Every IsDetachedFinding r.findings
    eval_node_rule-detached_disk o reached =
        eval_node_rule-Every o fmt ctx (detached_disk x std) p reached justified-IsDetachedFinding
