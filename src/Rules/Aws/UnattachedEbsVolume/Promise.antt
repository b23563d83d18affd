-- ===== src/Rules/Aws/UnattachedEbsVolume/Promise.antt =====
-- The rule unattached_ebs_volume against what it promises.
use tellury.Base.{
  ℕ, String, Bool, true, false, not, ◌&&◌, ◌==◌, ◌≡◌, refl, none, some, List, [], ◌∷◌, ◌++◌, str_eq,
  if◌then◌else◌, arith, Option-cases, inl, inr,
}
use mathlib.Core.Path.{subst}
use tellury.Base.Dict.{list_at}
use tellury.Float.{Numeric}
use tellury.Graph.Node.{Node}
use tellury.Graph.Query.{in_degree}
use tellury.Graph.Reach.{Reach}
use tellury.Rules.Contract.{Contract, Implements, promised_findings, findings-Contract, refused}
use tellury.Graph.Walk.{nodes_at}
use tellury.Pricing.Region.{region_of}
use tellury.Pricing.Provenance.{round_2}
use tellury.Rules.Types.{Evidence, Pass, NodeContext, Formats, set}
use tellury.Rules.Adapt.{Run, eval_node_rule, check_guards, auto_collect}
use tellury.Rules.Toolbox.{
  Services, Std, Stash, words, amount, entries, num_or_zero, str_or_empty, has_text, has_positive,
  parsed_time, days_since, known_text, instant, known,
}
use tellury.Rules.Evidence.{price_evidence_for, currency_of, ev_money_in}
use tellury.Rules.Aws.UnattachedEbsVolume.{
  billable_above, included_iops, included_throughput_mbps, unattached_ebs_volume, volume_cost,
  volume_priced_components, volume_sku,
}

module _ {F : Type 0} (x : Numeric F) (std : Std F) (fmt : Formats F)
    (p : Pass F (Services F)) where
  -- The whole days since the creation, of a node whose creation is known.
  abbrev age_of : Node F → F
  age_of n = elim (parsed_time n "create_time" std) [
    | none ↦ x.order.nought
    | some t ↦ x.floor (days_since x std p.now t)
  ]

  -- What is provisioned above what the type includes.
  abbrev iops_of : Node F → F
  iops_of n =
      billable_above x std (num_or_zero n "iops" x)
        (included_iops x std (str_or_empty n "volume_type"))

  abbrev mbps_of : Node F → F
  mbps_of n =
      billable_above x std (num_or_zero n "throughput" x)
        (included_throughput_mbps x std (str_or_empty n "volume_type"))

  abbrev part_of : Node F → String → F × String
  part_of n kind =
      elim (p.services.prices.pricer.unit_price kind "aws" (str_or_empty n "volume_type")
        (region_of std.to_lower n.location)) [ none ↦ (x.order.nought, "") | some answer ↦ answer ]

  abbrev sources_of : Node F → F × String → List Evidence
  sources_of n u = price_evidence_for "price_source" p.services.prices (
      volume_priced_components x std (str_or_empty n "volume_type") u (part_of n "disk_iops")
        (part_of n "disk_throughput") (num_or_zero n "size_gb" x) (num_or_zero n "iops" x)
        (num_or_zero n "throughput" x))

  -- An available volume of a known size and type that nothing is attached to, by the edges and by the
  -- count of its attachments, wastes what its capacity and what is provisioned above the included cost.
  -- `iops` and `mbps` tell what is billed besides the capacity.
  abbrev contract_of : (iops mbps : Node F → F) → Contract F (F × String)
  contract_of iops mbps = record {
    rule_id = "unattached_ebs_volume";
    idle = λ n.
        has_positive n "size_gb" x
        && has_text n "volume_type"
        && known (parsed_time n "create_time" std)
        && x.order.eq (num_or_zero n "attachment_count" x) x.order.nought
        && in_degree p.graph n.id ("attached_to" ∷ []) == 0
        && str_eq (str_or_empty n "state") "available"
        && not (x.order.lt (age_of n) (x.literal "7.0"));
    price_of = λ n.
        p.services.prices.pricer.unit_price "disk_capacity" "aws" (str_or_empty n "volume_type")
          (region_of std.to_lower n.location);
    branch = λ n u. record {
      waste = round_2 x (
          x.add
            (x.add (x.mul (num_or_zero n "size_gb" x) u.0)
              (x.mul (iops n) (part_of n "disk_iops").0))
            (x.mul (mbps n) (part_of n "disk_throughput").0));
      confidence = x.literal "0.85";
      label = "detached";
    };
    evidence = λ n u.
        record { key = "size_gb"; value = std.show_fixed 0 (num_or_zero n "size_gb" x) }
        ∷ record { key = "volume_type"; value = str_or_empty n "volume_type" }
        ∷ record { key = "disk_sku"; value = str_or_empty n "volume_type" }
        ∷ record { key = "state"; value = str_or_empty n "state" }
        ∷ record { key = "attached_instances"; value = "0" }
        ∷ record { key = "detached_days"; value = std.show_fixed 0 (age_of n) }
        ∷ record { key = "age_basis"; value = "creation_fallback" }
        ∷ ev_money_in std "unit_price_gib_month" (currency_of p.services.prices) u.0 4
        ∷ (sources_of n u
            ++ (if x.order.lt x.order.nought (num_or_zero n "iops" x)
                then record { key = "iops"; value = std.show_fixed 0 (num_or_zero n "iops" x) } ∷ []
                else [])
            ++ (if x.order.lt x.order.nought (num_or_zero n "throughput" x)
                then record {
                  key = "throughput";
                  value = std.show_fixed 0 (num_or_zero n "throughput" x);
                }
                  ∷ []
                else []));
    floor = x.literal "0.10";
  }

  unfoldable volume_contract : Contract F (F × String)
  volume_contract = contract_of iops_of mbps_of

  -- What is provisioned above the quantity that a type gp3 includes; other types include none.
  abbrev above : F → F → Node F → F
  above provisioned free n =
      let included = if str_eq (str_or_empty n "volume_type") "gp3" then free else x.order.nought in
      if x.order.le provisioned included then x.order.nought else x.sub provisioned included

  -- The contract with the included quantities spelled out: 3000 operations and 125 MiB a second.
  unfoldable pub volume_promise : Contract F (F × String)
  volume_promise =
      contract_of (λ n. above (num_or_zero n "iops" x) (x.literal "3000") n)
        (λ n. above (num_or_zero n "throughput" x) (x.literal "125") n)

  volume_contract-eq : volume_contract ≡ volume_promise
  unfolding volume_contract volume_promise billable_above included_iops included_throughput_mbps
  volume_contract-eq = refl

  -- What the guards leave in the context.
  abbrev noted_of : Node F → NodeContext (Stash F)
  noted_of n = elim (parsed_time n "create_time" std) [
    | none ↦ []
    | some t ↦
        ("created_at", instant t)
        ∷ ("detached_days", amount (age_of n))
        ∷ ("age_basis", words "creation_fallback")
        ∷ []
  ]

  -- What the cost leaves in it.
  abbrev stash_of : Node F → F × String → NodeContext (Stash F)
  stash_of n u =
      set
        (set
          (set
            (set
              (set
                (set
                  (set (set (noted_of n) "billable_iops" (amount (iops_of n))) "billable_throughput"
                    (amount (mbps_of n)))
                  "currency" (words (currency_of p.services.prices)))
                "disk_sku" (words (str_or_empty n "volume_type")))
              "cap_price" (amount u.0))
            "price_source_evidence" (entries (sources_of n u)))
          "provisioned_iops" (amount (num_or_zero n "iops" x)))
        "provisioned_throughput" (amount (num_or_zero n "throughput" x))

  volume-refuses :
      (n : Node F)
      → volume_contract.idle n ≡ false
      → refused (check_guards (unattached_ebs_volume x std).guards n [] p) ≡ true
  unfolding unattached_ebs_volume volume_contract volume_sku set check_guards
  volume-refuses n busy = elim (Option-cases (parsed_time n "create_time" std)) [
    | inl missing ↦ ground (arith, known_text n "state" "available" refl)
    | inr (t, found) ↦ ground (arith, known_text n "state" "available" refl)
  ]

  volume-accepts :
      (n : Node F)
      → volume_contract.idle n ≡ true
      → check_guards (unattached_ebs_volume x std).guards n [] p ≡ (none, noted_of n)
  unfolding unattached_ebs_volume volume_contract volume_sku set check_guards
  volume-accepts n idle = elim (Option-cases (parsed_time n "create_time" std)) [
    | inl missing ↦ ground (arith, known_text n "state" "available" refl)
    | inr (t, found) ↦ ground (arith, known_text n "state" "available" refl)
  ]

  module _ (ctx : ℕ → Bool) where
    unattached_ebs_volume-Implements :
        Implements x.order fmt ctx (unattached_ebs_volume x std) p volume_contract
    unfolding unattached_ebs_volume volume_contract volume_sku set auto_collect
    unattached_ebs_volume-Implements = record {
      noted = noted_of;
      stash = stash_of;
      same_id = refl;
      same_floor = refl;
      refuses = volume-refuses;
      accepts = volume-accepts;
      unpriced = λ t n idle missing. rw (missing, volume_cost) refl;
      offers = λ t n u idle found. rw (found, volume_cost) refl;
      tells = λ n u idle found. elim (Option-cases (parsed_time n "create_time" std)) [
        | inl missing ↦ absurd (ground (arith, rw missing at idle))
        | inr (t, made) ↦ rw (made, noted_of, stash_of) refl
      ];
    }

    -- On a graph that the API reaches, with a context that is never cancelled, unattached_ebs_volume
    -- reports just the volumes that are not exempt, are available and of a known size and type, were made at
    -- least 7 days ago and have no attachment, by the edges and by their count, if the price of their
    -- capacity is known and the waste reaches the floor, in the order of the index; the waste is what the
    -- capacity and the provisioning above what the type includes cost.
    pub eval_node_rule-unattached_ebs_volume :
        ((t : ℕ) → ctx t ≡ false)
        → Reach p.graph
        → (r : Run F) × (eval_node_rule x.order fmt ctx (unattached_ebs_volume x std) p ≡ some r)
          × (r.findings
              ≡ promised_findings x.order volume_promise
                  (nodes_at p.graph.nodes (list_at "disk" p.graph.by_kind)))
    unfolding unattached_ebs_volume
    eval_node_rule-unattached_ebs_volume live reached =
        let kept = nodes_at p.graph.nodes (list_at "disk" p.graph.by_kind) in
        subst
          (λ c.
            (r : Run F) × (eval_node_rule x.order fmt ctx (unattached_ebs_volume x std) p ≡ some r)
            × (r.findings ≡ promised_findings x.order c kept))
          volume_contract-eq
          (findings-Contract x.order fmt ctx (unattached_ebs_volume x std) p volume_contract live
            unattached_ebs_volume-Implements reached)
