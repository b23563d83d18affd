-- ===== src/Rules/Azure/UnattachedManagedDisk/Promise.antt =====
-- The rule unattached_managed_disk against what it promises.
use tellury.Base.{
  fun_ext, filter, ℕ, String, Bool, true, false, not, ◌&&◌, ◌≡◌, refl, ap, Option, none, some, [],
  ◌∷◌, str_eq, arith, Option-cases, inl, inr,
}
use mathlib.Core.Path.{subst}
use tellury.Base.Trim.{trim_space}
use tellury.Pricing.ManagedDisk.{DiskFamily, DiskTier, managed_disk_families}
use tellury.Pricing.DiskTiers.{managed_disk_tier_sku_lem}
use tellury.Base.Dict.{list_at}
use tellury.Float.{Numeric}
use tellury.Graph.Node.{Node}
use tellury.Graph.Reach.{Reach}
use tellury.Rules.Contract.{Contract, Implements, promised_findings, findings-Contract, refused}
use tellury.Graph.Walk.{nodes_at}
use tellury.Pricing.Region.{region_of}
use tellury.Pricing.Provenance.{round_2}
use tellury.Rules.Types.{Pass, NodeContext, Formats, set}
use tellury.Rules.Adapt.{Run, eval_node_rule, check_guards, auto_collect}
use tellury.Rules.Toolbox.{
  Services, Std, Stash, words, amount, entries, num_or_zero, str_or_empty, has_text, has_positive,
  node_time, days_since, known_text, other_text, instant, known, value_or,
}
use tellury.Rules.Evidence.{price_evidence, currency_of, ev_money_in}
use tellury.Pricing.ManagedDisk.{managed_disk_tier_sku}
use tellury.Rules.Azure.UnattachedManagedDisk.{managed_disk_cost, unattached_managed_disk}

module _ {F : Type 0} (x : Numeric F) (std : Std F) (fmt : Formats F)
    (p : Pass F (Services F)) where
  -- The whole days since the creation, of a node whose creation is known.
  abbrev age_of : Node F → F
  age_of n = elim (node_time n "time_created" std) [
    | none ↦ x.order.nought
    | some t ↦ x.floor (days_since x std p.now t)
  ]

  -- The tier that a disk is billed as, and the price of a tier where the disk is.
  abbrev tier_of : Node F → Option String
  tier_of n =
      managed_disk_tier_sku std.to_lower x (str_or_empty n "sku_name")
        (num_or_zero n "disk_size_gb" x)

  abbrev tier_price : Node F → String → Option (F × String)
  tier_price n sku =
      p.services.prices.pricer.unit_price "managed_disk" "azure" sku
        (region_of std.to_lower n.location)

  -- An unattached managed disk of a known size and SKU that nothing manages wastes the price of its tier.
  -- `tier` tells the tier that a disk is billed as.
  abbrev contract_of : (Node F → Option String) → Contract F (String × F × String)
  contract_of tier = record {
    rule_id = "unattached_managed_disk";
    idle = λ n.
        has_positive n "disk_size_gb" x
        && has_text n "sku_name"
        && known (node_time n "time_created" std)
        && str_eq (str_or_empty n "disk_state") "Unattached"
        && str_eq (str_or_empty n "managed_by") ""
        && not (x.order.lt (age_of n) (x.literal "7.0"));
    price_of = λ n. elim (tier n) [
      | none ↦ none
      | some sku ↦ elim (tier_price n sku) [ none ↦ none | some unit ↦ some (sku, unit.0, unit.1) ]
    ];
    branch = λ n u. record {
      waste = round_2 x u.1;
      confidence = x.literal "0.85";
      label = "unattached";
    };
    evidence = λ n u.
        record { key = "size_gb"; value = std.show_fixed 0 (num_or_zero n "disk_size_gb" x) }
        ∷ record { key = "sku_name"; value = str_or_empty n "sku_name" }
        ∷ record { key = "disk_sku"; value = u.0 }
        ∷ record { key = "disk_state"; value = str_or_empty n "disk_state" }
        ∷ record { key = "managed_by"; value = str_or_empty n "managed_by" }
        ∷ record { key = "time_created"; value = str_or_empty n "time_created" }
        ∷ record { key = "detached_days"; value = std.show_fixed 0 (age_of n) }
        ∷ record { key = "age_basis"; value = "creation_fallback" }
        ∷ ev_money_in std "unit_price_disk_month" (currency_of p.services.prices) u.1 4
        ∷ price_evidence "price_source" p.services.prices "managed_disk" u.0 u.2
        ∷ [];
    floor = x.literal "0.10";
  }

  unfoldable managed_disk_contract : Contract F (String × F × String)
  managed_disk_contract = contract_of tier_of

  -- Of the first family whose name is the SKU, in lower case and without white space around it, the
  -- first tier that has just the size of the disk.
  abbrev sized_tier : Node F → Option String
  sized_tier n =
      let named = λ (family : DiskFamily).
        str_eq (std.to_lower family.arm_sku_name)
          (std.to_lower (trim_space (str_or_empty n "sku_name"))) in
      let sized =
        λ (t : DiskTier). x.order.eq (x.literal t.size_gib) (num_or_zero n "disk_size_gb" x) in
      elim (filter named managed_disk_families) [
        | [] ↦ none
        | family ∷ _ ↦ elim (filter sized family.tiers) [ [] ↦ none | t ∷ _ ↦ some t.sku_name ]
      ]

  -- The contract with the tier spelled out.
  unfoldable pub managed_disk_promise : Contract F (String × F × String)
  managed_disk_promise = contract_of sized_tier

  managed_disk_contract-eq : managed_disk_contract ≡ managed_disk_promise
  unfolding managed_disk_contract managed_disk_promise
  managed_disk_contract-eq = ap contract_of (
      fun_ext (λ n.
        managed_disk_tier_sku_lem std.to_lower x (str_or_empty n "sku_name")
          (num_or_zero n "disk_size_gb" x)))

  -- What the guards leave in the context.
  abbrev noted_of : Node F → NodeContext (Stash F)
  noted_of n = elim (node_time n "time_created" std) [
    | none ↦ []
    | some t ↦
        ("created_at", instant t)
        ∷ ("detached_days", amount (age_of n))
        ∷ ("age_basis", words "creation_fallback")
        ∷ []
  ]

  -- What the cost leaves in it.
  abbrev stash_of : Node F → String × F × String → NodeContext (Stash F)
  stash_of n u =
      set
        (set
          (set (set (noted_of n) "currency" (words (currency_of p.services.prices))) "disk_sku"
            (words u.0))
          "unit_price_disk_month" (amount u.1))
        "price_source"
        (entries (price_evidence "price_source" p.services.prices "managed_disk" u.0 u.2 ∷ []))

  managed_disk-refuses :
      (n : Node F)
      → managed_disk_contract.idle n ≡ false
      → refused (check_guards (unattached_managed_disk x std).guards n [] p) ≡ true
  unfolding unattached_managed_disk managed_disk_contract set check_guards
  managed_disk-refuses n busy = elim (Option-cases (node_time n "time_created" std)) [
    | inl missing ↦ ground (
      arith,
      known_text n "disk_state" "Unattached" refl,
      other_text (str_or_empty n "disk_state") "Unattached" "Attached" refl,
    )
    | inr (t, found) ↦ ground (
      arith,
      known_text n "disk_state" "Unattached" refl,
      other_text (str_or_empty n "disk_state") "Unattached" "Attached" refl,
    )
  ]

  managed_disk-accepts :
      (n : Node F)
      → managed_disk_contract.idle n ≡ true
      → check_guards (unattached_managed_disk x std).guards n [] p ≡ (none, noted_of n)
  unfolding unattached_managed_disk managed_disk_contract set check_guards
  managed_disk-accepts n idle = elim (Option-cases (node_time n "time_created" std)) [
    | inl missing ↦ ground (
      arith,
      known_text n "disk_state" "Unattached" refl,
      other_text (str_or_empty n "disk_state") "Unattached" "Attached" refl,
    )
    | inr (t, found) ↦ ground (
      arith,
      known_text n "disk_state" "Unattached" refl,
      other_text (str_or_empty n "disk_state") "Unattached" "Attached" refl,
    )
  ]

  module _ (ctx : ℕ → Bool) where
    unattached_managed_disk-Implements :
        Implements x.order fmt ctx (unattached_managed_disk x std) p managed_disk_contract
    unfolding unattached_managed_disk managed_disk_contract set auto_collect
    unattached_managed_disk-Implements = record {
      noted = noted_of;
      stash = stash_of;
      same_id = refl;
      same_floor = refl;
      refuses = managed_disk-refuses;
      accepts = managed_disk-accepts;
      unpriced = λ t n idle missing. elim (Option-cases (tier_of n)) [
        | inl no_tier ↦ rw (no_tier, managed_disk_cost) refl
        | inr (sku, found_tier) ↦ elim (Option-cases (tier_price n sku)) [
          | inl no_price ↦ rw (found_tier, no_price, managed_disk_cost) refl
          | inr (unit, found_price) ↦ absurd (
              ground (
                arith,
                rw (found_tier, found_price, managed_disk_contract, contract_of) at missing,
              ))
        ]
      ];
      offers = λ t n u idle found. elim (Option-cases (tier_of n)) [
        | inl no_tier ↦
            absurd (ground (arith, rw (no_tier, managed_disk_contract, contract_of) at found))
        | inr (sku, found_tier) ↦ elim (Option-cases (tier_price n sku)) [
          | inl no_price ↦ absurd (
              ground
                (arith, rw (found_tier, no_price, managed_disk_contract, contract_of) at found))
          | inr (unit, found_price) ↦
              let same =
                ap (value_or u)
                  (rw (found_tier, found_price, managed_disk_contract, contract_of) at found) in
              rw (found_tier, found_price, managed_disk_cost)
                (ap (λ v. (stash_of n v, some (managed_disk_contract.branch n v ∷ []))) same)
        ]
      ];
      tells = λ n u idle found. elim (Option-cases (node_time n "time_created" std)) [
        | inl missing ↦ absurd (ground (arith, rw missing at idle))
        | inr (t, made) ↦ rw (made, noted_of, stash_of) refl
      ];
    }

    -- On a graph that the API reaches, with a context that is never cancelled, unattached_managed_disk
    -- reports just the managed disks that are not exempt, are unattached and managed by nothing, have a size
    -- and a SKU and were made at least 7 days ago, if they have a tier, its price is known and reaches
    -- the floor, in the order of the index; the waste is the price of the tier.
    pub eval_node_rule-unattached_managed_disk :
        ((t : ℕ) → ctx t ≡ false)
        → Reach p.graph
        → (r : Run F) × (eval_node_rule x.order fmt ctx (unattached_managed_disk x std) p ≡ some r)
          × (r.findings
              ≡ promised_findings x.order managed_disk_promise
                  (nodes_at p.graph.nodes (list_at "disk" p.graph.by_kind)))
    unfolding unattached_managed_disk
    eval_node_rule-unattached_managed_disk live reached =
        let kept = nodes_at p.graph.nodes (list_at "disk" p.graph.by_kind) in
        subst
          (λ c.
            (r : Run F) × (eval_node_rule x.order fmt ctx (unattached_managed_disk x std) p
              ≡ some r)
            × (r.findings ≡ promised_findings x.order c kept))
          managed_disk_contract-eq
          (findings-Contract x.order fmt ctx (unattached_managed_disk x std) p managed_disk_contract
            live unattached_managed_disk-Implements reached)
