-- ===== src/Rules/Gcp/OldMachineImage/Promise.antt =====
-- The rule old_machine_image against what it promises.
use tellury.Base.{
  ℕ, String, Bool, true, false, not, ◌&&◌, ◌≡◌, refl, none, some, [], ◌∷◌, ◌++◌, str_eq,
  if◌then◌else◌, arith, Option-cases, inl, inr,
}
use tellury.Base.Dict.{list_at}
use tellury.Float.{Numeric}
use tellury.Graph.Node.{Node}
use tellury.Graph.Reach.{Reach}
use tellury.Rules.Contract.{Contract, Implements, promised_findings, findings-Contract, refused}
use tellury.Graph.Walk.{nodes_at}
use tellury.Pricing.Region.{region_of}
use tellury.Rules.Types.{Pass, NodeContext, Formats, set}
use tellury.Rules.Adapt.{Run, eval_node_rule, check_guards, auto_collect}
use tellury.Rules.Toolbox.{
  Services, Std, Stash, words, amount, entries, num_or_zero, str_or_empty, has_text, has_number,
  parsed_time, days_since, round2, instant, known,
}
use tellury.Rules.Evidence.{price_evidence, currency_of, ev_money_in}
use tellury.Rules.Gcp.OldMachineImage.{machine_image_cost, old_machine_image}

module _ {F : Type 0} (x : Numeric F) (std : Std F) (fmt : Formats F)
    (p : Pass F (Services F)) where
  -- The whole days since the creation, of a node whose creation is known.
  abbrev age_of : Node F → F
  age_of n = elim (parsed_time n "creation_timestamp" std) [
    | none ↦ x.order.nought
    | some t ↦ x.floor (days_since x std p.now t)
  ]

  abbrev gib_of : Node F → F
  gib_of n = x.div (num_or_zero n "storage_bytes" x) (x.literal "1073741824")

  -- A ready machine image of a known size and place that is at least 90 days old is wasted for all
  -- that its bytes cost.
  unfoldable pub machine_image_contract : Contract F (F × String)
  machine_image_contract = record {
    rule_id = "old_machine_image";
    idle = λ n.
        str_eq n.asset_type "compute.googleapis.com/MachineImage"
        && has_number n "storage_bytes"
        && known (parsed_time n "creation_timestamp" std)
        && str_eq (str_or_empty n "status") "READY"
        && has_text n "storage_location"
        && not (x.order.lt (age_of n) (x.literal "90"));
    price_of = λ n.
        p.services.prices.pricer.unit_price "machine_image_storage" "gcp" "standard"
          (region_of std.to_lower n.location);
    branch = λ n u. record {
      waste = round2 x (x.mul (gib_of n) u.0);
      confidence = x.literal "0.7";
      label = "delete_machine_image";
    };
    evidence = λ n u.
        auto_collect fmt ("storage_bytes" ∷ "creation_timestamp" ∷ []) n
        ++ (record { key = "storage_gib"; value = std.show_fixed 2 (gib_of n) }
            ∷ record { key = "age_days"; value = std.show_fixed 0 (age_of n) }
            ∷ record { key = "size_basis"; value = "total_storage_bytes" }
            ∷ ev_money_in std "unit_price_gib_month" (currency_of p.services.prices) u.0 4
            ∷ ((if has_text n "storage_location"
                  then record {
                    key = "storage_location";
                    value = str_or_empty n "storage_location";
                  }
                    ∷ []
                  else [])
                ++ price_evidence "price_source" p.services.prices "machine_image_storage"
                    "standard" u.1
                  ∷ []));
    floor = x.literal "0.10";
  }

  -- What the guards leave in the context.
  abbrev noted_of : Node F → NodeContext (Stash F)
  noted_of n = elim (parsed_time n "creation_timestamp" std) [
    | none ↦ []
    | some t ↦ ("created_at", instant t) ∷ ("age_days", amount (age_of n)) ∷ []
  ]

  -- What the cost leaves in it.
  abbrev stash_of : Node F → F × String → NodeContext (Stash F)
  stash_of n u =
      set
        (set
          (set (set (noted_of n) "currency" (words (currency_of p.services.prices))) "storage_gib"
            (amount (gib_of n)))
          "unit_price_gib_month" (amount u.0))
        "price_source"
        (entries (
          price_evidence "price_source" p.services.prices "machine_image_storage" "standard" u.1
          ∷ []))

  machine_image-refuses :
      (n : Node F)
      → machine_image_contract.idle n ≡ false
      → refused (check_guards (old_machine_image x std).guards n [] p) ≡ true
  unfolding old_machine_image machine_image_contract set check_guards
  machine_image-refuses n busy = elim (Option-cases (parsed_time n "creation_timestamp" std)) [
    | inl missing ↦ ground (arith)
    | inr (t, found) ↦ ground (arith)
  ]

  machine_image-accepts :
      (n : Node F)
      → machine_image_contract.idle n ≡ true
      → check_guards (old_machine_image x std).guards n [] p ≡ (none, noted_of n)
  unfolding old_machine_image machine_image_contract set check_guards
  machine_image-accepts n idle = elim (Option-cases (parsed_time n "creation_timestamp" std)) [
    | inl missing ↦ ground (arith)
    | inr (t, found) ↦ ground (arith)
  ]

  module _ (ctx : ℕ → Bool) where
    old_machine_image-Implements :
        Implements x.order fmt ctx (old_machine_image x std) p machine_image_contract
    unfolding old_machine_image machine_image_contract set auto_collect
    old_machine_image-Implements = record {
      noted = noted_of;
      stash = stash_of;
      same_id = refl;
      same_floor = refl;
      refuses = machine_image-refuses;
      accepts = machine_image-accepts;
      unpriced = λ t n idle missing. rw (missing, machine_image_cost) refl;
      offers = λ t n u idle found. rw (found, machine_image_cost) refl;
      tells = λ n u idle found. elim (Option-cases (parsed_time n "creation_timestamp" std)) [
        | inl missing ↦ absurd (ground (arith, rw missing at idle))
        | inr (t, made) ↦ rw (made, noted_of, stash_of) refl
      ];
    }

    -- On a graph that the API reaches, with a context that is never cancelled, old_machine_image
    -- reports just the machine images that are not exempt, are ready, have a size and a storage
    -- location and were made at least 90 days ago, if their price is known and its monthly amount
    -- reaches the floor, in the order of the index, with that amount as the waste.
    pub eval_node_rule-old_machine_image :
        ((t : ℕ) → ctx t ≡ false)
        → Reach p.graph
        → (r : Run F) × (eval_node_rule x.order fmt ctx (old_machine_image x std) p ≡ some r)
          × (r.findings
              ≡ promised_findings x.order machine_image_contract
                  (nodes_at p.graph.nodes (list_at "image" p.graph.by_kind)))
    unfolding old_machine_image
    eval_node_rule-old_machine_image live reached =
        findings-Contract x.order fmt ctx (old_machine_image x std) p machine_image_contract live
          old_machine_image-Implements reached
