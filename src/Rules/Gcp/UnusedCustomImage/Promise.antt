-- ===== src/Rules/Gcp/UnusedCustomImage/Promise.antt =====
-- The rule unused_custom_image against what it promises.
use tellury.Base.{
  Option, ℕ, String, Bool, true, false, not, ◌&&◌, ◌≡◌, refl, none, some, [], ◌∷◌, ◌++◌, str_eq,
  if◌then◌else◌, arith, Option-cases, inl, inr,
}
use mathlib.Core.Path.{subst}
use tellury.Base.Dict.{list_at}
use tellury.Float.{Numeric}
use tellury.Graph.Node.{Node, num}
use tellury.Graph.Reach.{Reach}
use tellury.Rules.Contract.{Contract, Implements, promised_findings, findings-Contract, refused}
use tellury.Graph.Walk.{nodes_at}
use tellury.Pricing.Region.{region_of}
use tellury.Rules.Types.{Pass, NodeContext, Formats, set}
use tellury.Rules.Adapt.{Run, eval_node_rule, check_guards, auto_collect}
use tellury.Rules.Toolbox.{
  Services, Std, Stash, words, amount, entries, num_or_zero, str_or_empty, bool_or_false, has_text,
  has_number, parsed_time, days_since, round2, instant, known,
}
use tellury.Rules.Evidence.{price_evidence, currency_of, ev_money_in}
use tellury.Rules.Gcp.UnusedCustomImage.{custom_image_cost, custom_image_size, unused_custom_image}

module _ {F : Type 0} (x : Numeric F) (std : Std F) (fmt : Formats F)
    (p : Pass F (Services F)) where
  -- The whole days since the creation, of a node whose creation is known.
  abbrev age_of : Node F → F
  age_of n = elim (parsed_time n "creation_timestamp" std) [
    | none ↦ x.order.nought
    | some t ↦ x.floor (days_since x std p.now t)
  ]

  abbrev or_no_size : Option (F × String) → F × String
  or_no_size none = (x.order.nought, "")
  or_no_size (some sized) = sized

  -- A ready custom image of a known size and place that is known to be unreferenced and is at least 90
  -- days old is wasted for all that its bytes cost.
  -- `size` tells the size in GiB and what it was read from.
  abbrev contract_of : (Node F → Option (F × String)) → Contract F (F × String)
  contract_of size = record {
    rule_id = "unused_custom_image";
    idle = λ n.
        str_eq n.asset_type "compute.googleapis.com/Image"
        && known (size n)
        && known (parsed_time n "creation_timestamp" std)
        && str_eq (str_or_empty n "status") "READY"
        && has_text n "storage_location"
        && bool_or_false n "references_complete"
        && x.order.eq (num_or_zero n "reference_count" x) x.order.nought
        && not (x.order.lt (age_of n) (x.literal "90"));
    price_of = λ n.
        p.services.prices.pricer.unit_price "image_storage" "gcp" "standard"
          (region_of std.to_lower n.location);
    branch = λ n u. record {
      waste = round2 x (x.mul (or_no_size (size n)).0 u.0);
      confidence =
          if str_eq (or_no_size (size n)).1 "source_disk_size"
          then x.literal "0.6"
          else x.literal "0.7";
      label = "delete_image";
    };
    evidence = λ n u.
        auto_collect fmt ("storage_bytes" ∷ "source_disk_size_gb" ∷ "creation_timestamp" ∷ []) n
        ++ (record { key = "storage_gib"; value = std.show_fixed 2 (or_no_size (size n)).0 }
            ∷ record { key = "age_days"; value = std.show_fixed 0 (age_of n) }
            ∷ record { key = "size_basis"; value = (or_no_size (size n)).1 }
            ∷ ev_money_in std "unit_price_gib_month" (currency_of p.services.prices) u.0 4
            ∷ ((if has_text n "storage_location"
                  then record {
                    key = "storage_location";
                    value = str_or_empty n "storage_location";
                  }
                    ∷ []
                  else [])
                ++ (if has_number n "reference_count"
                    then record {
                      key = "reference_count";
                      value = std.show_fixed 0 (num_or_zero n "reference_count" x);
                    }
                      ∷ []
                    else [])
                ++ price_evidence "price_source" p.services.prices "image_storage" "standard" u.1
                  ∷ []));
    floor = x.literal "0.10";
  }

  unfoldable custom_image_contract : Contract F (F × String)
  custom_image_contract = contract_of (custom_image_size x std)

  -- The bytes of the archive, in GiB of 1073741824 bytes, or without them the size of the source disk,
  -- if it is above 0.
  abbrev archive_or_disk : Node F → Option (F × String)
  archive_or_disk n = elim (num n "storage_bytes") [
    | some bytes ↦ some (x.div bytes (x.literal "1073741824"), "archive_size_bytes")
    | none ↦ elim (num n "source_disk_size_gb") [
      | some gb ↦ if x.order.lt x.order.nought gb then some (gb, "source_disk_size") else none
      | none ↦ none
    ]
  ]

  -- The contract with the size spelled out.
  unfoldable pub custom_image_promise : Contract F (F × String)
  custom_image_promise = contract_of archive_or_disk

  custom_image_contract-eq : custom_image_contract ≡ custom_image_promise
  unfolding custom_image_contract custom_image_promise custom_image_size num
  custom_image_contract-eq = refl

  -- What the guards leave in the context.
  abbrev noted_of : Node F → NodeContext (Stash F)
  noted_of n = elim (parsed_time n "creation_timestamp" std) [
    | none ↦ []
    | some t ↦
        ("size_gib", amount (or_no_size (custom_image_size x std n)).0)
        ∷ ("size_basis", words (or_no_size (custom_image_size x std n)).1)
        ∷ ("created_at", instant t)
        ∷ ("age_days", amount (age_of n))
        ∷ []
  ]

  -- What the cost leaves in it.
  abbrev stash_of : Node F → F × String → NodeContext (Stash F)
  stash_of n u =
      set
        (set (set (noted_of n) "currency" (words (currency_of p.services.prices)))
          "unit_price_gib_month" (amount u.0))
        "price_source"
        (entries
          (price_evidence "price_source" p.services.prices "image_storage" "standard" u.1 ∷ []))

  custom_image-refuses :
      (n : Node F)
      → custom_image_contract.idle n ≡ false
      → refused (check_guards (unused_custom_image x std).guards n [] p) ≡ true
  unfolding unused_custom_image custom_image_contract set check_guards
  custom_image-refuses n busy = elim (Option-cases (parsed_time n "creation_timestamp" std)) [
    | inl missing ↦ ground (arith)
    | inr (t, found) ↦ ground (arith)
  ]

  custom_image-accepts :
      (n : Node F)
      → custom_image_contract.idle n ≡ true
      → check_guards (unused_custom_image x std).guards n [] p ≡ (none, noted_of n)
  unfolding unused_custom_image custom_image_contract set check_guards
  custom_image-accepts n idle = elim (Option-cases (parsed_time n "creation_timestamp" std)) [
    | inl missing ↦ ground (arith)
    | inr (t, found) ↦ ground (arith)
  ]

  module _ (ctx : ℕ → Bool) where
    unused_custom_image-Implements :
        Implements x.order fmt ctx (unused_custom_image x std) p custom_image_contract
    unfolding unused_custom_image custom_image_contract set auto_collect
    unused_custom_image-Implements = record {
      noted = noted_of;
      stash = stash_of;
      same_id = refl;
      same_floor = refl;
      refuses = custom_image-refuses;
      accepts = custom_image-accepts;
      unpriced = λ t n idle missing. rw (missing, custom_image_cost) refl;
      offers = λ t n u idle found. elim (Option-cases (parsed_time n "creation_timestamp" std)) [
        | inl missing ↦ absurd (ground (arith, rw missing at idle))
        | inr (t, made) ↦ rw (found, custom_image_cost) (rw (made, noted_of, stash_of) refl)
      ];
      tells = λ n u idle found. elim (Option-cases (parsed_time n "creation_timestamp" std)) [
        | inl missing ↦ absurd (ground (arith, rw missing at idle))
        | inr (t, made) ↦ rw (made, noted_of, stash_of) refl
      ];
    }

    -- On a graph that the API reaches, with a context that is never cancelled, unused_custom_image
    -- reports just the custom images that are not exempt, are ready, have a size and a storage location,
    -- are known to have no references and were made at least 90 days ago, if their price is known and its
    -- monthly amount reaches the floor, in the order of the index, with that amount as the waste and a
    -- confidence that is lower when the size is that of the source disk.
    pub eval_node_rule-unused_custom_image :
        ((t : ℕ) → ctx t ≡ false)
        → Reach p.graph
        → (r : Run F) × (eval_node_rule x.order fmt ctx (unused_custom_image x std) p ≡ some r)
          × (r.findings
              ≡ promised_findings x.order custom_image_promise
                  (nodes_at p.graph.nodes (list_at "image" p.graph.by_kind)))
    unfolding unused_custom_image
    eval_node_rule-unused_custom_image live reached =
        let kept = nodes_at p.graph.nodes (list_at "image" p.graph.by_kind) in
        subst
          (λ c.
            (r : Run F) × (eval_node_rule x.order fmt ctx (unused_custom_image x std) p ≡ some r)
            × (r.findings ≡ promised_findings x.order c kept))
          custom_image_contract-eq
          (findings-Contract x.order fmt ctx (unused_custom_image x std) p custom_image_contract
            live unused_custom_image-Implements reached)
