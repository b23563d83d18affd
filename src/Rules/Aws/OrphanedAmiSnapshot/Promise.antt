-- ===== src/Rules/Aws/OrphanedAmiSnapshot/Promise.antt =====
-- The rule orphaned_ami_snapshot against what it promises.
use tellury.Base.{
  ℕ, String, Bool, true, false, not, ◌&&◌, ◌≡◌, refl, none, some, [], ◌∷◌, ◌++◌, str_eq, arith,
  Option-cases, inl, inr,
}
use tellury.Base.Dict.{list_at}
use tellury.Float.{Numeric}
use tellury.Graph.Node.{Node}
use tellury.Graph.Reach.{Reach}
use tellury.Rules.Contract.{Contract, Implements, promised_findings, findings-Contract, refused}
use tellury.Graph.Walk.{nodes_at}
use tellury.Pricing.Region.{region_of}
use tellury.Pricing.Provenance.{round_2}
use tellury.Rules.Types.{Pass, NodeContext, Formats, set}
use tellury.Rules.Adapt.{Run, eval_node_rule, check_guards, auto_collect}
use tellury.Rules.Toolbox.{
  Services, Std, Stash, words, amount, entries, num_or_zero, str_or_empty, bool_or_false, has_text,
  has_number, parsed_time, days_since, instant, known,
}
use tellury.Rules.Evidence.{price_evidence, currency_of, ev_money_in}
use tellury.Rules.Aws.OrphanedAmiSnapshot.{orphan_cost, orphaned_ami_snapshot}

module _ {F : Type 0} (x : Numeric F) (std : Std F) (fmt : Formats F)
    (p : Pass F (Services F)) where
  -- The whole days since the creation, of a node whose creation is known.
  abbrev age_of : Node F → F
  age_of n = elim (parsed_time n "creation_timestamp" std) [
    | none ↦ x.order.nought
    | some t ↦ x.floor (days_since x std p.now t)
  ]

  -- A completed snapshot that was made for an image, is known not to be of an image any more and is at
  -- least 90 days old wastes what its volume's size costs.
  unfoldable pub orphan_contract : Contract F (F × String)
  orphan_contract = record {
    rule_id = "orphaned_ami_snapshot";
    idle = λ n.
        str_eq n.asset_type "aws.ec2.snapshot"
        && has_text n "snapshot_id"
        && has_number n "volume_size_gb"
        && not (x.order.le (num_or_zero n "volume_size_gb" x) x.order.nought)
        && known (parsed_time n "creation_timestamp" std)
        && str_eq (str_or_empty n "state") "completed"
        && bool_or_false n "ami_created"
        && bool_or_false n "ami_reference_complete"
        && has_number n "referenced_by_ami_count"
        && x.order.eq (num_or_zero n "referenced_by_ami_count" x) x.order.nought
        && not (x.order.lt (age_of n) (x.literal "90.0"));
    price_of = λ n.
        p.services.prices.pricer.unit_price "snapshot_storage" "aws" "standard"
          (region_of std.to_lower n.location);
    branch = λ n u. record {
      waste = round_2 x (x.mul (num_or_zero n "volume_size_gb" x) u.0);
      confidence = x.literal "0.6";
      label = "delete";
    };
    evidence = λ n u.
        auto_collect fmt ("snapshot_id" ∷ "volume_size_gb" ∷ "referenced_by_ami_count" ∷ []) n
        ++ (record { key = "age_days"; value = std.show_fixed 0 (age_of n) }
            ∷ record { key = "size_basis"; value = "source_volume_size" }
            ∷ ev_money_in std "unit_price_gib_month" (currency_of p.services.prices) u.0 4
            ∷ price_evidence "price_source" p.services.prices "snapshot_storage" "standard" u.1
            ∷ []);
    floor = x.literal "0.10";
  }

  -- What the guards leave in the context.
  abbrev noted_of : Node F → NodeContext (Stash F)
  noted_of n = elim (parsed_time n "creation_timestamp" std) [
    | none ↦ []
    | some t ↦
        ("size_gb", amount (num_or_zero n "volume_size_gb" x))
        ∷ ("created_at", instant t)
        ∷ ("age_days", amount (age_of n))
        ∷ []
  ]

  -- What the cost leaves in it.
  abbrev stash_of : Node F → F × String → NodeContext (Stash F)
  stash_of n u =
      set
        (set
          (set (noted_of n) "price_source" (
            entries (
              price_evidence "price_source" p.services.prices "snapshot_storage" "standard" u.1
              ∷ [])))
          "currency" (words (currency_of p.services.prices)))
        "unit_price" (amount u.0)

  orphan-refuses :
      (n : Node F)
      → orphan_contract.idle n ≡ false
      → refused (check_guards (orphaned_ami_snapshot x std).guards n [] p) ≡ true
  unfolding orphaned_ami_snapshot orphan_contract set check_guards num_or_zero has_number
  orphan-refuses n busy = elim (Option-cases (parsed_time n "creation_timestamp" std)) [
    | inl missing ↦ ground (arith)
    | inr (t, found) ↦ ground (arith)
  ]

  orphan-accepts :
      (n : Node F)
      → orphan_contract.idle n ≡ true
      → check_guards (orphaned_ami_snapshot x std).guards n [] p ≡ (none, noted_of n)
  unfolding orphaned_ami_snapshot orphan_contract set check_guards num_or_zero has_number
  orphan-accepts n idle = elim (Option-cases (parsed_time n "creation_timestamp" std)) [
    | inl missing ↦ ground (arith)
    | inr (t, found) ↦ ground (arith)
  ]

  module _ (ctx : ℕ → Bool) where
    orphaned_ami_snapshot-Implements :
        Implements x.order fmt ctx (orphaned_ami_snapshot x std) p orphan_contract
    unfolding orphaned_ami_snapshot orphan_contract set auto_collect
    orphaned_ami_snapshot-Implements = record {
      noted = noted_of;
      stash = stash_of;
      same_id = refl;
      same_floor = refl;
      refuses = orphan-refuses;
      accepts = orphan-accepts;
      unpriced = λ t n idle missing. rw (missing, orphan_cost) refl;
      offers = λ t n u idle found. elim (Option-cases (parsed_time n "creation_timestamp" std)) [
        | inl missing ↦ absurd (ground (arith, rw missing at idle))
        | inr (t, made) ↦ rw (found, orphan_cost) (rw (made, noted_of, stash_of) refl)
      ];
      tells = λ n u idle found. elim (Option-cases (parsed_time n "creation_timestamp" std)) [
        | inl missing ↦ absurd (ground (arith, rw missing at idle))
        | inr (t, made) ↦ rw (made, noted_of, stash_of) refl
      ];
    }

    -- On a graph that the API reaches, with a context that is never cancelled, orphaned_ami_snapshot
    -- reports just the snapshots that are not exempt, are completed, have an id and a size, were made for an
    -- image, are known to be of no image now and were made at least 90 days ago, if the price is known and
    -- the waste reaches the floor, in the order of the index; the waste is what the size of the volume costs.
    pub eval_node_rule-orphaned_ami_snapshot :
        ((t : ℕ) → ctx t ≡ false)
        → Reach p.graph
        → (r : Run F) × (eval_node_rule x.order fmt ctx (orphaned_ami_snapshot x std) p ≡ some r)
          × (r.findings
              ≡ promised_findings x.order orphan_contract
                  (nodes_at p.graph.nodes (list_at "snapshot" p.graph.by_kind)))
    unfolding orphaned_ami_snapshot
    eval_node_rule-orphaned_ami_snapshot live reached =
        findings-Contract x.order fmt ctx (orphaned_ami_snapshot x std) p orphan_contract live
          orphaned_ami_snapshot-Implements reached
