-- ===== src/Rules/Gcp/OldSnapshot/Promise.antt =====
-- The rule old_snapshot against what it promises.
use tellury.Base.{
  ℕ, String, Bool, true, false, ◌&&◌, ◌≡◌, refl, none, some, [], ◌∷◌, ◌++◌, arith, Option-cases,
  inl, inr,
}
use tellury.Base.Dict.{list_at}
use tellury.Float.{Numeric}
use tellury.Graph.Node.{Node}
use tellury.Graph.Reach.{Reach}
use tellury.Rules.Contract.{Contract, Implements, promised_findings, findings-Contract, refused}
use tellury.Graph.Walk.{nodes_at}
use tellury.Pricing.Region.{region_of}
use tellury.Rules.Types.{Pass, NodeContext, Formats, set}
use tellury.Rules.Adapt.{Run, eval_node_rule, check_guards, auto_collect}
use tellury.Rules.Toolbox.{
  Services, Std, Stash, words, amount, entries, num_or_zero, has_number, node_time, days_since,
  round2, instant, known,
}
use tellury.Rules.Evidence.{price_evidence, currency_of, ev_money_in}
use tellury.Rules.Gcp.OldSnapshot.{old_snapshot, old_snapshot_cost}

module _ {F : Type 0} (x : Numeric F) (std : Std F) (fmt : Formats F)
    (p : Pass F (Services F)) where
  -- The whole days since the creation, of a node whose creation is known.
  abbrev age_of : Node F → F
  age_of n = elim (node_time n "creation_timestamp" std) [
    | none ↦ x.order.nought
    | some t ↦ x.floor (days_since x std p.now t)
  ]

  -- A snapshot of a known size that is at least 90 days old is wasted for all that its bytes cost.
  unfoldable pub old_snapshot_contract : Contract F (F × String)
  old_snapshot_contract = record {
    rule_id = "old_snapshot";
    idle = λ n.
        known (node_time n "creation_timestamp" std)
        && has_number n "storage_bytes"
        && x.order.le (x.literal "90") (age_of n);
    price_of = λ n.
        p.services.prices.pricer.unit_price "snapshot_storage" "gcp" "standard"
          (region_of std.to_lower n.location);
    branch = λ n u. record {
      waste =
          round2 x (x.mul u.0 (x.div (num_or_zero n "storage_bytes" x) (x.literal "1073741824")));
      confidence = x.literal "0.7";
      label = "delete_snapshot";
    };
    evidence = λ n u.
        auto_collect fmt ("storage_bytes" ∷ "source_disk_size_gb" ∷ "creation_timestamp" ∷ []) n
        ++ (record { key = "age_days"; value = std.show_fixed 0 (age_of n) }
            ∷ ev_money_in std "unit_price_gib_month" (currency_of p.services.prices) u.0 4
            ∷ price_evidence "price_source" p.services.prices "snapshot_storage" "standard" u.1
            ∷ []);
    floor = x.literal "0.10";
  }

  -- What the guards leave in the context.
  abbrev noted_of : Node F → NodeContext (Stash F)
  noted_of n = elim (node_time n "creation_timestamp" std) [
    | none ↦ []
    | some t ↦ ("created_at", instant t) ∷ ("age_days", amount (age_of n)) ∷ []
  ]

  -- What the cost leaves in it.
  abbrev stash_of : Node F → F × String → NodeContext (Stash F)
  stash_of n u =
      set
        (set (set (noted_of n) "currency" (words (currency_of p.services.prices)))
          "unit_price_gib_month" (amount u.0))
        "price_source"
        (entries
          (price_evidence "price_source" p.services.prices "snapshot_storage" "standard" u.1 ∷ []))

  old_snapshot-refuses :
      (n : Node F)
      → old_snapshot_contract.idle n ≡ false
      → refused (check_guards (old_snapshot x std).guards n [] p) ≡ true
  unfolding old_snapshot old_snapshot_contract set check_guards
  old_snapshot-refuses n busy = elim (Option-cases (node_time n "creation_timestamp" std)) [
    | inl missing ↦ ground (arith)
    | inr (t, found) ↦ ground (arith)
  ]

  old_snapshot-accepts :
      (n : Node F)
      → old_snapshot_contract.idle n ≡ true
      → check_guards (old_snapshot x std).guards n [] p ≡ (none, noted_of n)
  unfolding old_snapshot old_snapshot_contract set check_guards
  old_snapshot-accepts n idle = elim (Option-cases (node_time n "creation_timestamp" std)) [
    | inl missing ↦ ground (arith)
    | inr (t, found) ↦ ground (arith)
  ]

  module _ (ctx : ℕ → Bool) where
    old_snapshot-Implements :
        Implements x.order fmt ctx (old_snapshot x std) p old_snapshot_contract
    unfolding old_snapshot old_snapshot_contract set auto_collect
    old_snapshot-Implements = record {
      noted = noted_of;
      stash = stash_of;
      same_id = refl;
      same_floor = refl;
      refuses = old_snapshot-refuses;
      accepts = old_snapshot-accepts;
      unpriced = λ t n idle missing. rw (missing, old_snapshot_cost) refl;
      offers = λ t n u idle found. rw (found, old_snapshot_cost) refl;
      tells = λ n u idle found. elim (Option-cases (node_time n "creation_timestamp" std)) [
        | inl missing ↦ absurd (ground (arith, rw missing at idle))
        | inr (t, made) ↦ rw (made, noted_of, stash_of) refl
      ];
    }

    -- On a graph that the API reaches, with a context that is never cancelled, old_snapshot reports
    -- just the snapshots that are not exempt, have a size and were made at least 90 days ago, if their
    -- price is known and its monthly amount reaches the floor, in the order of the index, with that
    -- amount as the waste and the evidence of the snapshot, its age and the price.
    pub eval_node_rule-old_snapshot :
        ((t : ℕ) → ctx t ≡ false)
        → Reach p.graph
        → (r : Run F) × (eval_node_rule x.order fmt ctx (old_snapshot x std) p ≡ some r)
          × (r.findings
              ≡ promised_findings x.order old_snapshot_contract
                  (nodes_at p.graph.nodes (list_at "snapshot" p.graph.by_kind)))
    unfolding old_snapshot
    eval_node_rule-old_snapshot live reached =
        findings-Contract x.order fmt ctx (old_snapshot x std) p old_snapshot_contract live
          old_snapshot-Implements reached
