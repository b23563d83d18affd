-- ===== src/Rules/Aws/UnusedAmi/Promise.antt =====
-- The rule unused_ami against what it promises.
use tellury.Base.{
  ℕ, String, Bool, true, false, not, ◌&&◌, ◌≡◌, refl, none, some, [], ◌∷◌, ◌++◌, str_eq,
  if◌then◌else◌, arith, Option-cases, inl, inr,
}
use tellury.Base.Dict.{list_at}
use tellury.Float.{Numeric}
use tellury.Graph.Node.{Node}
use tellury.Graph.Reach.{Reach}
use tellury.Rules.Contract.{Contract, Implements, promised_findings, findings-Contract, refused}
use tellury.Graph.Walk.{nodes_at}
use tellury.Pricing.Region.{region_of}
use tellury.Pricing.Provenance.{round_2}
use tellury.Rules.Types.{Pass, NodeContext, Formats, set}
use tellury.Rules.Adapt.{Run, eval_node_rule, check_guards, auto_collect}
use tellury.Rules.Toolbox.{
  Services, Std, Stash, words, amount, entries, num_or_zero, str_or_empty, bool_or_false, has_text,
  has_number, parsed_time, days_since, instant, known,
}
use tellury.Rules.Evidence.{price_evidence, currency_of, ev_money_in}
use tellury.Rules.Aws.UnusedAmi.{ami_cost, unused_ami}

module _ {F : Type 0} (x : Numeric F) (std : Std F) (fmt : Formats F)
    (p : Pass F (Services F)) where
  -- The whole days since the creation, of a node whose creation is known.
  abbrev age_of : Node F → F
  age_of n = elim (parsed_time n "creation_timestamp" std) [
    | none ↦ x.order.nought
    | some t ↦ x.floor (days_since x std p.now t)
  ]

  -- An available image whose snapshots and references are all known, without references and at least 90
  -- days old, wastes what the snapshots that it alone refers to cost.
  unfoldable pub ami_contract : Contract F (F × String)
  ami_contract = record {
    rule_id = "unused_ami";
    idle = λ n.
        str_eq n.asset_type "aws.ec2.image"
        && has_text n "image_id"
        && known (parsed_time n "creation_timestamp" std)
        && str_eq (str_or_empty n "state") "available"
        && bool_or_false n "backing_complete"
        && bool_or_false n "references_complete"
        && x.order.eq (num_or_zero n "reference_count" x) x.order.nought
        && not (x.order.lt (age_of n) (x.literal "90.0"));
    price_of = λ n.
        p.services.prices.pricer.unit_price "snapshot_storage" "aws" "standard"
          (region_of std.to_lower n.location);
    branch = λ n u. record {
      waste = round_2 x (x.mul (num_or_zero n "backing_exclusive_size_gb" x) u.0);
      confidence = x.literal "0.6";
      label = "backing_snapshots";
    };
    evidence = λ n u.
        auto_collect fmt ("image_id" ∷ "image_name" ∷ []) n
        ++ (record {
          key = "backing_exclusive_size_gb";
          value = std.show_fixed 0 (num_or_zero n "backing_exclusive_size_gb" x);
        }
            ∷ record { key = "age_days"; value = std.show_fixed 0 (age_of n) }
            ∷ record { key = "size_basis"; value = "source_volume_size" }
            ∷ ev_money_in std "unit_price_gib_month" (currency_of p.services.prices) u.0 4
            ∷ (price_evidence "price_source" p.services.prices "snapshot_storage" "standard" u.1
                ∷ ((if has_number n "backing_snapshot_count"
                      then record {
                        key = "backing_snapshot_count";
                        value = std.show_fixed 0 (num_or_zero n "backing_snapshot_count" x);
                      }
                        ∷ []
                      else [])
                    ++ (if has_number n "reference_count"
                        then record {
                          key = "reference_count";
                          value = std.show_fixed 0 (num_or_zero n "reference_count" x);
                        }
                          ∷ []
                        else []))));
    floor = x.literal "0.10";
  }

  -- What the guards leave in the context.
  abbrev noted_of : Node F → NodeContext (Stash F)
  noted_of n = elim (parsed_time n "creation_timestamp" std) [
    | none ↦ []
    | some t ↦ ("created_at", instant t) ∷ ("age_days", amount (age_of n)) ∷ []
  ]

  -- What the cost leaves in it.
  abbrev stash_of : Node F → F × String → NodeContext (Stash F)
  stash_of n u =
      set
        (set
          (set (set (noted_of n) "currency" (words (currency_of p.services.prices)))
            "exclusive_size_gb" (amount (num_or_zero n "backing_exclusive_size_gb" x)))
          "unit_price" (amount u.0))
        "price_source"
        (entries
          (price_evidence "price_source" p.services.prices "snapshot_storage" "standard" u.1 ∷ []))

  ami-refuses :
      (n : Node F)
      → ami_contract.idle n ≡ false
      → refused (check_guards (unused_ami x std).guards n [] p) ≡ true
  unfolding unused_ami ami_contract set check_guards
  ami-refuses n busy = elim (Option-cases (parsed_time n "creation_timestamp" std)) [
    | inl missing ↦ ground (arith)
    | inr (t, found) ↦ ground (arith)
  ]

  ami-accepts :
      (n : Node F)
      → ami_contract.idle n ≡ true
      → check_guards (unused_ami x std).guards n [] p ≡ (none, noted_of n)
  unfolding unused_ami ami_contract set check_guards
  ami-accepts n idle = elim (Option-cases (parsed_time n "creation_timestamp" std)) [
    | inl missing ↦ ground (arith)
    | inr (t, found) ↦ ground (arith)
  ]

  module _ (ctx : ℕ → Bool) where
    unused_ami-Implements : Implements x.order fmt ctx (unused_ami x std) p ami_contract
    unfolding unused_ami ami_contract set auto_collect
    unused_ami-Implements = record {
      noted = noted_of;
      stash = stash_of;
      same_id = refl;
      same_floor = refl;
      refuses = ami-refuses;
      accepts = ami-accepts;
      unpriced = λ t n idle missing. rw (missing, ami_cost) refl;
      offers = λ t n u idle found. rw (found, ami_cost) refl;
      tells = λ n u idle found. elim (Option-cases (parsed_time n "creation_timestamp" std)) [
        | inl missing ↦ absurd (ground (arith, rw missing at idle))
        | inr (t, made) ↦ rw (made, noted_of, stash_of) refl
      ];
    }

    -- On a graph that the API reaches, with a context that is never cancelled, unused_ami reports
    -- just the images that are not exempt, are available, have an id, all of their snapshots and
    -- references known, no reference, and were made at least 90 days ago, if the price is known and the waste
    -- reaches the floor, in the order of the index; the waste is what the snapshots cost that the image
    -- alone refers to.
    pub eval_node_rule-unused_ami :
        ((t : ℕ) → ctx t ≡ false)
        → Reach p.graph
        → (r : Run F) × (eval_node_rule x.order fmt ctx (unused_ami x std) p ≡ some r)
          × (r.findings
              ≡ promised_findings x.order ami_contract
                  (nodes_at p.graph.nodes (list_at "image" p.graph.by_kind)))
    unfolding unused_ami
    eval_node_rule-unused_ami live reached =
        findings-Contract x.order fmt ctx (unused_ami x std) p ami_contract live
          unused_ami-Implements reached
