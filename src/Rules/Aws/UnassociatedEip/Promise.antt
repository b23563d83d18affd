-- ===== src/Rules/Aws/UnassociatedEip/Promise.antt =====
-- The rule unassociated_eip against what it promises.
use tellury.Base.{
  ℕ, String, Bool, true, false, not, ◌&&◌, ◌||◌, ◌≡◌, refl, none, some, [], ◌∷◌, ◌++◌, str_eq,
  if◌then◌else◌, arith, Option-cases, inl, inr,
}
use tellury.Base.Dict.{list_at}
use tellury.Float.{Numeric}
use tellury.Graph.Node.{Node, str}
use tellury.Graph.Reach.{Reach}
use tellury.Rules.Contract.{Contract, Implements, promised_findings, findings-Contract, refused}
use tellury.Graph.Walk.{nodes_at}
use tellury.Pricing.Region.{region_of}
use tellury.Rules.Types.{Pass, NodeContext, Formats, set}
use tellury.Rules.Adapt.{Run, eval_node_rule, check_guards, auto_collect}
use tellury.Rules.Toolbox.{
  Services, Std, Stash, words, amount, entries, str_or_empty, has_text, round2, known_text, known,
}
use tellury.Rules.Evidence.{price_evidence, currency_of, ev_money_in}
use tellury.Rules.Aws.UnassociatedEip.{eip_cost, unassociated_eip}

module _ {F : Type 0} (x : Numeric F) (std : Std F) (fmt : Formats F)
    (p : Pass F (Services F)) where
  -- An elastic address that is not known to be associated is wasted for all of its price by the hour.
  unfoldable pub eip_contract : Contract F (F × String)
  eip_contract = record {
    rule_id = "unassociated_eip";
    idle = λ n.
        (str_eq (str_or_empty n "domain") "vpc" || str_eq (str_or_empty n "domain") "standard")
        && (not (known (str n "association_state"))
            || str_eq (str_or_empty n "association_state") "unassociated");
    price_of = λ n.
        p.services.prices.pricer.unit_price "static_ip" "aws" "AdditionalAddress"
          (region_of std.to_lower n.location);
    branch = λ n u. record {
      waste = round2 x (x.mul u.0 (x.literal "730.0"));
      confidence = x.literal "1.0";
      label = "full_hourly_charge";
    };
    evidence = λ n u.
        auto_collect fmt ("domain" ∷ "public_ip" ∷ []) n
        ++ (ev_money_in std "unit_price_hourly" (currency_of p.services.prices) u.0 4
            ∷ ((if has_text n "allocation_id"
                  then record { key = "allocation_id"; value = str_or_empty n "allocation_id" } ∷ []
                  else [])
                ++ price_evidence "price_source" p.services.prices "static_ip" "AdditionalAddress"
                    u.1
                  ∷ []));
    floor = x.literal "0.10";
  }

  -- What the guards leave in the context.
  abbrev noted_of : Node F → NodeContext (Stash F)
  noted_of n = []

  -- What the cost leaves in it.
  abbrev stash_of : Node F → F × String → NodeContext (Stash F)
  stash_of n u =
      set
        (set (set (noted_of n) "currency" (words (currency_of p.services.prices)))
          "unit_price_hourly" (amount u.0))
        "price_source"
        (entries (
          price_evidence "price_source" p.services.prices "static_ip" "AdditionalAddress" u.1 ∷ []))

  eip-refuses :
      (n : Node F)
      → eip_contract.idle n ≡ false
      → refused (check_guards (unassociated_eip x std).guards n [] p) ≡ true
  unfolding unassociated_eip eip_contract set check_guards
  eip-refuses n busy = elim (Option-cases (str n "association_state")) [
    | inl missing ↦
        ground (arith, known_text n "domain" "vpc" refl, known_text n "domain" "standard" refl)
    | inr (t, found) ↦
        ground (arith, known_text n "domain" "vpc" refl, known_text n "domain" "standard" refl)
  ]

  eip-accepts :
      (n : Node F)
      → eip_contract.idle n ≡ true
      → check_guards (unassociated_eip x std).guards n [] p ≡ (none, noted_of n)
  unfolding unassociated_eip eip_contract set check_guards
  eip-accepts n idle = elim (Option-cases (str n "association_state")) [
    | inl missing ↦
        ground (arith, known_text n "domain" "vpc" refl, known_text n "domain" "standard" refl)
    | inr (t, found) ↦
        ground (arith, known_text n "domain" "vpc" refl, known_text n "domain" "standard" refl)
  ]

  module _ (ctx : ℕ → Bool) where
    unassociated_eip-Implements : Implements x.order fmt ctx (unassociated_eip x std) p eip_contract
    unfolding unassociated_eip eip_contract set auto_collect
    unassociated_eip-Implements = record {
      noted = noted_of;
      stash = stash_of;
      same_id = refl;
      same_floor = refl;
      refuses = eip-refuses;
      accepts = eip-accepts;
      unpriced = λ t n idle missing. rw (missing, eip_cost) refl;
      offers = λ t n u idle found. rw (found, eip_cost) refl;
      tells = λ n u idle found. refl;
    }

    -- On a graph that the API reaches, with a context that is never cancelled, unassociated_eip
    -- reports just the addresses of the domains vpc and standard that are not exempt and are unassociated
    -- or do not tell, if their price is known and its monthly amount reaches the floor, in the order of the
    -- index, with that amount as the waste.
    pub eval_node_rule-unassociated_eip :
        ((t : ℕ) → ctx t ≡ false)
        → Reach p.graph
        → (r : Run F) × (eval_node_rule x.order fmt ctx (unassociated_eip x std) p ≡ some r)
          × (r.findings
              ≡ promised_findings x.order eip_contract
                  (nodes_at p.graph.nodes (list_at "address" p.graph.by_kind)))
    unfolding unassociated_eip
    eval_node_rule-unassociated_eip live reached =
        findings-Contract x.order fmt ctx (unassociated_eip x std) p eip_contract live
          unassociated_eip-Implements reached
