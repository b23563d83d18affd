-- ===== src/Rules/Azure/UnassociatedPublicIp/Promise.antt =====
-- The rule unassociated_public_ip against what it promises.
use tellury.Base.{
  ℕ, String, Bool, true, false, ◌&&◌, ◌≡◌, refl, none, some, [], ◌∷◌, ◌++◌, str_eq, if◌then◌else◌,
  arith,
}
use tellury.Base.Dict.{list_at}
use tellury.Float.{Numeric}
use tellury.Graph.Node.{Node}
use tellury.Graph.Reach.{Reach}
use tellury.Rules.Contract.{Contract, Implements, promised_findings, findings-Contract, refused}
use tellury.Graph.Walk.{nodes_at}
use tellury.Pricing.Region.{region_of}
use tellury.Pricing.Provenance.{round_2}
use tellury.Rules.Types.{Pass, NodeContext, Formats, set}
use tellury.Rules.Adapt.{Run, eval_node_rule, check_guards, auto_collect}
use tellury.Rules.Toolbox.{
  Services, Std, Stash, words, amount, entries, num_or_zero, str_or_empty, has_text, has_number,
  known_text,
}
use tellury.Rules.Evidence.{price_evidence, currency_of, ev_money_in}
use tellury.Rules.Azure.UnassociatedPublicIp.{public_ip_cost, unassociated_public_ip}

module _ {F : Type 0} (x : Numeric F) (std : Std F) (fmt : Formats F)
    (p : Pass F (Services F)) where
  -- A public address of the standard SKU without configuration is wasted for all of its price by the hour.
  unfoldable pub public_ip_contract : Contract F (F × String)
  public_ip_contract = record {
    rule_id = "unassociated_public_ip";
    idle = λ n.
        str_eq (str_or_empty n "sku_name") "Standard"
        && has_text n "public_ip_allocation_method"
        && has_number n "ip_configuration_count"
        && x.order.eq (num_or_zero n "ip_configuration_count" x) x.order.nought;
    price_of = λ n.
        p.services.prices.pricer.unit_price "static_ip" "azure" "Standard"
          (region_of std.to_lower n.location);
    branch = λ n u. record {
      waste = round_2 x (x.mul u.0 (x.literal "730.0"));
      confidence = x.literal "1.0";
      label = "full_hourly_charge";
    };
    evidence = λ n u.
        record { key = "sku_name"; value = str_or_empty n "sku_name" }
        ∷ record {
          key = "public_ip_allocation_method";
          value = str_or_empty n "public_ip_allocation_method";
        }
        ∷ record {
          key = "ip_configuration_count";
          value = std.show_fixed 0 (num_or_zero n "ip_configuration_count" x);
        }
        ∷ ev_money_in std "unit_price_hourly" (currency_of p.services.prices) u.0 4
        ∷ ((if has_text n "ip_address"
              then record { key = "ip_address"; value = str_or_empty n "ip_address" } ∷ []
              else [])
            ++ price_evidence "price_source" p.services.prices "static_ip" "Standard" u.1 ∷ []);
    floor = x.literal "0.10";
  }

  -- What the guards leave in the context.
  abbrev noted_of : Node F → NodeContext (Stash F)
  noted_of n = []

  -- What the cost leaves in it.
  abbrev stash_of : Node F → F × String → NodeContext (Stash F)
  stash_of n u =
      set
        (set (set (noted_of n) "currency" (words (currency_of p.services.prices)))
          "unit_price_hourly" (amount u.0))
        "price_source"
        (entries (price_evidence "price_source" p.services.prices "static_ip" "Standard" u.1 ∷ []))

  public_ip-refuses :
      (n : Node F)
      → public_ip_contract.idle n ≡ false
      → refused (check_guards (unassociated_public_ip x std).guards n [] p) ≡ true
  unfolding unassociated_public_ip public_ip_contract set check_guards
  public_ip-refuses n busy = ground (arith, known_text n "sku_name" "Standard" refl)

  public_ip-accepts :
      (n : Node F)
      → public_ip_contract.idle n ≡ true
      → check_guards (unassociated_public_ip x std).guards n [] p ≡ (none, noted_of n)
  unfolding unassociated_public_ip public_ip_contract set check_guards
  public_ip-accepts n idle = ground (arith, known_text n "sku_name" "Standard" refl)

  module _ (ctx : ℕ → Bool) where
    unassociated_public_ip-Implements :
        Implements x.order fmt ctx (unassociated_public_ip x std) p public_ip_contract
    unfolding unassociated_public_ip public_ip_contract set auto_collect
    unassociated_public_ip-Implements = record {
      noted = noted_of;
      stash = stash_of;
      same_id = refl;
      same_floor = refl;
      refuses = public_ip-refuses;
      accepts = public_ip-accepts;
      unpriced = λ t n idle missing. rw (missing, public_ip_cost) refl;
      offers = λ t n u idle found. rw (found, public_ip_cost) refl;
      tells = λ n u idle found. refl;
    }

    -- On a graph that the API reaches, with a context that is never cancelled, unassociated_public_ip
    -- reports just the addresses that are not exempt, of the standard SKU, with an allocation method and a
    -- count of configurations that is zero, if their price is known and its monthly amount reaches the
    -- floor, in the order of the index, with that amount as the waste.
    pub eval_node_rule-unassociated_public_ip :
        ((t : ℕ) → ctx t ≡ false)
        → Reach p.graph
        → (r : Run F) × (eval_node_rule x.order fmt ctx (unassociated_public_ip x std) p ≡ some r)
          × (r.findings
              ≡ promised_findings x.order public_ip_contract
                  (nodes_at p.graph.nodes (list_at "address" p.graph.by_kind)))
    unfolding unassociated_public_ip
    eval_node_rule-unassociated_public_ip live reached =
        findings-Contract x.order fmt ctx (unassociated_public_ip x std) p public_ip_contract live
          unassociated_public_ip-Implements reached
