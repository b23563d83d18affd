-- ===== src/Rules/Gcp/UnusedReservedIp/Promise.antt =====
-- The rule unused_reserved_ip against what it promises.
use tellury.Base.{
  ℕ, String, Bool, false, ◌&&◌, ◌≡◌, refl, some, [], ◌∷◌, ◌++◌, arith, if◌then◌else◌, str_eq,
}
use tellury.Base.Dict.{list_at}
use tellury.Float.{Numeric}
use tellury.Graph.Reach.{Reach}
use tellury.Graph.Walk.{nodes_at}
use tellury.Pricing.Region.{region_of}
use tellury.Rules.Types.{Pass, Formats, set}
use tellury.Rules.Adapt.{Run, eval_node_rule, check_guards, auto_collect}
use tellury.Rules.Toolbox.{
  Services, Std, words, amount, entries, num_or_zero, str_or_empty, has_text, round2, known_text,
  other_text,
}
use tellury.Rules.Evidence.{price_evidence, currency_of, ev_money_in}
use tellury.Rules.Contract.{Contract, Implements, promised_findings, findings-Contract}
use tellury.Rules.Gcp.UnusedReservedIp.{unused_reserved_ip, reserved_ip_cost}

module _ {F : Type 0} (x : Numeric F) (std : Std F) (fmt : Formats F)
    (p : Pass F (Services F)) where
  -- A reserved external address without users is wasted for all of its price by the hour.
  unfoldable pub reserved_ip_contract : Contract F (F × String)
  reserved_ip_contract = record {
    rule_id = "unused_reserved_ip";
    idle = λ n.
        str_eq (str_or_empty n "address_type") "EXTERNAL"
        && str_eq (str_or_empty n "status") "RESERVED"
        && x.order.eq (num_or_zero n "address_user_count" x) x.order.nought;
    price_of = λ n.
        p.services.prices.pricer.unit_price "static_ip" "gcp" "unattached"
          (region_of std.to_lower n.location);
    branch = λ n u. record {
      waste = round2 x (x.mul u.0 (x.literal "730.0"));
      confidence = x.literal "1.0";
      label = "full_reservation";
    };
    evidence = λ n u.
        auto_collect fmt ("address_type" ∷ "status" ∷ []) n
        ++ (ev_money_in std "unit_price_hourly" (currency_of p.services.prices) u.0 4
            ∷ ((if has_text n "address_purpose"
                  then record { key = "address_purpose"; value = str_or_empty n "address_purpose" }
                    ∷ []
                  else [])
                ++ (if has_text n "address_ip"
                    then record { key = "address_ip"; value = str_or_empty n "address_ip" } ∷ []
                    else [])
                ++ price_evidence "price_source" p.services.prices "static_ip" "unattached" u.1
                  ∷ []));
    floor = x.literal "0.10";
  }

  module _ (ctx : ℕ → Bool) where
    reserved_ip-Implements :
        Implements x.order fmt ctx (unused_reserved_ip x std) p reserved_ip_contract
    unfolding unused_reserved_ip reserved_ip_contract set check_guards
    reserved_ip-Implements = record {
      noted = λ n. [];
      stash = λ n u.
          ("currency", words (currency_of p.services.prices))
          ∷ ("unit_price_hourly", amount u.0)
          ∷ (
            "price_source",
            entries
                (price_evidence "price_source" p.services.prices "static_ip" "unattached" u.1 ∷ []),
          )
          ∷ [];
      same_id = refl;
      same_floor = refl;
      refuses = λ n busy. ground (
        arith,
        known_text n "address_type" "EXTERNAL" refl,
        known_text n "status" "RESERVED" refl,
        other_text (str_or_empty n "status") "RESERVED" "IN_USE" refl,
      );
      accepts = λ n idle. ground (
        arith,
        known_text n "address_type" "EXTERNAL" refl,
        known_text n "status" "RESERVED" refl,
        other_text (str_or_empty n "status") "RESERVED" "IN_USE" refl,
      );
      unpriced = λ t n idle missing. rw (missing, reserved_ip_cost) refl;
      offers = λ t n u idle found. rw (found, reserved_ip_cost) refl;
      tells = λ n u idle found. refl;
    }

    -- On a graph that the API reaches, with a context that is never cancelled, unused_reserved_ip
    -- reports just the addresses that are not exempt, external, reserved and without users, if
    -- their price is known and its monthly amount reaches the floor, in the order of the index, with
    -- that amount as the waste and the evidence of the address and the price.
    pub eval_node_rule-unused_reserved_ip :
        ((t : ℕ) → ctx t ≡ false)
        → Reach p.graph
        → (r : Run F) × (eval_node_rule x.order fmt ctx (unused_reserved_ip x std) p ≡ some r)
          × (r.findings
              ≡ promised_findings x.order reserved_ip_contract
                  (nodes_at p.graph.nodes (list_at "address" p.graph.by_kind)))
    unfolding unused_reserved_ip
    eval_node_rule-unused_reserved_ip live reached =
        findings-Contract x.order fmt ctx (unused_reserved_ip x std) p reserved_ip_contract live
          reserved_ip-Implements reached
