-- ===== src/Rules/Gcp/NoLifecyclePolicy/Promise.antt =====
-- The rule no_lifecycle_policy against what it promises.
use tellury.Base.{
  Bool-cases, ◌||◌, fun_ext, ℕ, String, Bool, true, false, not, ◌&&◌, ◌≡◌, refl, ap, Option, none,
  some, [], ◌∷◌, str_eq, arith, Option-cases, inl, inr,
}
use mathlib.Core.Path.{subst}
use tellury.Base.Dict.{list_at}
use tellury.Float.{Numeric}
use tellury.Graph.Node.{Node, metric_ok}
use tellury.Graph.Reach.{Reach}
use tellury.Rules.Contract.{Contract, Implements, promised_findings, findings-Contract, refused}
use tellury.Graph.Walk.{nodes_at}
use tellury.Pricing.Region.{region_of}
use tellury.Rules.Types.{Pass, NodeContext, Formats, set}
use tellury.Rules.Adapt.{Run, eval_node_rule, check_guards, auto_collect}
use tellury.Rules.Toolbox.{
  Services, Std, Stash, words, amount, entries, num_or_zero, str_or_empty, bool_or_false, has_text,
  has_number, round2, known, value_or,
}
use tellury.Rules.Evidence.{price_evidence, currency_of, ev_money_in}
use tellury.Rules.Gcp.NoLifecyclePolicy.{
  lifecycle_cost, no_lifecycle_policy, normalize_storage_class,
}

module _ {F : Type 0} (x : Numeric F) (std : Std F) (fmt : Formats F)
    (p : Pass F (Services F)) where
  -- The bytes that are stored, if the metric is good enough.
  abbrev bytes_of : Node F → F
  bytes_of n = elim (metric_ok x.order n "bucket_total_bytes_mean" 7 (x.literal "0.20")) [
    | none ↦ x.order.nought
    | some m ↦ m.value
  ]

  abbrev class_price : Node F → String → Option (F × String)
  class_price n c =
      p.services.prices.pricer.unit_price "gcs_storage" "gcp" c (region_of std.to_lower n.location)

  -- A bucket of the standard class with enough bytes, no lifecycle rules, no autoclass and no lock wastes
  -- what its cold bytes cost more than in the colder class.
  -- `standard` tells which classes are priced as the standard one.
  abbrev contract_of : (String → Bool) → Contract F (F × String × F × String)
  contract_of standard = record {
    rule_id = "no_lifecycle_policy";
    idle = λ n.
        has_text n "bucket_name"
        && has_number n "lifecycle_rule_count"
        && has_text n "storage_class"
        && x.order.eq (num_or_zero n "lifecycle_rule_count" x) x.order.nought
        && standard (str_or_empty n "storage_class")
        && not (bool_or_false n "autoclass_enabled")
        && not (bool_or_false n "retention_locked")
        && known (metric_ok x.order n "bucket_total_bytes_mean" 7 (x.literal "0.20"))
        && x.order.le (x.literal "10737418240") (bytes_of n);
    price_of = λ n. elim (class_price n "STANDARD") [
      | none ↦ none
      | some from ↦ elim (class_price n "NEARLINE") [
        | none ↦ none
        | some to ↦ some (from.0, from.1, to.0, to.1)
      ]
    ];
    branch = λ n u. record {
      waste =
          x.mul (x.mul (x.div (bytes_of n) (x.literal "1073741824")) (x.literal "0.60"))
            (x.sub u.0 u.2);
      confidence = round2 x (x.literal "0.6");
      label = "class_transition";
    };
    evidence = λ n u.
        record { key = "total_bytes"; value = std.show_fixed 0 (bytes_of n) }
        ∷ record { key = "storage_class"; value = str_or_empty n "storage_class" }
        ∷ record {
          key = "lifecycle_rules";
          value = std.show_fixed 0 (num_or_zero n "lifecycle_rule_count" x);
        }
        ∷ record { key = "cold_fraction"; value = std.show_fixed 2 (x.literal "0.60") }
        ∷ ev_money_in std "delta_per_gb_month" (currency_of p.services.prices) (x.sub u.0 u.2) 4
        ∷ price_evidence "from_price_source" p.services.prices "gcs_storage" "STANDARD" u.1
        ∷ price_evidence "to_price_source" p.services.prices "gcs_storage" "NEARLINE" u.3
        ∷ [];
    floor = x.literal "0.0";
  }

  abbrev normal : String → Bool
  normal class = str_eq (normalize_storage_class x std class) "STANDARD"

  unfoldable lifecycle_contract : Contract F (F × String × F × String)
  lifecycle_contract = contract_of normal

  -- The standard class and the three older names of it.
  abbrev is_standard : String → Bool
  is_standard class =
      str_eq class "STANDARD"
      || (str_eq class "MULTI_REGIONAL"
          || str_eq class "REGIONAL"
          || str_eq class "DURABLE_REDUCED_AVAILABILITY")

  -- The contract with the standard class spelled out.
  unfoldable pub lifecycle_promise : Contract F (F × String × F × String)
  lifecycle_promise = contract_of is_standard

  normal-any : (class : String) → normal class ≡ is_standard class
  unfolding normalize_storage_class
  normal-any class =
      elim (Bool-cases (
        str_eq class "MULTI_REGIONAL"
        || str_eq class "REGIONAL"
        || str_eq class "DURABLE_REDUCED_AVAILABILITY")) [
          | inl older ↦ rw (older, normal, normalize_storage_class) (ground arith)
          | inr other ↦ rw (other, normal, normalize_storage_class) (ground arith)
        ]

  lifecycle_contract-eq : lifecycle_contract ≡ lifecycle_promise
  unfolding lifecycle_contract lifecycle_promise
  lifecycle_contract-eq = ap contract_of (fun_ext normal-any)

  -- What the guards leave in the context.
  abbrev noted_of : Node F → NodeContext (Stash F)
  noted_of n = ("total_bytes", amount (bytes_of n)) ∷ []

  -- What the cost leaves in it.
  abbrev stash_of : Node F → F × String × F × String → NodeContext (Stash F)
  stash_of n u =
      set
        (set
          (set (set (noted_of n) "currency" (words (currency_of p.services.prices)))
            "delta_per_gb_month" (amount (x.sub u.0 u.2)))
          "from_price_source"
          (entries (
            price_evidence "from_price_source" p.services.prices "gcs_storage" "STANDARD" u.1
            ∷ [])))
        "to_price_source"
        (entries
          (price_evidence "to_price_source" p.services.prices "gcs_storage" "NEARLINE" u.3 ∷ []))

  lifecycle-refuses :
      (n : Node F)
      → lifecycle_contract.idle n ≡ false
      → refused (check_guards (no_lifecycle_policy x std).guards n [] p) ≡ true
  unfolding no_lifecycle_policy lifecycle_contract set check_guards
  lifecycle-refuses n busy =
      elim (Option-cases (metric_ok x.order n "bucket_total_bytes_mean" 7 (x.literal "0.20"))) [
        | inl missing ↦ ground (arith)
        | inr (t, found) ↦ ground (arith)
      ]

  lifecycle-accepts :
      (n : Node F)
      → lifecycle_contract.idle n ≡ true
      → check_guards (no_lifecycle_policy x std).guards n [] p ≡ (none, noted_of n)
  unfolding no_lifecycle_policy lifecycle_contract set check_guards
  lifecycle-accepts n idle =
      elim (Option-cases (metric_ok x.order n "bucket_total_bytes_mean" 7 (x.literal "0.20"))) [
        | inl missing ↦ ground (arith)
        | inr (t, found) ↦ ground (arith)
      ]

  module _ (ctx : ℕ → Bool) where
    no_lifecycle_policy-Implements :
        Implements x.order fmt ctx (no_lifecycle_policy x std) p lifecycle_contract
    unfolding no_lifecycle_policy lifecycle_contract set auto_collect
    no_lifecycle_policy-Implements = record {
      noted = noted_of;
      stash = stash_of;
      same_id = refl;
      same_floor = refl;
      refuses = lifecycle-refuses;
      accepts = lifecycle-accepts;
      unpriced = λ t n idle missing. elim (Option-cases (class_price n "STANDARD")) [
        | inl no_from ↦ rw (no_from, lifecycle_cost) refl
        | inr (from, found_from) ↦ elim (Option-cases (class_price n "NEARLINE")) [
          | inl no_to ↦ rw (found_from, no_to, lifecycle_cost) refl
          | inr (to, found_to) ↦ absurd (
              ground (arith, rw (found_from, found_to, lifecycle_contract, contract_of) at missing))
        ]
      ];
      offers = λ t n u idle found. elim (Option-cases (class_price n "STANDARD")) [
        | inl no_from ↦
            absurd (ground (arith, rw (no_from, lifecycle_contract, contract_of) at found))
        | inr (from, found_from) ↦ elim (Option-cases (class_price n "NEARLINE")) [
          | inl no_to ↦
              absurd
                (ground (arith, rw (found_from, no_to, lifecycle_contract, contract_of) at found))
          | inr (to, found_to) ↦
              let same =
                ap (value_or u)
                  (rw (found_from, found_to, lifecycle_contract, contract_of) at found) in
              rw (found_from, found_to, lifecycle_cost)
                (ap (λ v. (stash_of n v, some (lifecycle_contract.branch n v ∷ []))) same)
        ]
      ];
      tells = λ n u idle found. refl;
    }

    -- On a graph that the API reaches, with a context that is never cancelled, no_lifecycle_policy
    -- reports just the buckets that are not exempt, of the standard class, without lifecycle rules, autoclass
    -- and retention lock, and with a metric that is good enough and reads 10 GiB or more, if the prices of both
    -- classes are known and the waste is not negative, in the order of the index; the waste is what 0.60 of
    -- the bytes cost more than in the colder class.
    pub eval_node_rule-no_lifecycle_policy :
        ((t : ℕ) → ctx t ≡ false)
        → Reach p.graph
        → (r : Run F) × (eval_node_rule x.order fmt ctx (no_lifecycle_policy x std) p ≡ some r)
          × (r.findings
              ≡ promised_findings x.order lifecycle_promise
                  (nodes_at p.graph.nodes (list_at "bucket" p.graph.by_kind)))
    unfolding no_lifecycle_policy
    eval_node_rule-no_lifecycle_policy live reached =
        let kept = nodes_at p.graph.nodes (list_at "bucket" p.graph.by_kind) in
        subst
          (λ c.
            (r : Run F) × (eval_node_rule x.order fmt ctx (no_lifecycle_policy x std) p ≡ some r)
            × (r.findings ≡ promised_findings x.order c kept))
          lifecycle_contract-eq
          (findings-Contract x.order fmt ctx (no_lifecycle_policy x std) p lifecycle_contract live
            no_lifecycle_policy-Implements reached)
