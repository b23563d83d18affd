-- ===== src/Rules/Gcp/UnderutilizedInstance/Promise.antt =====
-- The rule underutilized_instance against what it promises.
use tellury.Base.{
  ℕ, String, Bool, true, false, not, ◌&&◌, ◌≡◌, refl, ap, Option, none, some, List, [], ◌∷◌, ◌++◌,
  str_eq, ◌<>◌, arith, Option-cases, inl, inr, all, filter, fun_ext, ◌∙◌,
}
use mathlib.Core.List.{append-nil}
use mathlib.Core.Path.{subst}
use tellury.Base.Dict.{list_at}
use tellury.Float.{Numeric}
use tellury.Graph.Node.{Node, str, metric_ok}
use tellury.Graph.Reach.{Reach}
use tellury.Rules.Contract.{
  Contract, Implements, promised_findings, findings-Contract, refused_unless, all_of,
}
use tellury.Graph.Walk.{nodes_at}
use tellury.Rules.Types.{Evidence, Pass, NodeContext, Formats, set}
use tellury.Rules.Adapt.{Run, eval_node_rule, check_guards, auto_collect}
use tellury.Rules.Toolbox.{
  Services, Std, Stash, words, amount, entries, num_or_zero, str_or_empty, bool_or_false, has_text,
  has_number, has_positive, parsed_time, days_since, round2, truth, known, count,
}
use tellury.Rules.Evidence.{price_evidence_for, currency_of, ev_money_in}
use tellury.Rules.Guarded.{check_guards-Passes}
use tellury.Pricing.Cost.{MachineSpec}
use tellury.Rules.Gcp.Shape.{Shape, price_shape, find_candidate}
use tellury.Rules.Gcp.Shape.Hourly.{
  hourly, is_enough, first_priced, price_shape-hourly, walk_ladder-first_priced,
}
use tellury.Rules.Gcp.UnderutilizedInstance.{
  instance_cost, cpu_data_present, instance_guards, underutilized_instance,
}

module _ {F : Type 0} (x : Numeric F) (std : Std F) (fmt : Formats F)
    (p : Pass F (Services F)) where
  -- The load of the processors and the number of its samples, if the metric is good enough.
  abbrev load_of : Node F → F
  load_of n = elim (metric_ok x.order n "cpu_utilization_p95" 168 (x.literal "0.50")) [
    | none ↦ x.order.nought
    | some m ↦ m.value
  ]

  abbrev samples_of : Node F → ℕ
  samples_of n = elim (metric_ok x.order n "cpu_utilization_p95" 168 (x.literal "0.50")) [
    | none ↦ 0
    | some m ↦ m.samples
  ]

  -- Whether at least 7 days have gone since the instance was made.
  abbrev a_week_old : Node F → Bool
  a_week_old n = elim (parsed_time n "creation_timestamp" std) [
    | none ↦ false
    | some t ↦ x.order.le (x.literal "7.0") (days_since x std p.now t)
  ]

  -- An instance of a known shape that has run by itself for a week, and idles for more than 0.40 of
  -- its capacity: no group manages it, it is no spot instance and has no accelerator.
  abbrev conditions : Node F → List Bool
  conditions n =
      (elim (str n "created_by") [
        | none ↦ true
        | some created_by ↦ not (std.contains_text created_by "instanceGroupManagers")
      ])
      ∷ has_text n "machine_type"
      ∷ (has_number n "vcpu_count" && x.order.le (x.literal "1") (num_or_zero n "vcpu_count" x))
      ∷ has_positive n "memory_gib" x
      ∷ has_text n "machine_family"
      ∷ has_text n "status"
      ∷ str_eq (str_or_empty n "status") "RUNNING"
      ∷ (not (str_eq (str_or_empty n "provisioning_model") "SPOT")
          && not (bool_or_false n "preemptible"))
      ∷ x.order.eq (num_or_zero n "accelerator_count" x) x.order.nought
      ∷ known (parsed_time n "creation_timestamp" std)
      ∷ a_week_old n
      ∷ known (metric_ok x.order n "cpu_utilization_p95" 168 (x.literal "0.50"))
      ∷ x.order.lt (x.literal "0.40") (x.sub (x.literal "1") (load_of n))
      ∷ []

  -- The smaller machine that the search finds.
  abbrev smaller : Node F → Option (MachineSpec F × Shape F)
  smaller n =
      find_candidate x p (str_or_empty n "machine_family") (num_or_zero n "vcpu_count" x)
        (load_of n)

  abbrev told : Node F → Shape F → String → F → List Evidence → List Evidence
  told n u machine monthly more =
      record {
        key = "p95_cpu";
        value = std.show_fixed 2 (x.mul (load_of n) (x.literal "100")) <> "%";
      }
      ∷ record { key = "machine_type"; value = str_or_empty n "machine_type" }
      ∷ record { key = "recommended_machine_type"; value = machine }
      ∷ ev_money_in std "current_monthly" (currency_of p.services.prices) u.cost 2
      ∷ ev_money_in std "recommended_monthly" (currency_of p.services.prices) monthly 2
      ∷ record { key = "samples"; value = std.show_count (samples_of n) }
      ∷ (price_evidence_for "current_price_source" p.services.prices u.comps ++ more)

  -- An instance of a known shape that runs by itself and idles for more than 0.40 of its capacity wastes
  -- what it costs more than the machine that the search finds, or all its cost if none is found.
  -- `price` tells the price of the shape and its parts, `found` the machine that may replace it.
  abbrev contract_of :
      (Node F → Option (Shape F))
      → (Node F → Option (MachineSpec F × Shape F))
      → Contract F (Shape F)
  contract_of price found = record {
    rule_id = "underutilized_instance";
    idle = λ n. all (λ b. b) (conditions n);
    price_of = price;
    branch = λ n u. elim (found n) [
      | some (candidate, cand) ↦ record {
        waste = x.sub u.cost cand.cost;
        confidence = round2 x (x.literal "0.8");
        label = "rightsize";
      }
      | none ↦ record {
        waste = u.cost;
        confidence = round2 x (x.literal "0.5");
        label = "stop_delete";
      }
    ];
    evidence = λ n u.
        told n u (elim (found n) [ some (candidate, cand) ↦ candidate.name | none ↦ "stop/delete" ])
          (elim (found n) [ some (candidate, cand) ↦ cand.cost | none ↦ x.order.nought ])
          (elim (found n) [
            | some (candidate, cand) ↦
                price_evidence_for "recommended_price_source" p.services.prices cand.comps
            | none ↦ record { key = "no_smaller_size"; value = "true" } ∷ []
          ]);
    floor = x.literal "1.00";
  }

  unfoldable instance_contract : Contract F (Shape F)
  instance_contract =
      contract_of
        (λ n.
          price_shape x p.services.prices.pricer (str_or_empty n "machine_type")
            (str_or_empty n "machine_family") (num_or_zero n "vcpu_count" x)
            (num_or_zero n "memory_gib" x))
        smaller

  abbrev first_smaller : Node F → Option (MachineSpec F × Shape F)
  first_smaller n = elim p.services.sizer [
    | none ↦ none
    | some sizer ↦ first_priced x p (
        filter (is_enough x p (num_or_zero n "vcpu_count" x) (load_of n))
          (sizer.ladder (str_or_empty n "machine_family")))
  ]

  -- The contract with the prices and the search spelled out.
  unfoldable pub instance_promise : Contract F (Shape F)
  instance_promise =
      contract_of
        (λ n.
          hourly x p (str_or_empty n "machine_type") (str_or_empty n "machine_family")
            (num_or_zero n "vcpu_count" x) (num_or_zero n "memory_gib" x))
        first_smaller

  smaller-first_smaller : (n : Node F) → smaller n ≡ first_smaller n
  unfolding find_candidate
  smaller-first_smaller n = elim (Option-cases p.services.sizer) [
    | inl none_there ↦ rw (none_there, smaller, find_candidate, first_smaller) refl
    | inr (sizer, found) ↦
        rw (found, smaller, find_candidate, first_smaller)
          (walk_ladder-first_priced x p (num_or_zero n "vcpu_count" x) (load_of n)
            (sizer.ladder (str_or_empty n "machine_family")))
  ]

  instance_contract-eq : instance_contract ≡ instance_promise
  unfolding instance_contract instance_promise
  instance_contract-eq =
      ap (λ price. contract_of price smaller)
        (fun_ext (λ n.
          price_shape-hourly x p (str_or_empty n "machine_type") (str_or_empty n "machine_family")
            (num_or_zero n "vcpu_count" x) (num_or_zero n "memory_gib" x)))
      ∙ ap (contract_of _) (fun_ext smaller-first_smaller)

  -- What the guards leave in the context.
  abbrev noted_of : Node F → NodeContext (Stash F)
  noted_of n = ("p95_cpu", amount (load_of n)) ∷ ("cpu_samples", count (samples_of n)) ∷ []

  -- What the cost leaves in it.
  abbrev stash_of : Node F → Shape F → NodeContext (Stash F)
  stash_of n u =
      let nc = set (noted_of n) "currency" (words (currency_of p.services.prices)) in
      let source = price_evidence_for "current_price_source" p.services.prices u.comps in
      elim (smaller n) [
        | some (candidate, cand) ↦
            let nc1 =
              set (set nc "recommended_machine_type" (words candidate.name)) "current_monthly"
                (amount u.cost) in
            let nc2 =
              set (set nc1 "recommended_monthly" (amount cand.cost)) "no_smaller_size"
                (truth false) in
            set (set nc2 "current_price_source" (entries source)) "recommended_price_source"
              (entries (price_evidence_for "recommended_price_source" p.services.prices cand.comps))
        | none ↦
            let nc1 =
              set (set nc "recommended_machine_type" (words "stop/delete")) "current_monthly"
                (amount u.cost) in
            let nc2 =
              set (set nc1 "recommended_monthly" (amount x.order.nought)) "no_smaller_size"
                (truth true) in
            set nc2 "current_price_source" (entries source)
      ]

  passed-conditions :
      (n : Node F) (nc : NodeContext (Stash F))
      → check_guards (instance_guards x std) n [] p ≡ (none, nc)
      → instance_contract.idle n ≡ true
  unfolding instance_guards instance_contract set
  passed-conditions n nc h =
      let c = check_guards-Passes n p (instance_guards x std) [] nc h in
      elim (Option-cases (metric_ok x.order n "cpu_utilization_p95" 168 (x.literal "0.50"))) [
        | inl missing ↦
            absurd (ground (arith, rw (missing, cpu_data_present) at c.1.1.1.1.1.1.1.1.1.1.1.0))
        | inr (m, found) ↦
            let d = rw (found, cpu_data_present) at c.1.1.1.1.1.1.1.1.1.1.1.1 in
            rw
              (
                c.0, c.1.0, c.1.1.0, c.1.1.1.0, c.1.1.1.1.0, c.1.1.1.1.1.0, c.1.1.1.1.1.1.0,
                c.1.1.1.1.1.1.1.0, c.1.1.1.1.1.1.1.1.0, c.1.1.1.1.1.1.1.1.1.0,
                c.1.1.1.1.1.1.1.1.1.1.0, found, load_of, d.0,
              )
              refl
      ]

  instance-accepts :
      (n : Node F)
      → instance_contract.idle n ≡ true
      → check_guards (instance_guards x std) n [] p ≡ (none, noted_of n)
  unfolding instance_guards instance_contract set check_guards
  instance-accepts n idle =
      let c = all_of (conditions n) idle in
      elim (Option-cases (metric_ok x.order n "cpu_utilization_p95" 168 (x.literal "0.50"))) [
        | inl missing ↦ absurd (ground (arith, rw missing at c.1.1.1.1.1.1.1.1.1.1.1.0))
        | inr (m, found) ↦
            let d = rw (found, load_of) at c.1.1.1.1.1.1.1.1.1.1.1.1.0 in
            rw
              (
                c.0, c.1.0, c.1.1.0, c.1.1.1.0, c.1.1.1.1.0, c.1.1.1.1.1.0, c.1.1.1.1.1.1.0,
                c.1.1.1.1.1.1.1.0, c.1.1.1.1.1.1.1.1.0, c.1.1.1.1.1.1.1.1.1.0,
                c.1.1.1.1.1.1.1.1.1.1.0, found, cpu_data_present, noted_of, load_of, samples_of,
              )
              (rw d refl)
      ]

  module _ (ctx : ℕ → Bool) where
    underutilized_instance-Implements :
        Implements x.order fmt ctx (underutilized_instance x std) p instance_contract
    unfolding underutilized_instance instance_contract set auto_collect
    underutilized_instance-Implements = record {
      noted = noted_of;
      stash = stash_of;
      same_id = refl;
      same_floor = refl;
      refuses = λ n busy.
          refused_unless (instance_contract.idle n) (λ nc h. passed-conditions n nc h) busy;
      accepts = instance-accepts;
      unpriced = λ t n idle missing. rw (missing, instance_cost) refl;
      offers = λ t n u idle found. elim (Option-cases (smaller n)) [
        | inl no_smaller ↦
            rw (found, no_smaller, instance_cost)
              (rw (no_smaller, stash_of, instance_contract, contract_of) refl)
        | inr (candidate, found_candidate) ↦
            rw (found, found_candidate, instance_cost)
              (rw (found_candidate, stash_of, instance_contract, contract_of) refl)
      ];
      tells = λ n u idle found. elim (Option-cases (smaller n)) [
        | inl no_smaller ↦ rw (no_smaller, stash_of, instance_contract, contract_of) refl
        | inr (candidate, found_candidate) ↦
            rw (found_candidate, stash_of, instance_contract, contract_of)
              (ap (told n u candidate.0.name candidate.1.cost) (
                append-nil (
                  price_evidence_for "recommended_price_source" p.services.prices
                    candidate.1.comps)))
      ];
    }

    -- On a graph that the API reaches, with a context that is never cancelled, underutilized_instance
    -- reports just the instances that are not exempt, run by themselves for at least 7 days with a known
    -- shape and a load that a good enough metric reads below 0.60, if their shape is priced and the waste
    -- reaches the floor, in the order of the index; the waste is the cost of the shape less that of the
    -- smaller machine that the search finds, if it finds one.
    pub eval_node_rule-underutilized_instance :
        ((t : ℕ) → ctx t ≡ false)
        → Reach p.graph
        → (r : Run F) × (eval_node_rule x.order fmt ctx (underutilized_instance x std) p ≡ some r)
          × (r.findings
              ≡ promised_findings x.order instance_promise
                  (nodes_at p.graph.nodes (list_at "instance" p.graph.by_kind)))
    unfolding underutilized_instance
    eval_node_rule-underutilized_instance live reached =
        let kept = nodes_at p.graph.nodes (list_at "instance" p.graph.by_kind) in
        subst
          (λ c.
            (r : Run F) × (eval_node_rule x.order fmt ctx (underutilized_instance x std) p ≡ some r)
            × (r.findings ≡ promised_findings x.order c kept))
          instance_contract-eq
          (findings-Contract x.order fmt ctx (underutilized_instance x std) p instance_contract live
            underutilized_instance-Implements reached)
