-- ===== src/Rules/Gcp/UnderutilizedInstance.antt =====
-- pkg/rules/gcp/compute/underutilized_instance/rule.go: instances that a smaller machine could replace.
pub mod Promise
use tellury.Base.{
  ℕ, String, Bool, true, false, not, ◌&&◌, ◌||◌, ◌==◌, ◌≡◌, refl, ap, ◌∙◌, Option, none, some, List,
  [], ◌∷◌, ◌++◌, str_eq, if◌then◌else◌, ◌<>◌, arith, Option-cases, Bool-cases, inl, inr, eq_iff,
}
use tellury.Base.Dict.{list_at}
use tellury.Float.{Numeric}
use tellury.Graph.Node.{Node, num, str, bool, metric_ok}
use tellury.Graph.Query.{in_degree}
use tellury.Graph.Reach.{Reach}
use tellury.Graph.Walk.{nodes_at}
use tellury.Pricing.Region.{region_of}
use tellury.Pricing.Provenance.{round_2}
use tellury.Rules.Types.{
  Evidence, Meta, Pass, NodeContext, CostBranch, Guard, NodeRule, Formats, set,
}
use tellury.Rules.Adapt.{Run, eval_node_rule, check_guards, auto_collect}
use tellury.Rules.Toolbox.{
  Services, Std, Stash, words, amount, entries, stashed_words, stashed_amount, stashed_entries,
  stashed_instant, num_or_zero, str_or_empty, bool_or_false, has_text, has_number, has_positive,
  parsed_time, node_time, days_since, round2, known_text, other_text, truth, stashed_truth, instant,
  known, value_or, count, stashed_count,
}
use tellury.Rules.Evidence.{
  price_evidence, price_evidence_for, PricedComponent, currency_of, ev_money_in,
}
use tellury.Rules.Passing.{plain, timed, aged}
use tellury.Pricing.Cost.{MachineSpec}
use tellury.Rules.Gcp.Shape.{Shape, price_shape, find_candidate}

abbrev underutilized_instance_meta : Meta
underutilized_instance_meta = record {
  id = "underutilized_instance";
  provider = "gcp";
  service = "compute";
  title = "Instance is significantly overprovisioned for its CPU load";
  description =
      "A running, non-spot instance whose p95 CPU utilization leaves more than 40% headroom versus a smaller machine type in the same family. Rightsizing (or stopping) reclaims the delta.";
  severity = "high";
  required_asset_types = "compute.googleapis.com/Instance" ∷ [];
  required_metrics = "cpu_utilization_p95" ∷ [];
  remediation =
      "gcloud compute instances set-machine-type NAME --machine-type CANDIDATE --zone ZONE";
  origin = "native";
  target_kind = "";
}

module _ {F : Type 0} (x : Numeric F) (std : Std F) where
  abbrev pub cpu_data_present : Guard F (Stash F) (Services F)
  cpu_data_present = record {
    skip_code = "no_metric";
    name = "cpu_data_present";
    check = λ n nc p. elim (metric_ok x.order n "cpu_utilization_p95" 168 (x.literal "0.50")) [
      | none ↦ (false, nc)
      | some m ↦ (true, set (set nc "p95_cpu" (amount m.value)) "cpu_samples" (count m.samples))
    ];
  }

  abbrev overprovisioned : Guard F (Stash F) (Services F)
  overprovisioned = record {
    skip_code = "below_overprovision_threshold";
    name = "overprovisioned";
    check = λ n nc p.
        (x.order.lt (x.literal "0.40") (x.sub (x.literal "1") (stashed_amount nc "p95_cpu" x)), nc);
  }

  -- An absent model is standard.
  abbrev is_spot : Node F → Bool
  is_spot n = str_eq (str_or_empty n "provisioning_model") "SPOT"

  -- The guard before this one has found the time.
  abbrev pub instance_old_enough : Node F → Pass F (Services F) → Bool
  instance_old_enough n p = elim (parsed_time n "creation_timestamp" std) [
    | none ↦ false
    | some t ↦ x.order.le (x.literal "7.0") (days_since x std p.now t)
  ]

  unfoldable pub instance_guards : List (Guard F (Stash F) (Services F))
  unfolding stashed_amount
  instance_guards =
      plain "not_mig_member" "managed_by_mig" (λ n p. elim (str n "created_by") [
        | none ↦ true
        | some created_by ↦ not (std.contains_text created_by "instanceGroupManagers")
      ])
      ∷ plain "machine_type_valid" "unknown_machine_type" (λ n p. has_text n "machine_type")
      ∷ plain "vcpu_valid" "unknown_machine_type" (λ n p.
        has_number n "vcpu_count" && x.order.le (x.literal "1") (num_or_zero n "vcpu_count" x))
      ∷ plain "memory_valid" "unknown_machine_type" (λ n p. has_positive n "memory_gib" x)
      ∷ plain "family_valid" "unknown_machine_type" (λ n p. has_text n "machine_family")
      ∷ plain "status_present" "missing_attribute" (λ n p. has_text n "status")
      ∷ plain "running" "not_running" (λ n p. str_eq (str_or_empty n "status") "RUNNING")
      ∷ plain "not_spot" "spot" (λ n p. not (is_spot n) && not (bool_or_false n "preemptible"))
      ∷ plain "no_accelerators" "accelerator_present"
          (λ n p. x.order.eq (num_or_zero n "accelerator_count" x) x.order.nought)
      ∷ plain "creation_timestamp_parseable" "missing_attribute"
          (λ n p. known (parsed_time n "creation_timestamp" std))
      ∷ plain "old_enough" "too_young" instance_old_enough
      ∷ cpu_data_present
      ∷ overprovisioned
      ∷ []

  unfoldable pub instance_cost :
      ℕ
      → Node F
      → NodeContext (Stash F)
      → Pass F (Services F)
      → NodeContext (Stash F) × Option (List (CostBranch F))
  unfolding price_shape find_candidate round2 price_evidence_for currency_of num_or_zero
      str_or_empty stashed_amount
  instance_cost moment n nc p =
      let prices = p.services.prices in
      let family = str_or_empty n "machine_family" in
      let vcpu = num_or_zero n "vcpu_count" x in
      elim (price_shape x prices.pricer (str_or_empty n "machine_type") family vcpu
        (num_or_zero n "memory_gib" x)) [
          | none ↦ (nc, none)
          | some current ↦
              let currency = words (currency_of prices) in
              let source = price_evidence_for "current_price_source" prices current.comps in
              elim (find_candidate x p family vcpu (stashed_amount nc "p95_cpu" x)) [
                | some (candidate, cand) ↦
                    let nc1 =
                      set (set nc "currency" currency) "recommended_machine_type"
                        (words candidate.name) in
                    let nc2 =
                      set (set nc1 "current_monthly" (amount current.cost)) "recommended_monthly"
                        (amount cand.cost) in
                    let nc3 =
                      set (set nc2 "no_smaller_size" (truth false)) "current_price_source"
                        (entries source) in
                    (
                      set nc3 "recommended_price_source" (
                          entries
                            (price_evidence_for "recommended_price_source" prices cand.comps)),
                      some (
                          record {
                            waste = x.sub current.cost cand.cost;
                            confidence = round2 x (x.literal "0.8");
                            label = "rightsize";
                          }
                          ∷ []),
                    )
                | none ↦
                    let nc1 =
                      set (set nc "currency" currency) "recommended_machine_type"
                        (words "stop/delete") in
                    let nc2 =
                      set (set nc1 "current_monthly" (amount current.cost)) "recommended_monthly"
                        (amount x.order.nought) in
                    (
                      set (set nc2 "no_smaller_size" (truth true)) "current_price_source"
                          (entries source),
                      some (
                          record {
                            waste = current.cost;
                            confidence = round2 x (x.literal "0.5");
                            label = "stop_delete";
                          }
                          ∷ []),
                    )
              ]
        ]

  unfoldable pub instance_evidence : Node F → NodeContext (Stash F) → CostBranch F → List Evidence
  unfolding has_text has_number str_or_empty num_or_zero stashed_words stashed_count stashed_truth
      stashed_amount stashed_entries ev_money_in
  instance_evidence n nc branch =
      record {
        key = "p95_cpu";
        value = std.show_fixed 2 (x.mul (stashed_amount nc "p95_cpu" x) (x.literal "100")) <> "%";
      }
      ∷ record { key = "machine_type"; value = str_or_empty n "machine_type" }
      ∷ record {
        key = "recommended_machine_type";
        value = stashed_words nc "recommended_machine_type";
      }
      ∷ ev_money_in std "current_monthly" (stashed_words nc "currency")
          (stashed_amount nc "current_monthly" x) 2
      ∷ ev_money_in std "recommended_monthly" (stashed_words nc "currency")
          (stashed_amount nc "recommended_monthly" x) 2
      ∷ record { key = "samples"; value = std.show_count (stashed_count nc "cpu_samples") }
      ∷ (stashed_entries nc "current_price_source"
          ++ (stashed_entries nc "recommended_price_source"
              ++ (if stashed_truth nc "no_smaller_size"
                  then record { key = "no_smaller_size"; value = "true" } ∷ []
                  else [])))

  unfoldable pub underutilized_instance : NodeRule F (Stash F) (Services F)
  unfolding instance_guards instance_cost instance_evidence
  underutilized_instance = record {
    meta = underutilized_instance_meta;
    kind = "instance";
    guards = instance_guards;
    cost = instance_cost;
    min_waste = x.literal "1.00";
    evidence_keys = [];
    extra_evidence = instance_evidence;
  }
