-- ===== src/Rules/Examples.antt =====
-- A node rule on a small graph, a small registry, and the theorems on them.
use tellury.Base.{
  ℕ, ◌+◌, String, Bool, true, false, not, ◌||◌, ◌≡◌, refl, Option, none, some, List, [], ◌∷◌,
  filter, any, map, Every, ltb, if◌then◌else◌,
}
use tellury.Base.Sort
use tellury.Base.Dict.{Dict, lookup, insert, get_or, has_key, list_at, push, map_values}
use tellury.Base.Names.{IsSetOf, contains}
use tellury.Base.Trim.{trim_space}
use tellury.Float.{cents, cents-IsOrdered}
use tellury.Graph.Node.{Node, number, num, exempt}
use tellury.Graph.Build.{Graph, empty, add_node, freeze, put_node, seal, prune}
use tellury.Graph.Reach.{Reach, new, after, adds_node, freezes}
use tellury.Graph.Walk.{usable}
use tellury.Rules.Types.{Evidence, Meta, Pass, CostBranch, Guard, NodeRule, Formats, set, get}
use tellury.Rules.Adapt.{auto_collect, eval_node_rule, Run}
use tellury.Rules.Justified.{IsJustified, eval_node_rule-Justified, map-auto_collect}
use tellury.Rules.Accounting.{eval_node_rule-tally, tally}
use tellury.Rules.Registry.{Rule, register, select, chosen, unknown_rule, list_rules, plan}
use tellury.Rules.Coverage.{metrics_blocked}
use tellury.Rules.Selection.{
  IsRegistry, Registered, names, known, IsListed, empty-IsRegistry, register-IsRegistry,
}
use tellury.Rules.Flags.{excluded, select-names, select-unknown}
use tellury.Rules.Listing.{plan-IsSetOf, list_rules-IsSetOf}
use tellury.Rules.Blocked.{is_blocked, metrics_blocked-IsSetOf}

abbrev disk : String → ℕ → Dict String → Node ℕ
disk id size labels = record {
  id = id;
  kind = "disk";
  name = id;
  provider = "gcp";
  service = "compute";
  asset_type = "";
  project = "p";
  location = "";
  labels = labels;
  attrs = ("size_gb", number size) ∷ [];
  metrics = [];
  raw = "";
}

-- A large disk, a small one, one without a price and one that is exempt.
abbrev scanned : Graph ℕ
scanned =
    freeze
      (add_node
        (add_node
          (add_node (add_node empty (some (disk "large" 9 []))).0 (some (disk "small" 1 []))).0
          (some (disk "odd" 0 []))).0
        (some (disk "kept" 9 (("tellury-exempt", "true") ∷ [])))).0

reached : Reach scanned
reached =
    after
      (after (after (after (after new (adds_node _ _)) (adds_node _ _)) (adds_node _ _))
        (adds_node _ _))
      (freezes _)

abbrev pass : Pass ℕ Unit
pass = record { graph = scanned; services = tt; scope = "p"; window = 14; now = 0; has_skip = true }

abbrev meta_of : String → List String → Meta
meta_of id metrics = record {
  id = id;
  provider = "gcp";
  service = "compute";
  title = "";
  description = "";
  severity = "low";
  required_asset_types = "compute.googleapis.com/Disk" ∷ [];
  required_metrics = metrics;
  remediation = "";
  origin = "native";
  target_kind = "disk";
}

-- The guard remembers the size, and the cost offers two branches, for all of the disk and for a half.
abbrev sized : Guard ℕ ℕ Unit
sized = record {
  skip_code = "missing_attribute";
  name = "size";
  check =
      λ n nc p. elim (num n "size_gb") [ none ↦ (false, nc) | some s ↦ (true, set nc "size" s) ];
}

abbrev whole_or_half : ℕ → List (CostBranch ℕ)
whole_or_half s =
    record { waste = s; confidence = 1; label = "half" }
    ∷ record { waste = s + s; confidence = 2; label = "whole" }
    ∷ []

abbrev unused_disk : NodeRule ℕ ℕ Unit
unused_disk = record {
  meta = meta_of "unused_disk" [];
  kind = "disk";
  guards = sized ∷ [];
  cost = λ t n nc p. elim (get nc "size") [
    | none ↦ (nc, none)
    | some s ↦ (nc, if ltb 0 s then some (whole_or_half s) else none)
  ];
  min_waste = 5;
  evidence_keys = "size_gb" ∷ "cpu" ∷ [];
  extra_evidence = λ n nc b. record { key = "branch"; value = b.label } ∷ [];
}

abbrev formats : Formats ℕ
formats = record { show_value = λ v. "v"; show_number = λ x. "x" }

abbrev live : ℕ → Bool
live t = false

abbrev wastes : Option (Run ℕ) → List (String × ℕ)
wastes none = []
wastes (some r) = map (λ fd. (fd.resource_id, fd.monthly_waste)) r.findings

abbrev codes : Option (Run ℕ) → List (String × String)
codes none = []
codes (some r) = map (λ s. (s.ref, s.code)) r.skips

-- The large disk is reported by its dearer branch, and each of the others is skipped for its reason.
evaluated :
    (wastes (eval_node_rule cents formats live unused_disk pass) ≡ ("large", 18) ∷ [])
    × (codes (eval_node_rule cents formats live unused_disk pass)
        ≡ ("kept", "exempt_label") ∷ ("odd", "no_price") ∷ ("small", "below_min_waste") ∷ [])
unfolding eval_node_rule freeze add_node put_node seal prune push Sort.sort num exempt get_or set
    get map_values
evaluated = (refl, refl)

eval_node_rule-Justified_example :
    (r : Run ℕ) × (eval_node_rule cents formats live unused_disk pass ≡ some r)
    × Every (IsJustified cents formats live unused_disk pass) r.findings
eval_node_rule-Justified_example =
    eval_node_rule-Justified cents formats live unused_disk pass cents-IsOrdered reached

eval_node_rule-tally_example :
    (r : Run ℕ) × (eval_node_rule cents formats live unused_disk pass ≡ some r)
    × ((id : String) → tally id r ≡ (if contains id (list_at "disk" scanned.by_kind) then 1 else 0))
eval_node_rule-tally_example =
    eval_node_rule-tally cents formats live unused_disk pass (λ t. refl) refl reached

map-auto_collect_example :
    map
      (λ (e : Evidence). e.key)
      (auto_collect formats ("size_gb" ∷ "cpu" ∷ []) (disk "large" 9 []))
    ≡ filter
        (λ k. has_key k (disk "large" 9 []).attrs || usable k (disk "large" 9 []))
        ("size_gb" ∷ "cpu" ∷ [])
map-auto_collect_example = map-auto_collect formats ("size_gb" ∷ "cpu" ∷ []) (disk "large" 9 [])

abbrev rule : String → List String → Rule Unit
rule id metrics = record { meta = meta_of id metrics; eval = tt }

abbrev one_rule : Dict (Rule Unit)
one_rule = ("idle_disk", rule "idle_disk" ("cpu" ∷ [])) ∷ []

one_rule-IsRegistry : IsRegistry one_rule
unfolding register insert lookup
one_rule-IsRegistry = (register-IsRegistry [] (rule "idle_disk" ("cpu" ∷ [])) empty-IsRegistry).1

register-IsRegistry_example :
    Registered one_rule (rule "idle_disk" []) (register one_rule (rule "idle_disk" []))
register-IsRegistry_example = register-IsRegistry one_rule (rule "idle_disk" []) one_rule-IsRegistry

abbrev registry : Dict (Rule Unit)
registry = ("idle_disk", rule "idle_disk" ("cpu" ∷ [])) ∷ ("big_disk", rule "big_disk" []) ∷ []

registry-IsRegistry : IsRegistry registry
unfolding register insert lookup
registry-IsRegistry = (register-IsRegistry one_rule (rule "big_disk" []) one_rule-IsRegistry).1

select-names_example :
    (rs : List (Rule Unit)) × (select registry "gcp"
        (" idle_disk" ∷ "big_disk" ∷ [])
        ("big_disk " ∷ [])
      ≡ chosen rs)
    × (names rs
        ≡ filter
            (λ k. not (excluded ("big_disk " ∷ []) k))
            (map trim_space (" idle_disk" ∷ "big_disk" ∷ [])))
    × Every (IsListed registry) rs
unfolding lookup trim_space
select-names_example =
    select-names registry registry-IsRegistry "gcp" " idle_disk" ("big_disk" ∷ [])
      ("big_disk " ∷ []) refl

select-unknown_example :
    (culprit : String) × (select registry "gcp" ("idle_disk" ∷ "no_such" ∷ []) []
      ≡ unknown_rule culprit)
    × (known registry culprit ≡ false)
    × (contains culprit ("idle_disk" ∷ "no_such" ∷ []) ≡ true)
unfolding lookup trim_space
select-unknown_example =
    select-unknown registry registry-IsRegistry "gcp" "idle_disk" ("no_such" ∷ []) [] refl

plan-IsSetOf_example :
    IsSetOf
      (λ k. any (λ (r : Rule Unit). contains k r.meta.required_asset_types) (list_rules registry))
      (plan (list_rules registry)).0
    × IsSetOf
        (λ k. any (λ (r : Rule Unit). contains k r.meta.required_metrics) (list_rules registry))
        (plan (list_rules registry)).1
plan-IsSetOf_example = plan-IsSetOf (list_rules registry)

list_rules-IsSetOf_example :
    IsSetOf (λ id. has_key id registry) (names (list_rules registry))
    × Every (IsListed registry) (list_rules registry)
list_rules-IsSetOf_example = list_rules-IsSetOf registry registry-IsRegistry

metrics_blocked-IsSetOf_example :
    (ids : List String) × (metrics_blocked scanned (list_rules registry) ≡ some ids)
    × IsSetOf (λ id. contains id (names (filter (is_blocked scanned) (list_rules registry)))) ids
metrics_blocked-IsSetOf_example = metrics_blocked-IsSetOf reached (list_rules registry)
