-- ===== src/Rules/Coverage.antt =====
-- pkg/rules/coverage.go: the rules that lack metric data. `HasMetric` may meet a nil node: `none`.
use tellury.Base.{
  String, Bool, true, false, not, ◌&&◌, Option, none, some, List, [], ◌∷◌, str_eq, ◌==◌,
  if◌then◌else◌,
}
use tellury.Base.Dict.{Dict, insert}
use tellury.Graph.Build.{Graph}
use tellury.Graph.Query.{has_metric, count_by_kind}
use tellury.Rules.Registry.{Rule, sorted_keys}

module _ {F : Type 0} (g : Graph F) where
  -- The loop that stops at the first required metric that is there.
  unfoldable pub has_any_metric : List String → Option Bool
  unfolding has_metric
  has_any_metric [] = some false
  has_any_metric (k ∷ reqs) =
      let rest = has_any_metric reqs in
      elim (has_metric g k) [ none ↦ none | some present ↦ if present then some true else rest ]

module _ {F A : Type 0} (g : Graph F) where
  -- The ids of the blocked rules, as the keys of a map.
  unfoldable pub missing_rules : List (Rule A) → Dict Bool → Option (Dict Bool)
  unfolding has_any_metric count_by_kind insert
  missing_rules [] missing = some missing
  missing_rules (r ∷ selected) missing =
      let skip = missing_rules selected missing in
      let block = missing_rules selected (insert r.meta.id true missing) in
      elim r.meta.required_metrics [
        | [] ↦ skip
        | _ ∷ _ ↦
            if not (str_eq r.meta.target_kind "") && count_by_kind g r.meta.target_kind == 0
            then skip
            else (elim (has_any_metric g r.meta.required_metrics) [
              | none ↦ none
              | some present ↦ if present then skip else block
            ])
      ]

  unfoldable pub metrics_blocked : List (Rule A) → Option (List String)
  unfolding missing_rules sorted_keys
  metrics_blocked selected = elim (missing_rules selected []) [
    | none ↦ none
    | some missing ↦ some (sorted_keys missing)
  ]
