-- ===== src/Rules/Blocked.antt =====
-- `MetricsBlocked`.
use tellury.Base.{
  String, Bool, true, false, not, ◌&&◌, ◌==◌, ◌≡◌, refl, ◌∙◌, some, List, [], ◌∷◌, arith, filter,
  any, str_eq,
}
use tellury.Base.Dict.{Dict, lookup, insert}
use tellury.Base.Names.{IsSetOf, contains}
use tellury.Graph.Build.{Graph}
use tellury.Graph.Query.{count_by_kind}
use tellury.Graph.Reach.{Reach}
use tellury.Graph.Walk.{nodes_at, usable, has_metric-Reach}
use tellury.Rules.Registry.{Rule, mark, sorted_keys}
use tellury.Rules.Coverage.{has_any_metric, missing_rules, metrics_blocked}
use tellury.Rules.Selection.{names}
use tellury.Rules.Listing.{sorted_keys-IsSetOf, mark-NodupKeys, has_key-mark}

abbrev pub requires : List String → Bool
requires [] = false
requires (_ ∷ _) = true

module _ {F : Type 0} (g : Graph F) where
  -- Whether some node has one of the metrics, with at least one sample.
  abbrev pub has_some : List String → Bool
  has_some reqs = any (λ k. any (usable k) (nodes_at g.nodes g.order)) reqs

module _ {F A : Type 0} (g : Graph F) where
  -- A rule requires a metric, has a node of its target kind to look at, if it names a kind, and no
  -- node has any of its metrics.
  abbrev pub is_blocked : Rule A → Bool
  is_blocked r =
      requires r.meta.required_metrics
      && not (not (str_eq r.meta.target_kind "") && count_by_kind g r.meta.target_kind == 0)
      && not (has_some g r.meta.required_metrics)

module _ {F : Type 0} {g : Graph F} (reached : Reach g) where
  has_any_metric-Reach : (reqs : List String) → has_any_metric g reqs ≡ some (has_some g reqs)
  unfolding has_any_metric
  has_any_metric-Reach [] = refl
  has_any_metric-Reach (k ∷ reqs) =
      ground (arith, has_metric-Reach reached k, has_any_metric-Reach reqs)

module _ {F A : Type 0} {g : Graph F} (reached : Reach g) where
  missing_rules_lem :
      (selected : List (Rule A)) (m : Dict Bool)
      → missing_rules g selected m ≡ some (mark (names (filter (is_blocked g) selected)) m)
  unfolding missing_rules mark
  missing_rules_lem [] m = refl
  missing_rules_lem (r ∷ selected) m = ground (
    arith,
    has_any_metric-Reach reached r.meta.required_metrics,
    missing_rules_lem selected m,
    missing_rules_lem selected (insert r.meta.id true m),
  )

  -- On a graph that the API reaches, `MetricsBlocked` meets no nil node and returns the ids of the
  -- blocked rules, each once, in order: of those that require a metric, have a node to look at, if
  -- they name a target kind, and find none of their metrics on any node.
  pub metrics_blocked-IsSetOf :
      (selected : List (Rule A))
      → (ids : List String) × (metrics_blocked g selected ≡ some ids)
        × IsSetOf (λ id. contains id (names (filter (is_blocked g) selected))) ids
  unfolding metrics_blocked lookup
  metrics_blocked-IsSetOf selected =
      let missing = mark (names (filter (is_blocked g) selected)) [] in
      let (sorted, distinct, complete) =
        sorted_keys-IsSetOf missing
          (mark-NodupKeys (names (filter (is_blocked g) selected)) [] tt) in
      (
        sorted_keys missing,
        rw (missing_rules_lem selected [], metrics_blocked) refl,
        (
          sorted,
          distinct,
          λ k.
              complete k
              ∙ ground (arith, has_key-mark k (names (filter (is_blocked g) selected)) []),
        ),
      )
