-- ===== src/Graph/Query.antt =====
-- pkg/graph/query.go and the counters of graph.go: the readers of a graph. A callback that
-- iterates is handed the node that `nodes` holds for each id. At an id that `nodes` lacks Go hands
-- it a nil pointer, which every callback dereferences: the walk panics, and is `none`.
use tellury.Base.{
  ℕ, ◌+◌, String, Bool, true, false, not, ◌&&◌, Option, none, some, List, [], ◌∷◌, str_eq, ltb,
  length, filter, any, if◌then◌else◌,
}
use tellury.Base.Dict.{Dict, lookup, insert, list_at}
use tellury.Graph.Node.{Edge, Node, container}
use tellury.Graph.Build.{Graph}

-- `walk nodes fn ids s`: the state `s` of the callback after the ids, up to its first `false`.
module _ {F S : Type 0} (nodes : Dict (Node F)) (fn : S → Node F → S × Bool) where
  unfoldable pub walk : List String → S → Option S
  unfolding lookup
  walk [] s = some s
  walk (id ∷ ids) s = elim (lookup id nodes) [
    | none ↦ none
    | some n ↦ let (s', more) = fn s n in let rest = walk ids s' in if more then rest else some s'
  ]

pub data Direction : Type 0 where
  outbound inbound : Direction

unfoldable pub matches : String → List String → Bool
matches k kinds = any (λ want. str_eq k want) kinds

unfoldable pub degree : List Edge → List String → ℕ
unfolding matches
degree edges [] = length edges
degree edges (k ∷ kinds) = length (filter (λ e. matches e.kind (k ∷ kinds)) edges)

unfoldable pub edge_total : Dict (List Edge) → ℕ
edge_total [] = 0
edge_total ((_, edges) ∷ m) = length edges + edge_total m

module _ {F : Type 0} where
  unfoldable pub node : Graph F → String → Option (Node F)
  unfolding lookup
  node g id = lookup id g.nodes

  -- `Nodes` and `ByKind`
  abbrev pub for_nodes : {S : Type 0} → Graph F → (S → Node F → S × Bool) → S → Option S
  for_nodes g fn s = walk g.nodes fn g.order s

  abbrev pub for_kind : {S : Type 0} → Graph F → String → (S → Node F → S × Bool) → S → Option S
  for_kind g k fn s = walk g.nodes fn (list_at k g.by_kind) s

  unfoldable pub has_metric : Graph F → String → Option Bool
  unfolding walk
  has_metric g key =
      for_nodes g
        (λ found n. elim (lookup key n.metrics) [
          | none ↦ (found, true)
          | some m ↦ if ltb 0 m.samples then (true, false) else (found, true)
        ])
        false

  unfoldable pub count_by_kind : Graph F → String → ℕ
  count_by_kind g k = length (list_at k g.by_kind)

  unfoldable pub out : Graph F → String → List Edge
  out g id = list_at id g.out_edges

  unfoldable pub inward : Graph F → String → List Edge
  inward g id = list_at id g.in_edges

  unfoldable pub in_degree : Graph F → String → List String → ℕ
  unfolding inward degree
  in_degree g id kinds = degree (inward g id) kinds

  unfoldable pub out_degree : Graph F → String → List String → ℕ
  unfolding out degree
  out_degree g id kinds = degree (out g id) kinds

  -- The loop of `Neighbors`: `len(kinds) > 0 && !matches` skips an edge.
  unfoldable pub pick_nodes :
      Dict (Node F) → (Edge → String) → List String → List Edge → List (Node F)
  unfolding matches lookup
  pick_nodes nodes pick kinds [] = []
  pick_nodes nodes pick kinds (e ∷ edges) =
      let rest = pick_nodes nodes pick kinds edges in
      if ltb 0 (length kinds) && not (matches e.kind kinds)
      then rest
      else (elim (lookup (pick e) nodes) [ none ↦ rest | some n ↦ n ∷ rest ])

  unfoldable pub neighbors : Graph F → String → Direction → List String → List (Node F)
  unfolding pick_nodes out inward
  neighbors g id outbound kinds = pick_nodes g.nodes (λ e. e.to) kinds (out g id)
  neighbors g id inbound kinds = pick_nodes g.nodes (λ e. e.from) kinds (inward g id)

  unfoldable pub node_count : Graph F → ℕ
  node_count g = length g.nodes

  unfoldable pub resource_node_count : Graph F → Option ℕ
  unfolding walk container
  resource_node_count g = for_nodes g (λ n node. (if container node then n else n + 1, true)) 0

  -- The distinct projects of the leaf nodes, kept as the keys of a map.
  unfoldable pub projects_seen : Graph F → Option (Dict Bool)
  unfolding walk container insert
  projects_seen g =
      for_nodes g
        (λ seen n. (
          if not (container n) && not (str_eq n.project "")
              then insert n.project true seen
              else seen,
          true,
        ))
        []

  unfoldable pub project_count : Graph F → Option ℕ
  unfolding projects_seen
  project_count g = elim (projects_seen g) [ none ↦ none | some seen ↦ some (length seen) ]

  unfoldable pub project_container_count : Graph F → ℕ
  project_container_count g = length (list_at "project" g.by_kind)

  unfoldable pub subscription_container_count : Graph F → ℕ
  subscription_container_count g = length (list_at "subscription" g.by_kind)

  unfoldable pub edge_count : Graph F → ℕ
  unfolding edge_total
  edge_count g = edge_total g.out_edges
