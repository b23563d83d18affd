-- ===== src/Graph/Walk.antt =====
-- Iteration over a well-formed graph: no callback meets a nil node, and the counters count.
use tellury.Base.{
  Every, if_ind, ℕ, ◌+◌, String, Bool, true, false, ◌≡◌, refl, sym, ap, ◌∙◌, none, some, List, [],
  ◌∷◌, arith, str_eq_refl, all, filter, length, ltb, any, if◌then◌else◌, Option-cases, inl, inr,
}
use tellury.Base.Dict.{Dict, lookup, list_at, has_key}
use tellury.Base.Names.{contains}
use tellury.Graph.Node.{Node, container}
use tellury.Graph.Build.{Graph, exists}
use tellury.Graph.Query.{walk, resource_node_count, has_metric, node_count}
use native.Mathlib.Nat.{zero-add}
use tellury.Graph.WellFormed.{IsWellFormed}
use tellury.Graph.Reach.{Reach, Reach-IsWellFormed}

-- The nodes of a list of ids.
module _ {F : Type 0} (nodes : Dict (Node F)) where
  unfoldable pub nodes_at : List String → List (Node F)
  nodes_at [] = []
  nodes_at (id ∷ ids) =
      let rest = nodes_at ids in elim (lookup id nodes) [ none ↦ rest | some n ↦ n ∷ rest ]

  abbrev pub Present : List String → Type 0
  Present ids = all (λ id. has_key id nodes) ids ≡ true

  pub length-nodes_at : (ids : List String) → Present ids → length (nodes_at ids) ≡ length ids
  unfolding nodes_at
  length-nodes_at [] h = refl
  length-nodes_at (id ∷ ids) h = ground (arith, length-nodes_at ids)

-- What a walk computes when every id has its node.
module _ {F S : Type 0} (fn : S → Node F → S × Bool) where
  unfoldable pub visit : List (Node F) → S → S
  visit [] s = s
  visit (n ∷ ns) s = let (s', more) = fn s n in let rest = visit ns s' in if more then rest else s'

  pub walk-visit :
      (nodes : Dict (Node F)) (ids : List String) (s : S)
      → Present nodes ids
      → walk nodes fn ids s ≡ some (visit (nodes_at nodes ids) s)
  unfolding walk visit nodes_at
  walk-visit nodes [] s h = refl
  walk-visit nodes (id ∷ ids) s h = elim (Option-cases (lookup id nodes)) [
    | inl absent ↦ ground arith
    | inr (n, found) ↦ ground (arith, walk-visit nodes ids (fn s n).0)
  ]

  -- What every call of the callback keeps.
  pub visit_ind :
      (P : S → Type 0) (Q : Node F → Type 0)
      → ((s : S) (n : Node F) → Q n → P s → P (fn s n).0)
      → (ns : List (Node F)) (s : S) → Every Q ns
      → P s
      → P (visit ns s)
  unfolding visit
  visit_ind P Q keep [] s q h = h
  visit_ind P Q keep (n ∷ ns) s (qn, q) h =
      if_ind P (fn s n).1 (λ _. visit_ind P Q keep ns (fn s n).0 q (keep s n qn h))
        (λ _. keep s n qn h)

all_of_contains :
    (p : String → Bool) (ids : List String)
    → ((id : String) → contains id ids ≡ true → p id ≡ true)
    → all p ids ≡ true
all_of_contains p [] h = refl
all_of_contains p (id ∷ ids) h =
    let here = h id (ground (arith, str_eq_refl id)) in
    let rest = all_of_contains p ids (λ j m. h j (ground arith)) in ground arith

module _ {F : Type 0} (g : Graph F) (w : IsWellFormed g) where
  -- `Nodes` and `ByKind` hand their callback a node at every id.
  pub order-Present : Present g.nodes g.order
  order-Present = all_of_contains (exists g) g.order (λ id h. sym (w.order_complete id) ∙ h)

  pub by_kind-Present : (k : String) → Present g.nodes (list_at k g.by_kind)
  by_kind-Present k = all_of_contains (exists g) (list_at k g.by_kind) (w.indexed k)

  -- A node that a walk visits stands in the graph under its id.
  pub nodes_at-Every :
      (ids : List String) → Every (λ n. lookup n.id g.nodes ≡ some n) (nodes_at g.nodes ids)
  unfolding nodes_at
  nodes_at-Every [] = tt
  nodes_at-Every (id ∷ ids) = elim (Option-cases (lookup id g.nodes)) [
    | inl absent ↦ rw (absent, Every) (nodes_at-Every ids)
    | inr (n, found) ↦
        rw (found, Every)
          (ap (λ j. lookup j g.nodes) (w.keyed id n found) ∙ found, nodes_at-Every ids)
  ]

  -- `order` is as long as the map of nodes.
  length-nodes : length (nodes_at g.nodes g.order) ≡ node_count g
  unfolding node_count
  length-nodes = length-nodes_at g.nodes g.order order-Present ∙ w.order_length

visit_count :
    {F : Type 0} (ns : List (Node F)) (k : ℕ)
    → visit (λ n node. (if container node then n else n + 1, true)) ns k
        + length (filter container ns)
      ≡ k + length ns
unfolding visit
visit_count [] k = refl
visit_count (n ∷ ns) k = ground (arith, visit_count ns k, visit_count ns (k + 1))

abbrev pub usable : {F : Type 0} → String → Node F → Bool
usable key n = elim (lookup key n.metrics) [ none ↦ false | some m ↦ ltb 0 m.samples ]

visit_metric :
    {F : Type 0} (key : String) (ns : List (Node F))
    → visit
        (λ found n. elim (lookup key n.metrics) [
          | none ↦ (found, true)
          | some m ↦ if ltb 0 m.samples then (true, false) else (found, true)
        ])
        ns
        false
      ≡ any (usable key) ns
unfolding visit
visit_metric key [] = refl
visit_metric key (n ∷ ns) = ground (arith, visit_metric key ns)

module _ {F : Type 0} {g : Graph F} (r : Reach g) where
  -- On a graph that the API reaches, `ResourceNodeCount` meets no nil node, and its result and the
  -- number of container nodes add up to `NodeCount`.
  pub resource_node_count-Reach :
      (n : ℕ) × (resource_node_count g ≡ some n)
      × (n + length (filter container (nodes_at g.nodes g.order)) ≡ node_count g)
  unfolding resource_node_count
  resource_node_count-Reach =
      let w = Reach-IsWellFormed r in
      (
        _,
        walk-visit _ g.nodes g.order 0 (order-Present g w),
        visit_count (nodes_at g.nodes g.order) 0 ∙ rw zero-add (length-nodes g w),
      )

  -- On a graph that the API reaches, `HasMetric` meets no nil node, and tells whether some node
  -- holds the metric with at least one sample.
  pub has_metric-Reach :
      (key : String) → has_metric g key ≡ some (any (usable key) (nodes_at g.nodes g.order))
  unfolding has_metric
  has_metric-Reach key =
      walk-visit _ g.nodes g.order false (order-Present g (Reach-IsWellFormed r))
      ∙ ap some (visit_metric key (nodes_at g.nodes g.order))
