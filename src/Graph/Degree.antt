-- ===== src/Graph/Degree.antt =====
-- `Neighbors` against `InDegree` and `OutDegree`.
use tellury.Base.{
  ℕ, String, Bool, true, false, ◌≡◌, refl, ◌∙◌, List, [], ◌∷◌, arith, all, filter, length,
  all-filter,
}
use tellury.Base.Dict.{Dict, has_key}
use tellury.Base.Sort.{all-sort}
use tellury.Graph.Node.{Edge, Node}
use tellury.Graph.Build.{Graph, exists, freeze, edge_less}
use tellury.Graph.Query.{
  Direction, outbound, inbound, degree, pick_nodes, neighbors, in_degree, out_degree, out, inward,
}
use tellury.Graph.Prune.{pruned}
use tellury.Graph.Sealed.{nodes-freeze, out-freeze, inward-freeze}

module _ {F : Type 0} (nodes : Dict (Node F)) (pick : Edge → String) where
  length-pick_nodes :
      (kinds : List String) (edges : List Edge)
      → all (λ e. has_key (pick e) nodes) edges ≡ true
      → length (pick_nodes nodes pick kinds edges) ≡ degree edges kinds
  unfolding pick_nodes degree
  length-pick_nodes [] [] h = refl
  length-pick_nodes (k ∷ kinds) [] h = refl
  length-pick_nodes [] (e ∷ edges) h = ground (arith, length-pick_nodes [] edges)
  length-pick_nodes (k ∷ kinds) (e ∷ edges) h = ground (arith, length-pick_nodes (k ∷ kinds) edges)

abbrev pub degree_of : {F : Type 0} → Graph F → String → Direction → List String → ℕ
degree_of g id outbound kinds = out_degree g id kinds
degree_of g id inbound kinds = in_degree g id kinds

all_kept :
    (found : String → Bool) (endpoint : Edge → String) (edges : List Edge)
    → all (λ e. found (endpoint e)) (pruned found endpoint edges) ≡ true
all_kept found endpoint edges =
    all-sort (edge_less endpoint) _ (filter (λ e. found (endpoint e)) edges) ∙ all-filter _ edges

module _ {F : Type 0} where
  -- Once a graph that was not frozen is frozen, `Neighbors` returns as many nodes as the degree in that direction
  -- counts edges, for every id and every choice of edge kinds.
  pub length-neighbors_frozen :
      (g : Graph F) (id : String) (dir : Direction) (kinds : List String)
      → g.frozen ≡ false
      → length (neighbors (freeze g) id dir kinds) ≡ degree_of (freeze g) id dir kinds
  unfolding neighbors in_degree out_degree
  length-neighbors_frozen g id outbound kinds h =
      length-pick_nodes (freeze g).nodes (λ e. e.to) kinds (out (freeze g) id)
        (rw (nodes-freeze g h, out-freeze g id h) (all_kept (exists g) (λ e. e.to) (out g id)))
  length-neighbors_frozen g id inbound kinds h =
      length-pick_nodes (freeze g).nodes (λ e. e.from) kinds (inward (freeze g) id)
        (rw (nodes-freeze g h, inward-freeze g id h)
          (all_kept (exists g) (λ e. e.from) (inward g id)))
