-- ===== src/Graph/Errors.antt =====
-- The calls that `AddNode` and `AddEdge` refuse.
use tellury.Base.{
  Bool, true, false, ◌≡◌, Option, none, some, arith, str_eq, if◌then◌else◌, ◌&&◌, not,
}
use tellury.Graph.Node.{Edge, Node}
use tellury.Graph.Build.{
  Graph, GraphError, add_node, add_edge, is_invalid, add_node_after_freeze, add_edge_after_freeze,
}

abbrev pub is_nil : Option GraphError → Bool
is_nil none = true
is_nil (some _) = false

abbrev pub has_name : {F : Type 0} → Option (Node F) → Bool
has_name none = false
has_name (some n) = not (str_eq n.id "")

abbrev pub says_frozen : Option GraphError → Bool
says_frozen (some add_node_after_freeze) = true
says_frozen (some add_edge_after_freeze) = true
says_frozen _ = false

module _ {F : Type 0} where
  -- `AddNode` and `AddEdge` return a nil error exactly on a graph that is not frozen and, in turn, for a
  -- node with an id and for an edge without an empty field. A call that is refused leaves the graph as
  -- it was, and the error says that the graph is frozen exactly if it is.
  pub refused_calls :
      (g : Graph F) (n : Option (Node F)) (e : Edge)
      → (is_nil (add_node g n).1 ≡ (not g.frozen && has_name n))
        × (is_nil (add_edge g e).1 ≡ (not g.frozen && not (is_invalid e)))
        × (g ≡ (if is_nil (add_node g n).1 then g else (add_node g n).0))
        × (g ≡ (if is_nil (add_edge g e).1 then g else (add_edge g e).0))
        × (says_frozen (add_node g n).1 ≡ g.frozen)
        × (says_frozen (add_edge g e).1 ≡ g.frozen)
  unfolding add_node add_edge
  refused_calls g none e =
      (ground arith, ground arith, ground arith, ground arith, ground arith, ground arith)
  refused_calls g (some n) e =
      (ground arith, ground arith, ground arith, ground arith, ground arith, ground arith)
