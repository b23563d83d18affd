-- ===== src/Graph/Reach.antt =====
-- The calls of the API as a step relation, and the graphs that they reach.
use tellury.Base.{String, Option}
use tellury.Graph.Node.{Edge, Node, MetricValue}
use tellury.Graph.Build.{Graph, empty, add_node, add_edge, set_metric, freeze, unfreeze}
use tellury.Graph.WellFormed.{
  IsWellFormed, empty-IsWellFormed, add_node-IsWellFormed, add_edge-IsWellFormed,
  set_metric-IsWellFormed,
}
use tellury.Graph.Sealed.{freeze-IsWellFormed, unfreeze-IsWellFormed}

module _ {F : Type 0} where
  -- A call, failed or not, and the graph that it leaves.
  pub data Step : Graph F → Graph F → Type 0 where
    adds_node : (g : Graph F) (n : Option (Node F)) → Step g (add_node g n).0
    adds_edge : (g : Graph F) (e : Edge) → Step g (add_edge g e).0
    sets_metric :
        (g : Graph F) (id key : String) (v : MetricValue F) → Step g (set_metric g id key v)
    freezes : (g : Graph F) → Step g (freeze g)
    unfreezes : (g : Graph F) → Step g (unfreeze g)

  pub data Reach : Graph F → Type 0 where
    new : Reach empty
    after : {g h : Graph F} → Reach g → Step g h → Reach h

  Step-IsWellFormed : {g h : Graph F} → Step g h → IsWellFormed g → IsWellFormed h
  Step-IsWellFormed (adds_node g n) w = add_node-IsWellFormed g n w
  Step-IsWellFormed (adds_edge g e) w = add_edge-IsWellFormed g e w
  Step-IsWellFormed (sets_metric g id key v) w = set_metric-IsWellFormed g id key v w
  Step-IsWellFormed (freezes g) w = freeze-IsWellFormed g w
  Step-IsWellFormed (unfreezes g) w = unfreeze-IsWellFormed g w

  -- Every graph that the calls of the API reach from an empty one is well formed: `order` lists
  -- the ids of the nodes exactly once, each node stands under its own id, which is not empty, the
  -- index by kind names nodes only and none twice under a kind, and the two edge indexes hold
  -- each edge under its own endpoints, none of the outbound ones with an empty field.
  pub Reach-IsWellFormed : {g : Graph F} → Reach g → IsWellFormed g
  Reach-IsWellFormed new = empty-IsWellFormed
  Reach-IsWellFormed (after r s) = Step-IsWellFormed s (Reach-IsWellFormed r)
