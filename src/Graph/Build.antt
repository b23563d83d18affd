-- ===== src/Graph/Build.antt =====
-- pkg/graph/graph.go: the graph and the operations that change it. A node is held by value: a
-- write through a `*Node` that the graph shares is a write to the entry of `nodes`. The mutex of
-- `SetMetric` is the atomicity of `set_metric`.
use tellury.Base.{
  ℕ, ◌+◌, String, Bool, true, false, ◌||◌, Option, none, some, List, [], ◌∷◌, ◌++◌, str_eq, str_ltb,
  if◌then◌else◌,
}
use tellury.Base.Sort
use tellury.Base.Dict.{Dict, lookup, insert, has_key, push, map_values}
use tellury.Base.Names.{sort_names}
use tellury.Graph.Node.{Edge, Node, MetricValue}

pub record Graph (F : Type 0) : Type 0 where
  pub nodes : Dict (Node F)
  pub out_edges : Dict (List Edge)
  pub in_edges : Dict (List Edge)
  pub by_kind : Dict (List String)
  pub order : List String
  pub frozen : Bool
  pub dangling : ℕ

pub data GraphError : Type 0 where
  add_node_after_freeze empty_node_id add_edge_after_freeze : GraphError
  invalid_edge : Edge → GraphError

-- Both calls return a nil error as `none`.
abbrev pub Outcome : Type 0 → Type 0
Outcome F = Graph F × Option GraphError

abbrev pub is_invalid : Edge → Bool
is_invalid e = str_eq e.from "" || str_eq e.to "" || str_eq e.kind ""

unfoldable pub edge_less : (Edge → String) → Edge → Edge → Bool
edge_less endpoint a b =
    if str_eq a.kind b.kind then str_ltb (endpoint a) (endpoint b) else str_ltb a.kind b.kind

-- The inner loop of `prune`: the edges whose endpoint is a node, and the count of the others.
unfoldable pub keep_edges : (String → Bool) → (Edge → String) → List Edge → ℕ → List Edge × ℕ
keep_edges exists endpoint [] dangling = ([], dangling)
keep_edges exists endpoint (e ∷ edges) dangling =
    let here = exists (endpoint e) in
    let (kept, dangling') =
      keep_edges exists endpoint edges (if here then dangling else dangling + 1) in
    (if here then e ∷ kept else kept, dangling')

-- The closure `prune` of `Freeze`, over the entries of an edge index.
unfoldable pub prune :
    (String → Bool) → (Edge → String) → Dict (List Edge) → ℕ → Dict (List Edge) × ℕ
unfolding keep_edges
prune exists endpoint [] dangling = ([], dangling)
prune exists endpoint ((k, edges) ∷ m) dangling =
    let (kept, dangling') = keep_edges exists endpoint edges dangling in
    let (m', dangling'') = prune exists endpoint m dangling' in
    ((k, Sort.sort (edge_less endpoint) kept) ∷ m', dangling'')

module _ {F : Type 0} where
  abbrev pub empty : Graph F
  empty = record {
    nodes = [];
    out_edges = [];
    in_edges = [];
    by_kind = [];
    order = [];
    frozen = false;
    dangling = 0;
  }

  abbrev pub exists : Graph F → String → Bool
  exists g id = has_key id g.nodes

  unfoldable pub put_node : Graph F → Node F → Graph F
  put_node g n = record g {
    nodes = insert n.id n g.nodes;
    by_kind = if exists g n.id then g.by_kind else push n.kind n.id g.by_kind;
    order = if exists g n.id then g.order else g.order ++ n.id ∷ [];
  }

  -- A nil node is `none`.
  unfoldable pub add_node : Graph F → Option (Node F) → Outcome F
  add_node g none = (g, some (if g.frozen then add_node_after_freeze else empty_node_id))
  add_node g (some n) =
      if g.frozen
      then (g, some add_node_after_freeze)
      else if str_eq n.id ""
      then (g, some empty_node_id)
      else (put_node g n, none)

  unfoldable pub put_edge : Graph F → Edge → Graph F
  put_edge g e = record g {
    out_edges = push e.from e g.out_edges;
    in_edges = push e.to e g.in_edges;
  }

  unfoldable pub add_edge : Graph F → Edge → Outcome F
  add_edge g e =
      if g.frozen
      then (g, some add_edge_after_freeze)
      else if is_invalid e
      then (g, some (invalid_edge e))
      else (put_edge g e, none)

  unfoldable pub set_metric : Graph F → String → String → MetricValue F → Graph F
  set_metric g id key v = elim (lookup id g.nodes) [
    | none ↦ g
    | some n ↦ record g {
      nodes = insert id (record n { metrics = insert key v n.metrics }) g.nodes;
    }
  ]

  -- `Freeze` of a graph that is not frozen.
  unfoldable pub seal : Graph F → Graph F
  seal g =
      let (out, dangling) = prune (exists g) (λ e. e.to) g.out_edges g.dangling in
      let (inward, dangling') = prune (exists g) (λ e. e.from) g.in_edges dangling in
      record g {
        out_edges = out;
        in_edges = inward;
        by_kind = map_values (λ _ ids. sort_names ids) g.by_kind;
        order = sort_names g.order;
        frozen = true;
        dangling = dangling';
      }

  unfoldable pub freeze : Graph F → Graph F
  freeze g = if g.frozen then g else seal g

  unfoldable pub unfreeze : Graph F → Graph F
  unfreeze g = record g { frozen = false }
