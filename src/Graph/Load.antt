-- ===== src/Graph/Load.antt =====
-- The two loops of `LoadSnapshot`, on nodes and edges that `AddNode` and `AddEdge` accept.
use tellury.Base.{
  ◌+◌, String, Bool, true, false, not, ◌≡◌, refl, sym, some, List, [], ◌∷◌, ◌++◌, map, arith, all,
  any, filter, filter-append, length, length-append, if◌then◌else◌, str_eq, ◌||◌,
}
use mathlib.Core.List.{append-nil, append_assoc}
use tellury.Base.Dict.{Dict, insert, push, list_at, list_at-push, get_or, lookup-insert}
use tellury.Graph.Node.{Edge, Node}
use tellury.Graph.Build.{Graph, is_invalid, put_node, put_edge, add_node, add_edge, exists}
use tellury.Graph.Query.{edge_total}
use tellury.Graph.Snapshot.{load_nodes, load_edges, loaded}
use tellury.Graph.Prune.{missing_total, missing}

module _ (found : String → Bool) (endpoint : Edge → String) where
  -- One more edge under any key is one more edge, missing or not.
  missing_total-push :
      (k : String) (e : Edge) (m : Dict (List Edge))
      → missing_total found endpoint (push k e m)
        ≡ missing_total found endpoint m + (if found (endpoint e) then 0 else 1)
  unfolding missing_total push insert get_or
  missing_total-push k e [] = ground arith
  missing_total-push k e ((j, es) ∷ m) = ground (
    arith,
    missing_total-push k e m,
    filter-append (λ e'. not (found (endpoint e'))) es (e ∷ []),
    length-append (filter (λ e'. not (found (endpoint e'))) es)
        (filter (λ e'. not (found (endpoint e'))) (e ∷ [])),
  )

edge_total-push :
    (k : String) (e : Edge) (m : Dict (List Edge)) → edge_total (push k e m) ≡ edge_total m + 1
unfolding edge_total push insert get_or
edge_total-push k e [] = refl
edge_total-push k e ((j, es) ∷ m) = ground (arith, edge_total-push k e m, length-append es (e ∷ []))

module _ {F : Type 0} where
  unfoldable pub put_nodes : Graph F → List (Node F) → Graph F
  put_nodes g [] = g
  put_nodes g (n ∷ ns) = put_nodes (put_node g n) ns

  unfoldable pub put_edges : Graph F → List Edge → Graph F
  put_edges g [] = g
  put_edges g (e ∷ es) = put_edges (put_edge g e) es

  -- Nothing but the edge indexes changes.
  abbrev SameNodes : Graph F → Graph F → Type 0
  SameNodes g h =
      (h.nodes ≡ g.nodes)
      × (h.order ≡ g.order)
      × (h.by_kind ≡ g.by_kind)
      × (h.frozen ≡ g.frozen)
      × (h.dangling ≡ g.dangling)

  pub put_edges_frame : (g : Graph F) (es : List Edge) → SameNodes g (put_edges g es)
  unfolding put_edges put_edge
  put_edges_frame g [] = (refl, refl, refl, refl, refl)
  put_edges_frame g (e ∷ es) = put_edges_frame (put_edge g e) es

  pub out-put_edges :
      (g : Graph F) (k : String) (es : List Edge)
      → list_at k (put_edges g es).out_edges
        ≡ list_at k g.out_edges ++ filter (λ e. str_eq e.from k) es
  unfolding put_edges put_edge
  out-put_edges g k [] = sym (append-nil _)
  out-put_edges g k (e ∷ es) = ground (
    arith,
    out-put_edges (put_edge g e) k es,
    list_at-push k e.from e g.out_edges,
    append_assoc (list_at k g.out_edges) (e ∷ []) (filter (λ e'. str_eq e'.from k) es),
  )

  pub load_edges_lem :
      (g : Graph F) (es : List Edge)
      → g.frozen ≡ false
      → all (λ e. not (is_invalid e)) es ≡ true
      → load_edges g es ≡ loaded (put_edges g es)
  unfolding load_edges put_edges add_edge put_edge
  load_edges_lem g [] h v = refl
  load_edges_lem g (e ∷ es) h v = ground (arith, load_edges_lem (put_edge g e) es)

  pub in-put_edges :
      (g : Graph F) (k : String) (es : List Edge)
      → list_at k (put_edges g es).in_edges ≡ list_at k g.in_edges ++ filter (λ e. str_eq e.to k) es
  unfolding put_edges put_edge
  in-put_edges g k [] = sym (append-nil _)
  in-put_edges g k (e ∷ es) = ground (
    arith,
    in-put_edges (put_edge g e) k es,
    list_at-push k e.to e g.in_edges,
    append_assoc (list_at k g.in_edges) (e ∷ []) (filter (λ e'. str_eq e'.to k) es),
  )

  pub edge_total-put_edges :
      (g : Graph F) (es : List Edge)
      → edge_total (put_edges g es).out_edges ≡ edge_total g.out_edges + length es
  unfolding put_edges put_edge
  edge_total-put_edges g [] = omega arith
  edge_total-put_edges g (e ∷ es) =
      omega (arith, edge_total-put_edges (put_edge g e) es, edge_total-push e.from e g.out_edges)

  pub missing_out-put_edges :
      (found : String → Bool) (g : Graph F) (es : List Edge)
      → missing_total found (λ e. e.to) (put_edges g es).out_edges
        ≡ missing_total found (λ e. e.to) g.out_edges + missing found (λ e. e.to) es
  unfolding put_edges put_edge
  missing_out-put_edges found g [] = omega arith
  missing_out-put_edges found g (e ∷ es) = ground (
    arith,
    missing_out-put_edges found (put_edge g e) es,
    missing_total-push found (λ e'. e'.to) e.from e g.out_edges,
  )

  pub missing_in-put_edges :
      (found : String → Bool) (g : Graph F) (es : List Edge)
      → missing_total found (λ e. e.from) (put_edges g es).in_edges
        ≡ missing_total found (λ e. e.from) g.in_edges + missing found (λ e. e.from) es
  unfolding put_edges put_edge
  missing_in-put_edges found g [] = omega arith
  missing_in-put_edges found g (e ∷ es) = ground (
    arith,
    missing_in-put_edges found (put_edge g e) es,
    missing_total-push found (λ e'. e'.from) e.to e g.in_edges,
  )

  -- The nodes have ids.
  abbrev pub Named : List (Node F) → Type 0
  Named ns = all (λ n. not (str_eq n.id "")) ns ≡ true

  pub load_nodes_lem :
      (g : Graph F) (ns : List (Node F))
      → g.frozen ≡ false
      → Named ns
      → load_nodes g (map some ns) ≡ loaded (put_nodes g ns)
  unfolding load_nodes put_nodes add_node put_node
  load_nodes_lem g [] h v = refl
  load_nodes_lem g (n ∷ ns) h v = ground (arith, load_nodes_lem (put_node g n) ns)

  pub put_nodes_frame :
      (g : Graph F) (ns : List (Node F))
      → ((put_nodes g ns).out_edges ≡ g.out_edges)
        × ((put_nodes g ns).in_edges ≡ g.in_edges)
        × ((put_nodes g ns).frozen ≡ g.frozen)
        × ((put_nodes g ns).dangling ≡ g.dangling)
  unfolding put_nodes put_node
  put_nodes_frame g [] = (refl, refl, refl, refl)
  put_nodes_frame g (n ∷ ns) = put_nodes_frame (put_node g n) ns

  pub exists-put_nodes :
      (g : Graph F) (id : String) (ns : List (Node F))
      → exists (put_nodes g ns) id ≡ (exists g id || any (λ n. str_eq n.id id) ns)
  unfolding put_nodes put_node
  exists-put_nodes g id [] = ground arith
  exists-put_nodes g id (n ∷ ns) =
      ground (arith, exists-put_nodes (put_node g n) id ns, lookup-insert id n.id n g.nodes)
