-- ===== src/Graph/Loading.antt =====
-- What `LoadSnapshot` makes of a snapshot.
use tellury.Base.{
  String, Bool, true, false, not, ◌≡◌, refl, ◌∙◌, Option, none, some, List, [], ◌∷◌, map, arith,
  all, any, filter, str_eq, ◌&&◌,
}
use tellury.Base.Dict.{lookup, list_at, get_or}
use tellury.Graph.Node.{Edge, Node}
use tellury.Graph.Build.{
  Graph, is_invalid, empty, put_node, put_edge, add_node, add_edge, exists, freeze,
}
use tellury.Graph.Snapshot.{Snapshot, load_nodes, load_edges, load_snapshot, loaded, failed, Loaded}
use tellury.Graph.Load.{
  put_nodes, put_edges, load_nodes_lem, load_edges_lem, Named, put_nodes_frame, put_edges_frame,
  exists-put_nodes, out-put_edges, in-put_edges,
}

abbrev pub named : {F : Type 0} → Option (Node F) → Bool
named none = false
named (some n) = not (str_eq n.id "")

abbrev pub is_loaded : {F : Type 0} → Loaded F → Bool
is_loaded (loaded g) = true
is_loaded (failed e) = false

-- No edge has an empty field.
abbrev pub Valid : List Edge → Type 0
Valid es = all (λ e. not (is_invalid e)) es ≡ true

module _ {F : Type 0} where
  is_loaded-load_edges :
      (g : Graph F) (es : List Edge)
      → g.frozen ≡ false
      → is_loaded (load_edges g es) ≡ all (λ e. not (is_invalid e)) es
  unfolding load_edges add_edge put_edge
  is_loaded-load_edges g [] h = refl
  is_loaded-load_edges g (e ∷ es) h = ground (arith, is_loaded-load_edges (put_edge g e) es)

  -- Both loops of the loader, as one.
  load_both : Graph F → List (Option (Node F)) → List Edge → Loaded F
  load_both g ns es = elim (load_nodes g ns) [ failed e ↦ failed e | loaded h ↦ load_edges h es ]

  is_loaded-load_both :
      (g : Graph F) (ns : List (Option (Node F))) (es : List Edge)
      → g.frozen ≡ false
      → is_loaded (load_both g ns es) ≡ (all named ns && all (λ e. not (is_invalid e)) es)
  unfolding load_both load_nodes add_node put_node
  is_loaded-load_both g [] es h = is_loaded-load_edges g es h
  is_loaded-load_both g (none ∷ ns) es h = ground arith
  is_loaded-load_both g (some n ∷ ns) es h =
      ground (arith, is_loaded-load_both (put_node g n) ns es)

  -- `LoadSnapshot` succeeds on exactly the snapshots in which every node is there and has an id and
  -- no edge has an empty field.
  pub is_loaded-load_snapshot :
      (snap : Snapshot F)
      → is_loaded (load_snapshot snap)
        ≡ (all named snap.nodes && all (λ e. not (is_invalid e)) snap.edges)
  unfolding load_snapshot load_both
  is_loaded-load_snapshot snap =
      ground (arith, is_loaded-load_both empty snap.nodes snap.edges refl)

  -- A snapshot that the loader accepts.
  abbrev pub of_lists : List (Node F) → List Edge → Graph F
  of_lists ns es = put_edges (put_nodes empty ns) es

  pub load_snapshot_lem :
      (snap : Snapshot F) (ns : List (Node F))
      → snap.nodes ≡ map some ns
      → Named ns
      → Valid snap.edges
      → load_snapshot snap ≡ loaded (freeze (of_lists ns snap.edges))
  unfolding load_snapshot
  load_snapshot_lem snap ns shape v u = ground (
    arith,
    load_nodes_lem empty ns,
    load_edges_lem (put_nodes empty ns) snap.edges,
    put_nodes_frame empty ns,
  )

  pub of_lists-frozen : (ns : List (Node F)) (es : List Edge) → (of_lists ns es).frozen ≡ false
  of_lists-frozen ns es = (put_edges_frame (put_nodes empty ns) es).3 ∙ (put_nodes_frame empty ns).2

  pub of_lists-exists :
      (ns : List (Node F)) (es : List Edge) (id : String)
      → exists (of_lists ns es) id ≡ any (λ n. str_eq n.id id) ns
  unfolding lookup
  of_lists-exists ns es id =
      rw ((put_edges_frame (put_nodes empty ns) es).0) (exists-put_nodes empty id ns)

  pub of_lists-out :
      (ns : List (Node F)) (es : List Edge) (id : String)
      → list_at id (of_lists ns es).out_edges ≡ filter (λ e. str_eq e.from id) es
  unfolding lookup get_or
  of_lists-out ns es id =
      rw (out-put_edges (put_nodes empty ns) id es, (put_nodes_frame empty ns).0) refl

  pub of_lists-inward :
      (ns : List (Node F)) (es : List Edge) (id : String)
      → list_at id (of_lists ns es).in_edges ≡ filter (λ e. str_eq e.to id) es
  unfolding lookup get_or
  of_lists-inward ns es id =
      rw (in-put_edges (put_nodes empty ns) id es, (put_nodes_frame empty ns).1) refl
