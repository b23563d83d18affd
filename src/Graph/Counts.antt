-- ===== src/Graph/Counts.antt =====
-- The counters of a loaded graph against the edges of the snapshot.
use tellury.Base.{
  ◌+◌, String, Bool, true, ◌≡◌, refl, some, List, [], ◌∷◌, map, arith, any, filter, length, str_eq,
  fun_ext,
}
use tellury.Base.Dict.{Dict, map_values}
use tellury.Base.Sort.{length-sort}
use tellury.Graph.Node.{Edge, Node}
use tellury.Graph.Build.{Graph, empty, exists, freeze, edge_less}
use tellury.Graph.Query.{edge_total, edge_count}
use tellury.Graph.Snapshot.{Snapshot, load_snapshot, loaded}
use tellury.Graph.Prune.{missing_total, missing, pruned}
use tellury.Graph.Freeze.{freeze_lem}
use tellury.Graph.Load.{
  put_nodes, Named, put_nodes_frame, put_edges_frame, edge_total-put_edges, missing_out-put_edges,
  missing_in-put_edges,
}
use tellury.Graph.Loading.{of_lists, Valid, load_snapshot_lem, of_lists-frozen, of_lists-exists}

module _ (found : String → Bool) (endpoint : Edge → String) where
  length-pruned-add-missing :
      (edges : List Edge)
      → length (pruned found endpoint edges) + missing found endpoint edges ≡ length edges
  length-pruned-add-missing edges =
      rw (length-sort (edge_less endpoint) (filter (λ e. found (endpoint e)) edges)) (parts edges)
    where
      parts :
          (edges : List Edge)
          → length (filter (λ e. found (endpoint e)) edges) + missing found endpoint edges
            ≡ length edges
      parts [] = refl
      parts (e ∷ edges) = ground (arith, parts edges)

  edge_total-pruned :
      (m : Dict (List Edge))
      → edge_total (map_values (λ _ edges. pruned found endpoint edges) m)
          + missing_total found endpoint m
        ≡ edge_total m
  unfolding edge_total map_values missing_total
  edge_total-pruned [] = refl
  edge_total-pruned ((k, edges) ∷ m) =
      omega (arith, length-pruned-add-missing edges, edge_total-pruned m)

-- Whether a list of nodes has one of this id.
abbrev pub has_id : {F : Type 0} → List (Node F) → String → Bool
has_id ns id = any (λ n. str_eq n.id id) ns

module _ {F : Type 0} (ns : List (Node F)) (es : List Edge) where
  pub exists-of_lists : exists (of_lists ns es) ≡ has_id ns
  exists-of_lists = fun_ext (of_lists-exists ns es)

  missing-of_lists :
      (missing_total (exists (of_lists ns es)) (λ e. e.to) (of_lists ns es).out_edges
        ≡ missing (has_id ns) (λ e. e.to) es)
      × (missing_total (exists (of_lists ns es)) (λ e. e.from) (of_lists ns es).in_edges
          ≡ missing (has_id ns) (λ e. e.from) es)
  unfolding missing_total
  missing-of_lists = rw exists-of_lists (
    ground (
      arith,
      missing_out-put_edges (has_id ns) (put_nodes empty ns) es,
      put_nodes_frame empty ns,
    ),
    ground
        (arith, missing_in-put_edges (has_id ns) (put_nodes empty ns) es, put_nodes_frame empty ns),
  )

  pub edge_count-of_lists :
      edge_count (freeze (of_lists ns es)) + missing (has_id ns) (λ e. e.to) es ≡ length es
  unfolding edge_count edge_total
  edge_count-of_lists = rw (freeze_lem (of_lists ns es) (of_lists-frozen ns es)) (
      ground (
        arith,
        edge_total-pruned (exists (of_lists ns es)) (λ e. e.to) (of_lists ns es).out_edges,
        missing-of_lists,
        edge_total-put_edges (put_nodes empty ns) es,
        put_nodes_frame empty ns,
      ))

  pub dangling-of_lists :
      (freeze (of_lists ns es)).dangling
      ≡ missing (has_id ns) (λ e. e.to) es + missing (has_id ns) (λ e. e.from) es
  dangling-of_lists = rw (freeze_lem (of_lists ns es) (of_lists-frozen ns es)) (
      ground (
        arith,
        missing-of_lists,
        put_edges_frame (put_nodes empty ns) es,
        put_nodes_frame empty ns,
      ))

-- A snapshot whose nodes have ids and whose edges have no empty field loads, as a frozen graph. Its
-- `EdgeCount` counts the edges whose target is a node, also those whose origin is none. Its
-- `DanglingEdges` is the number of edges whose target is no node plus the number of those whose
-- origin is none, so that an edge that lacks both is counted twice.
pub load_snapshot_counts :
    {F : Type 0} (snap : Snapshot F) (ns : List (Node F))
    → snap.nodes ≡ map some ns
    → Named ns
    → Valid snap.edges
    → let to_nowhere = missing (has_id ns) (λ e. e.to) snap.edges in
      let from_nowhere = missing (has_id ns) (λ e. e.from) snap.edges in
      (h : Graph F) × (load_snapshot snap ≡ loaded h)
      × (h.frozen ≡ true)
      × (edge_count h + to_nowhere ≡ length snap.edges)
      × (h.dangling ≡ to_nowhere + from_nowhere)
load_snapshot_counts snap ns shape v u = (
  freeze (of_lists ns snap.edges),
  load_snapshot_lem snap ns shape v u,
  rw (freeze_lem (of_lists ns snap.edges) (of_lists-frozen ns snap.edges)) refl,
  edge_count-of_lists ns snap.edges,
  dangling-of_lists ns snap.edges,
)
