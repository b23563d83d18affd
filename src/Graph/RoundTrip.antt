-- ===== src/Graph/RoundTrip.antt =====
-- `WriteSnapshot` followed by `LoadSnapshot`.
mod Reread
use tellury.Base.{
  ℕ, ◌+◌, String, Bool, true, false, not, ◌≡◌, refl, sym, ap, ◌∙◌, Option, none, some, List, [],
  ◌∷◌, ◌++◌, map, arith, all, all-append, any, filter, filter-append, length, if◌then◌else◌, str_eq,
  eq_iff, str_eq_refl, fun_ext, ◌||◌, Option-cases, inl, inr,
}
use mathlib.Core.List.{append_assoc, append-nil}
use tellury.Base.Dict.{Dict, lookup, insert, list_at, has_key, lookup-insert}
use tellury.Base.Sort
use tellury.Base.Sort.{str_order, sort-sort}
use tellury.Base.Names.{contains, Distinct, sort_names, Distinct-snoc, contains-append}
use tellury.Graph.Node.{Edge, Node}
use tellury.Graph.Build.{Graph, empty, exists, freeze, put_node, is_invalid, add_node}
use tellury.Graph.Query.{out, inward, walk, node}
use tellury.Graph.Snapshot.{
  Snapshot, snapshot_version, write_snapshot, load_snapshot, loaded, edges_of,
}
use tellury.Graph.Prune.{pruned, pruned-pruned}
use tellury.Graph.Freeze.{freeze_lem, sealed}
use tellury.Graph.WellFormed.{IsWellFormed}
use tellury.Graph.Sealed.{nodes-freeze, out-freeze, freeze-IsWellFormed}
use tellury.Graph.Walk.{nodes_at, Present, visit, walk-visit, order-Present}
use tellury.Graph.Load.{put_nodes, put_edges, Named, put_edges_frame}
use tellury.Graph.Loading.{of_lists, Valid, load_snapshot_lem, of_lists-frozen, of_lists-out}
use tellury.Graph.RoundTrip.Reread.{
  visit_append, empty_fresh, pruned_if, lookup-put_nodes, order-put_nodes, nodes_at-Named,
  edges_of-Valid, filter-edges_of,
}

module _ {F : Type 0} (g : Graph F) (w : IsWellFormed g) (thawed : g.frozen ≡ false) where
  abbrev sealed_graph : Graph F
  sealed_graph = freeze g

  abbrev written : List (Node F)
  written = nodes_at (freeze g).nodes (freeze g).order

  abbrev edges : List Edge
  edges = edges_of (freeze g) (freeze g).order

  abbrev reread : Graph F
  reread = of_lists written edges

  frozen_w : IsWellFormed (freeze g)
  frozen_w = freeze-IsWellFormed g w

  present : Present (freeze g).nodes (freeze g).order
  present = order-Present (freeze g) frozen_w

  nodes-reread : (id : String) → lookup id reread.nodes ≡ lookup id (freeze g).nodes
  unfolding lookup
  nodes-reread id = ground (
    arith,
    put_edges_frame (put_nodes empty written) edges,
    lookup-put_nodes (freeze g) frozen_w empty id (freeze g).order present,
    frozen_w.order_complete id,
  )

  order-reread : reread.order ≡ (freeze g).order
  order-reread =
      (put_edges_frame (put_nodes empty written) edges).1
      ∙ order-put_nodes (freeze g) frozen_w empty (freeze g).order present frozen_w.order_distinct
          (empty_fresh F (freeze g).order)

  out-reread :
      (id : String) → out reread id ≡ (if exists (freeze g) id then out (freeze g) id else [])
  unfolding out
  out-reread id = ground (
    arith,
    of_lists-out written edges id,
    filter-edges_of (freeze g) frozen_w id (freeze g).order frozen_w.order_distinct,
    frozen_w.order_complete id,
  )

  sort-order : sort_names (freeze g).order ≡ (freeze g).order
  sort-order = rw (freeze_lem g thawed) (sort-sort str_order g.order)

  pruned-out :
      (id : String) → pruned (exists (freeze g)) (λ e. e.to) (out (freeze g) id) ≡ out (freeze g) id
  pruned-out id =
      rw (out-freeze g id thawed, nodes-freeze g thawed)
        (pruned-pruned (exists g) (λ e. e.to) (out g id))

  exists-reread : exists reread ≡ exists (freeze g)
  exists-reread = fun_ext (λ id. ground (arith, nodes-reread id))

  node-thawed : (id : String) → node (freeze reread) id ≡ node (freeze g) id
  unfolding node
  node-thawed id = rw (nodes-freeze reread (of_lists-frozen written edges)) (nodes-reread id)

  order-freeze-reread : (freeze reread).order ≡ (freeze g).order
  order-freeze-reread =
      rw (freeze_lem reread (of_lists-frozen written edges))
        (ap sort_names order-reread ∙ sort-order)

  out-freeze-reread :
      (id : String)
      → out (freeze reread) id ≡ (if exists (freeze g) id then out (freeze g) id else [])
  out-freeze-reread id =
      out-freeze reread id (of_lists-frozen written edges)
      ∙ rw (exists-reread, out-reread id)
          (pruned_if (exists (freeze g)) (exists (freeze g) id) (out (freeze g) id) (pruned-out id))

  -- A well-formed graph that is not frozen is frozen and written without a panic, and what is
  -- written loads: as a graph with the same node at every id, the same order of ids and, at every
  -- id that is a node, the same edges out of it. Edges out of an id that is no node are lost.
  pub load-write_snapshot :
      (provider scope : String) (now : ℕ)
      → (snap : Snapshot F) × (h : Graph F) × (write_snapshot g provider scope now
          ≡ (freeze g, some snap))
        × (load_snapshot snap ≡ loaded h)
        × ((id : String) → node h id ≡ node (freeze g) id)
        × (h.order ≡ (freeze g).order)
        × ((id : String) → out h id ≡ (if exists (freeze g) id then out (freeze g) id else []))
  unfolding write_snapshot
  load-write_snapshot provider scope now = (
    record {
      version = snapshot_version;
      provider = provider;
      scope = scope;
      captured_at = now;
      nodes = map some written;
      edges = edges;
    },
    freeze reread,
    ground (
      arith,
      walk-visit (λ ns n. (ns ++ some n ∷ [], true)) (freeze g).nodes (freeze g).order [] present,
      visit_append written [],
    ),
    load_snapshot_lem _ written refl (nodes_at-Named (freeze g) frozen_w (freeze g).order)
        (edges_of-Valid (freeze g) frozen_w (freeze g).order),
    node-thawed,
    order-freeze-reread,
    out-freeze-reread,
  )
