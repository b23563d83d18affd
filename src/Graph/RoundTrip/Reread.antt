-- ===== src/Graph/RoundTrip/Reread.antt =====
-- The lists that `WriteSnapshot` writes, read back by the loader.
use tellury.Base.{
  String, Bool, true, false, not, ◌≡◌, refl, sym, ◌∙◌, Option, some, List, [], ◌∷◌, ◌++◌, map,
  arith, all, all-append, filter, filter-append, if◌then◌else◌, str_eq, eq_iff, Option-cases, inl,
  inr,
}
use mathlib.Core.List.{append_assoc, append-nil}
use tellury.Base.Dict.{lookup, list_at, lookup-insert}
use tellury.Base.Sort
use tellury.Base.Sort.{str_order, sort-sort}
use tellury.Base.Names.{contains, Distinct}
use tellury.Graph.Node.{Edge, Node}
use tellury.Graph.Build.{Graph, empty, exists, put_node, is_invalid}
use tellury.Graph.Query.{out}
use tellury.Graph.Snapshot.{edges_of}
use tellury.Graph.Prune.{pruned}
use tellury.Graph.WellFormed.{IsWellFormed}
use tellury.Graph.Walk.{nodes_at, Present, visit}
use tellury.Graph.Load.{put_nodes, Named}
use tellury.Graph.Loading.{Valid}

pub visit_append :
    {F : Type 0} (ns : List (Node F)) (acc : List (Option (Node F)))
    → visit (λ ns' n. (ns' ++ some n ∷ [], true)) ns acc ≡ acc ++ map some ns
unfolding visit
visit_append [] acc = sym (append-nil acc)
visit_append (n ∷ ns) acc =
    visit_append ns (acc ++ some n ∷ []) ∙ append_assoc acc (some n ∷ []) (map some ns)

-- Of the edges out of `j`, those out of `id`.
filter-out :
    (id j : String) (es : List Edge)
    → all (λ e. str_eq e.from j) es ≡ true
    → filter (λ e. str_eq e.from id) es ≡ (if str_eq j id then es else [])
filter-out id j [] h = ground arith
filter-out id j (e ∷ es) h =
    ground (arith, eq_iff e.from j, eq_iff e.from id, eq_iff j id, filter-out id j es)

pub empty_fresh :
    (F : Type 0) (ids : List String) → all (λ id. not (exists (empty {F = F}) id)) ids ≡ true
unfolding lookup
empty_fresh F [] = refl
empty_fresh F (id ∷ ids) = empty_fresh F ids

pub pruned_if :
    (found : String → Bool) (b : Bool) (es : List Edge)
    → pruned found (λ e. e.to) es ≡ es
    → pruned found (λ e. e.to) (if b then es else []) ≡ (if b then es else [])
unfolding Sort.sort
pruned_if found true es h = h
pruned_if found false es h = refl

still_fresh :
    {F : Type 0} (h : Graph F) (n : Node F) (ids : List String)
    → contains n.id ids ≡ false
    → all (λ id. not (exists h id)) ids ≡ true
    → all (λ id. not (exists (put_node h n) id)) ids ≡ true
unfolding put_node
still_fresh h n [] a b = refl
still_fresh h n (j ∷ ids) a b =
    ground
      (arith, eq_iff n.id j, eq_iff j n.id, lookup-insert j n.id n h.nodes, still_fresh h n ids)

module _ {F : Type 0} (g : Graph F) (w : IsWellFormed g) where
  -- The ids of a list, read back through the nodes.
  pub lookup-put_nodes :
      (h : Graph F) (id : String) (ids : List String)
      → Present g.nodes ids
      → lookup id (put_nodes h (nodes_at g.nodes ids)).nodes
        ≡ (if contains id ids then lookup id g.nodes else lookup id h.nodes)
  unfolding put_nodes nodes_at put_node
  lookup-put_nodes h id [] p = refl
  lookup-put_nodes h id (j ∷ ids) p = elim (Option-cases (lookup j g.nodes)) [
    | inl absent ↦ ground arith
    | inr (n, found) ↦ ground (
      arith,
      w.keyed j n,
      eq_iff j id,
      eq_iff n.id id,
      lookup-put_nodes (put_node h n) id ids,
      lookup-insert id n.id n h.nodes,
    )
  ]

  pub order-put_nodes :
      (h : Graph F) (ids : List String)
      → Present g.nodes ids
      → Distinct ids
      → all (λ id. not (exists h id)) ids ≡ true
      → (put_nodes h (nodes_at g.nodes ids)).order ≡ h.order ++ ids
  unfolding put_nodes nodes_at put_node
  order-put_nodes h [] p d fresh = sym (append-nil h.order)
  order-put_nodes h (j ∷ ids) p d fresh = elim (Option-cases (lookup j g.nodes)) [
    | inl absent ↦ ground arith
    | inr (n, found) ↦ ground (
      arith,
      w.keyed j n found,
      order-put_nodes (put_node h n) ids,
      still_fresh h n ids,
      append_assoc h.order (j ∷ []) ids,
    )
  ]

  pub nodes_at-Named : (ids : List String) → Named (nodes_at g.nodes ids)
  unfolding nodes_at
  nodes_at-Named [] = refl
  nodes_at-Named (j ∷ ids) = elim (Option-cases (lookup j g.nodes)) [
    | inl absent ↦ ground (arith, nodes_at-Named ids)
    | inr (n, found) ↦
        ground (arith, w.keyed j n, w.no_empty_id, eq_iff n.id "", nodes_at-Named ids)
  ]

  pub edges_of-Valid : (ids : List String) → Valid (edges_of g ids)
  unfolding edges_of out
  edges_of-Valid [] = refl
  edges_of-Valid (j ∷ ids) = ground (
    arith,
    w.out_valid j,
    all-append (λ e. not (is_invalid e)) (list_at j g.out_edges) (edges_of g ids),
    edges_of-Valid ids,
  )

  pub filter-edges_of :
      (id : String) (ids : List String)
      → Distinct ids
      → filter (λ e. str_eq e.from id) (edges_of g ids) ≡ (if contains id ids then out g id else [])
  unfolding edges_of out
  filter-edges_of id [] d = refl
  filter-edges_of id (j ∷ ids) d = ground (
    arith,
    eq_iff j id,
    filter-append (λ e. str_eq e.from id) (out g j) (edges_of g ids),
    filter-out id j (out g j),
    w.out_keyed j,
    filter-edges_of id ids,
    append-nil (out g j),
  )
