-- ===== src/Graph/Determinism.antt =====
-- The order in which edges are read does not show in a frozen graph.
use tellury.Base.{
  String, Bool, true, false, not, ◌≡◌, sym, ◌∙◌, some, List, map, arith, filter, filter-perm,
  all-mem, all-filter, all-filter_of_all, String-set, length-perm, str_eq, eq_iff, str_total,
}
use mathlib.Core.List.{Perm}
use tellury.Base.Sort.{sort-perm_invariant}
use tellury.Graph.Node.{Edge, Node}
use tellury.Graph.Build.{Graph, freeze, edge_less}
use tellury.Graph.Query.{out, inward, edge_count}
use tellury.Graph.Snapshot.{Snapshot, load_snapshot, loaded}
use tellury.Graph.Prune.{missing, pruned, edge_order, Edge-eq}
use tellury.Graph.Sealed.{out-freeze, inward-freeze}
use tellury.Graph.Load.{Named}
use tellury.Graph.Loading.{
  of_lists, Valid, load_snapshot_lem, of_lists-frozen, of_lists-out, of_lists-inward,
}
use tellury.Graph.Counts.{has_id, exists-of_lists, edge_count-of_lists, dangling-of_lists}

Edge-set : IsSet Edge
Edge-set = hlevel String-set

-- Of the edges at one end no two have one rank, so that any sort orders them alike.
rank_total :
    (end other : Edge → String)
    → ((a b : Edge) → end a ≡ end b → other a ≡ other b → a.kind ≡ b.kind → a ≡ b)
    → (id : String) (a b : Edge) → str_eq (end a) id ≡ true
    → str_eq (end b) id ≡ true
    → edge_less other a b ≡ false
    → edge_less other b a ≡ false
    → a ≡ b
unfolding edge_less
rank_total end other determined id a b p q h k = ground (
  arith,
  eq_iff (end a) id,
  eq_iff (end b) id,
  eq_iff a.kind b.kind,
  eq_iff b.kind a.kind,
  str_total a.kind b.kind,
  str_total (other a) (other b),
  determined a b,
)

-- A pruned list of edges at one end does not show the order of the edges.
pruned-perm :
    (end other : Edge → String)
    → ((a b : Edge) → end a ≡ end b → other a ≡ other b → a.kind ≡ b.kind → a ≡ b)
    → (found : String → Bool) (id : String) {es fs : List Edge} → Perm es fs
    → pruned found other (filter (λ e. str_eq (end e) id) es)
      ≡ pruned found other (filter (λ e. str_eq (end e) id) fs)
pruned-perm end other determined found id {es} p =
    sort-perm_invariant (edge_order other) (λ e. str_eq (end e) id ≡ true)
      (rank_total end other determined id) Edge-set
      (filter-perm (λ e. found (other e)) (filter-perm (λ e. str_eq (end e) id) p))
      (λ e m.
        all-mem (λ e'. str_eq (end e') id) e _
          (all-filter_of_all (λ e'. found (other e')) (λ e'. str_eq (end e') id)
            (filter (λ e'. str_eq (end e') id) es) (all-filter _ es))
          m)

module _ {F : Type 0} (ns : List (Node F)) where
  out-frozen :
      (es : List Edge) (id : String)
      → out (freeze (of_lists ns es)) id
        ≡ pruned (has_id ns) (λ e. e.to) (filter (λ e. str_eq e.from id) es)
  unfolding out
  out-frozen es id =
      out-freeze (of_lists ns es) id (of_lists-frozen ns es)
      ∙ rw (exists-of_lists ns es, of_lists-out ns es id)

  inward-frozen :
      (es : List Edge) (id : String)
      → inward (freeze (of_lists ns es)) id
        ≡ pruned (has_id ns) (λ e. e.from) (filter (λ e. str_eq e.to id) es)
  unfolding inward
  inward-frozen es id =
      inward-freeze (of_lists ns es) id (of_lists-frozen ns es)
      ∙ rw (exists-of_lists ns es, of_lists-inward ns es id)

  missing-perm :
      (endpoint : Edge → String) {es fs : List Edge}
      → Perm es fs
      → missing (has_id ns) endpoint es ≡ missing (has_id ns) endpoint fs
  missing-perm endpoint p = length-perm (filter-perm (λ e. not (has_id ns (endpoint e))) p)

-- Two snapshots with the same nodes, whose edges are the same up to their order, load as graphs
-- with the same adjacency lists, in the same order, at every id.
pub load_snapshot_perm :
    {F : Type 0} (snap other : Snapshot F) (ns : List (Node F))
    → snap.nodes ≡ map some ns
    → other.nodes ≡ map some ns
    → Named ns
    → Valid snap.edges
    → Valid other.edges
    → Perm snap.edges other.edges
    → (g h : Graph F) × (load_snapshot snap ≡ loaded g)
      × (load_snapshot other ≡ loaded h)
      × ((id : String) → out g id ≡ out h id)
      × ((id : String) → inward g id ≡ inward h id)
      × (edge_count g ≡ edge_count h)
      × (g.dangling ≡ h.dangling)
load_snapshot_perm snap other ns shape shape' named valid valid' p = (
  freeze (of_lists ns snap.edges),
  freeze (of_lists ns other.edges),
  load_snapshot_lem snap ns shape named valid,
  load_snapshot_lem other ns shape' named valid',
  λ id.
      out-frozen ns snap.edges id
      ∙ pruned-perm (λ e. e.from) (λ e. e.to) Edge-eq (has_id ns) id p
      ∙ sym (out-frozen ns other.edges id),
  λ id.
      inward-frozen ns snap.edges id
      ∙ pruned-perm (λ e. e.to) (λ e. e.from) (λ a b q r. Edge-eq a b r q) (has_id ns) id p
      ∙ sym (inward-frozen ns other.edges id),
  omega (
    arith,
    edge_count-of_lists ns snap.edges,
    edge_count-of_lists ns other.edges,
    missing-perm ns (λ e. e.to) p,
    length-perm p,
  ),
  dangling-of_lists ns snap.edges
      ∙ omega (arith, missing-perm ns (λ e. e.to) p, missing-perm ns (λ e. e.from) p)
      ∙ sym (dangling-of_lists ns other.edges),
)
