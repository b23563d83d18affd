-- ===== src/Graph/Sealed.antt =====
-- A graph after `Freeze`.
use tellury.Base.{String, false, not, ◌≡◌, sym, ap, ◌∙◌, [], str_eq, str_ltb, all, if_ind}
use tellury.Base.Sort.{sort_of_IsSorted, length-sort}
use tellury.Base.Dict.{list_at, map_values, list_at-map_values}
use tellury.Base.Names.{sort_names, contains-sort, sort-Distinct}
use tellury.Graph.Build.{Graph, is_invalid, exists, freeze, unfreeze}
use tellury.Graph.Query.{out, inward}
use tellury.Graph.Prune.{pruned, list_at-pruned, all-pruned}
use tellury.Graph.WellFormed.{IsWellFormed}
use tellury.Graph.Freeze.{sealed, seal_lem, freeze_lem}

module _ {F : Type 0} where
  pub nodes-freeze : (g : Graph F) → g.frozen ≡ false → (freeze g).nodes ≡ g.nodes
  nodes-freeze g h = rw (freeze_lem g h)

  -- After `Freeze` of a graph that is not frozen, the edges out of an id are those that end at a node,
  -- by kind and target.
  pub out-freeze :
      (g : Graph F) (id : String)
      → g.frozen ≡ false
      → out (freeze g) id ≡ pruned (exists g) (λ e. e.to) (out g id)
  unfolding out
  out-freeze g id h = rw (freeze_lem g h) (list_at-pruned (exists g) (λ e. e.to) id g.out_edges)

  -- After `Freeze` of a graph that is not frozen, the edges into an id are those that begin at a node,
  -- by kind and origin.
  pub inward-freeze :
      (g : Graph F) (id : String)
      → g.frozen ≡ false
      → inward (freeze g) id ≡ pruned (exists g) (λ e. e.from) (inward g id)
  unfolding inward
  inward-freeze g id h = rw (freeze_lem g h) (list_at-pruned (exists g) (λ e. e.from) id g.in_edges)

  sealed-IsWellFormed : (g : Graph F) → IsWellFormed g → IsWellFormed (sealed g)
  sealed-IsWellFormed g w = record {
    nodes_nodup = w.nodes_nodup;
    order_distinct = sort-Distinct g.order w.order_distinct;
    order_complete = λ id. contains-sort id g.order ∙ w.order_complete id;
    order_length = length-sort str_ltb g.order ∙ w.order_length;
    keyed = w.keyed;
    no_empty_id = w.no_empty_id;
    indexed = λ k id h.
        w.indexed k id (sym (contains-sort id (list_at k g.by_kind)) ∙ rw (sorted_kind k) at h);
    index_distinct =
        λ k. rw (sorted_kind k) (sort-Distinct (list_at k g.by_kind) (w.index_distinct k));
    out_keyed = λ k.
        ap (all (λ e. str_eq e.from k)) (list_at-pruned (exists g) (λ e. e.to) k g.out_edges)
        ∙ all-pruned (exists g) (λ e. e.to) (λ e. str_eq e.from k) (list_at k g.out_edges)
            (w.out_keyed k);
    out_valid = λ k.
        ap (all (λ e. not (is_invalid e))) (list_at-pruned (exists g) (λ e. e.to) k g.out_edges)
        ∙ all-pruned (exists g) (λ e. e.to) (λ e. not (is_invalid e)) (list_at k g.out_edges)
            (w.out_valid k);
    in_keyed = λ k.
        ap (all (λ e. str_eq e.to k)) (list_at-pruned (exists g) (λ e. e.from) k g.in_edges)
        ∙ all-pruned (exists g) (λ e. e.from) (λ e. str_eq e.to k) (list_at k g.in_edges)
            (w.in_keyed k);
  }
    where
      sorted_kind :
          (k : String)
          → list_at k (map_values (λ _ ids. sort_names ids) g.by_kind)
            ≡ sort_names (list_at k g.by_kind)
      sorted_kind k =
          list_at-map_values (λ _ ids. sort_names ids) k g.by_kind (sort_of_IsSorted str_ltb [] tt)

  pub freeze-IsWellFormed : (g : Graph F) → IsWellFormed g → IsWellFormed (freeze g)
  unfolding freeze
  freeze-IsWellFormed g w =
      if_ind IsWellFormed g.frozen (λ _. w) (λ _. rw (seal_lem g) (sealed-IsWellFormed g w))

  pub unfreeze-IsWellFormed : (g : Graph F) → IsWellFormed g → IsWellFormed (unfreeze g)
  unfolding unfreeze
  unfreeze-IsWellFormed g w = record {
    nodes_nodup = w.nodes_nodup;
    order_distinct = w.order_distinct;
    order_complete = w.order_complete;
    order_length = w.order_length;
    keyed = w.keyed;
    no_empty_id = w.no_empty_id;
    indexed = w.indexed;
    index_distinct = w.index_distinct;
    out_keyed = w.out_keyed;
    in_keyed = w.in_keyed;
    out_valid = w.out_valid;
  }
