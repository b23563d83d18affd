-- ===== src/Graph/Freeze.antt =====
-- `Freeze` and `Unfreeze`.
use tellury.Base.{ℕ, ◌+◌, String, true, false, ◌≡◌, refl, List, [], ◌∷◌, arith}
use tellury.Base.Sort.{str_order, sort-sort}
use tellury.Base.Dict.{Dict, map_values}
use tellury.Base.Names.{sort_names}
use tellury.Graph.Build.{Graph, exists, seal, freeze, unfreeze}
use tellury.Graph.Prune.{
  pruned, missing_total, prune_lem, missing_total-map_values, map_values-pruned,
}

map_values-sort_names :
    (m : Dict (List String))
    → map_values (λ _ ids. sort_names ids) (map_values (λ _ ids. sort_names ids) m)
      ≡ map_values (λ _ ids. sort_names ids) m
unfolding map_values
map_values-sort_names [] = refl
map_values-sort_names ((k, ids) ∷ m) = cc (sort-sort str_order ids, map_values-sort_names m)

module _ {F : Type 0} where
  -- The edges that end nowhere and those that begin nowhere.
  abbrev pub lost : Graph F → ℕ
  lost g =
      missing_total (exists g) (λ e. e.to) g.out_edges
      + missing_total (exists g) (λ e. e.from) g.in_edges

  abbrev pub sealed : Graph F → Graph F
  sealed g = record g {
    out_edges = map_values (λ _ edges. pruned (exists g) (λ e. e.to) edges) g.out_edges;
    in_edges = map_values (λ _ edges. pruned (exists g) (λ e. e.from) edges) g.in_edges;
    by_kind = map_values (λ _ ids. sort_names ids) g.by_kind;
    order = sort_names g.order;
    frozen = true;
    dangling = g.dangling + lost g;
  }

  pub seal_lem : (g : Graph F) → seal g ≡ sealed g
  unfolding seal
  seal_lem g =
      let lost_out = missing_total (exists g) (λ e. e.to) g.out_edges in
      ground (
        arith,
        prune_lem (exists g) (λ e. e.to) g.out_edges g.dangling,
        prune_lem (exists g) (λ e. e.from) g.in_edges (g.dangling + lost_out),
      )

  sealed-unfreeze-sealed : (g : Graph F) → sealed (unfreeze (sealed g)) ≡ sealed g
  unfolding unfreeze
  sealed-unfreeze-sealed g = ground (
    arith,
    map_values-pruned (exists g) (λ e. e.to) g.out_edges,
    map_values-pruned (exists g) (λ e. e.from) g.in_edges,
    map_values-sort_names g.by_kind,
    sort-sort str_order g.order,
    missing_total-map_values (exists g) (λ e. e.to) g.out_edges,
    missing_total-map_values (exists g) (λ e. e.from) g.in_edges,
  )

  pub freeze_lem : (g : Graph F) → g.frozen ≡ false → freeze g ≡ sealed g
  unfolding freeze
  freeze_lem g h = simp (h, freeze) (seal_lem g)

  -- A graph that is not frozen, frozen and then frozen again after `Unfreeze`, is as it was after the
  -- first `Freeze`.
  pub freeze-unfreeze-freeze :
      (g : Graph F) → g.frozen ≡ false → freeze (unfreeze (freeze g)) ≡ freeze g
  unfolding freeze unfreeze
  freeze-unfreeze-freeze g h = rw (freeze_lem g h, seal_lem) (sealed-unfreeze-sealed g)
