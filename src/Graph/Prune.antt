-- ===== src/Graph/Prune.antt =====
-- What `Freeze` does to one edge index: each list loses the edges whose endpoint is no node and is
-- put in order, and `dangling` grows by the number of edges lost.
use tellury.Base.{
  ℕ, ◌+◌, String, Bool, not, ◌≡◌, refl, ap, ◌∙◌, List, [], ◌∷◌, arith, str_asym, str_neg_trans,
  str_total, eq_iff, filter, length, filter-filter, all, all-filter_of_all, true,
}
use tellury.Base.Sort
use tellury.Base.Sort.{IsWeakOrder, all-sort, filter-sort, sort-sort}
use tellury.Base.Dict.{Dict, list_at, map_values, list_at-map_values}
use tellury.Graph.Node.{Edge}
use tellury.Graph.Build.{edge_less, keep_edges, prune}

pub edge_order : (endpoint : Edge → String) → IsWeakOrder (edge_less endpoint)
unfolding edge_less
edge_order endpoint = record {
  asym = λ a b h. ground (
    arith,
    eq_iff a.kind b.kind,
    eq_iff b.kind a.kind,
    str_asym a.kind b.kind,
    str_asym (endpoint a) (endpoint b),
  );
  neg_trans = λ a b c h k. ground (
    arith,
    eq_iff a.kind b.kind,
    eq_iff b.kind a.kind,
    eq_iff b.kind c.kind,
    eq_iff c.kind b.kind,
    eq_iff a.kind c.kind,
    eq_iff c.kind a.kind,
    str_asym a.kind b.kind,
    str_asym b.kind c.kind,
    str_asym a.kind c.kind,
    str_asym c.kind a.kind,
    str_total a.kind b.kind,
    str_neg_trans a.kind b.kind c.kind,
    str_neg_trans (endpoint a) (endpoint b) (endpoint c),
  );
}

-- Two edges of one kind between the same nodes are the same edge.
pub Edge-eq : (a b : Edge) → a.from ≡ b.from → a.to ≡ b.to → a.kind ≡ b.kind → a ≡ b
Edge-eq a b p q r = λ i. record { from = p i; to = q i; kind = r i }

module _ (exists : String → Bool) (endpoint : Edge → String) where
  abbrev pub is_kept : Edge → Bool
  is_kept e = exists (endpoint e)

  abbrev pub missing : List Edge → ℕ
  missing edges = length (filter (λ e. not (is_kept e)) edges)

  -- The edges of an index whose endpoint is no node.
  unfoldable pub missing_total : Dict (List Edge) → ℕ
  missing_total [] = 0
  missing_total ((_, edges) ∷ m) = missing edges + missing_total m

  -- An edge list after `Freeze`.
  abbrev pub pruned : List Edge → List Edge
  pruned edges = Sort.sort (edge_less endpoint) (filter is_kept edges)

  keep_edges_lem :
      (edges : List Edge) (dangling : ℕ)
      → keep_edges exists endpoint edges dangling ≡ (filter is_kept edges, dangling + missing edges)
  unfolding keep_edges
  keep_edges_lem [] dangling = ground arith
  keep_edges_lem (e ∷ edges) dangling =
      ground (arith, keep_edges_lem edges dangling, keep_edges_lem edges (dangling + 1))

  pub prune_lem :
      (m : Dict (List Edge)) (dangling : ℕ)
      → prune exists endpoint m dangling
        ≡ (map_values (λ _ edges. pruned edges) m, dangling + missing_total m)
  unfolding prune map_values missing_total
  prune_lem [] dangling = ground arith
  prune_lem ((k, edges) ∷ m) dangling =
      ground (arith, keep_edges_lem edges dangling, prune_lem m (dangling + missing edges))

  pub pruned-pruned : (edges : List Edge) → pruned (pruned edges) ≡ pruned edges
  pruned-pruned edges =
      ap (Sort.sort (edge_less endpoint)) (
        filter-sort (edge_order endpoint) is_kept (filter is_kept edges)
        ∙ ap (Sort.sort (edge_less endpoint)) (filter-filter is_kept edges))
      ∙ sort-sort (edge_order endpoint) (filter is_kept edges)

  reject-filter : (edges : List Edge) → filter (λ e. not (is_kept e)) (filter is_kept edges) ≡ []
  reject-filter [] = refl
  reject-filter (e ∷ edges) = ground (arith, reject-filter edges)

  missing-pruned : (edges : List Edge) → missing (pruned edges) ≡ 0
  unfolding Sort.sort
  missing-pruned edges =
      ap length (filter-sort (edge_order endpoint) (λ e. not (is_kept e)) (filter is_kept edges))
      ∙ ap (λ rest. length (Sort.sort (edge_less endpoint) rest)) (reject-filter edges)

  -- A pruned index has nothing to lose.
  pub missing_total-map_values :
      (m : Dict (List Edge)) → missing_total (map_values (λ _ edges. pruned edges) m) ≡ 0
  unfolding missing_total map_values
  missing_total-map_values [] = refl
  missing_total-map_values ((k, edges) ∷ m) =
      omega (arith, missing-pruned edges, missing_total-map_values m)

  pub map_values-pruned :
      (m : Dict (List Edge))
      → map_values (λ _ edges. pruned edges) (map_values (λ _ edges. pruned edges) m)
        ≡ map_values (λ _ edges. pruned edges) m
  unfolding map_values
  map_values-pruned [] = refl
  map_values-pruned ((k, edges) ∷ m) = cc (pruned-pruned edges, map_values-pruned m)

  pub list_at-pruned :
      (k : String) (m : Dict (List Edge))
      → list_at k (map_values (λ _ edges. pruned edges) m) ≡ pruned (list_at k m)
  unfolding Sort.sort
  list_at-pruned k m = list_at-map_values (λ _ edges. pruned edges) k m refl

  -- What is true of all edges of a list is true of all that are left.
  pub all-pruned :
      (p : Edge → Bool) (edges : List Edge) → all p edges ≡ true → all p (pruned edges) ≡ true
  all-pruned p edges h =
      all-sort (edge_less endpoint) p (filter is_kept edges) ∙ all-filter_of_all is_kept p edges h
