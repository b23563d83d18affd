-- ===== src/Graph/Codec/Retype.antt =====
-- A snapshot whose attributes come back as other values loads as the same graph with these attributes.
use tellury.Base.{
  ◌+◌, String, Bool, true, false, ◌≡◌, refl, sym, ap, ◌∙◌, Option, none, some, List, [], ◌∷◌, map,
  ◌++◌, str_eq, if◌then◌else◌, arith, fun_ext, Bool-cases, inl, inr,
}
use tellury.Base.Dict.{Dict, insert, map_values, lookup-map_values, push}
use tellury.Base.Names.{sort_names}
use tellury.Graph.Node.{Node, Value, text, number, flag, other, Edge}
use tellury.Graph.Build.{
  Graph, empty, exists, put_node, add_node, put_edge, add_edge, freeze, seal, is_invalid,
  GraphError, Outcome,
}
use tellury.Graph.Prune.{pruned, missing_total}
use tellury.Graph.Freeze.{seal_lem}
use tellury.Graph.Snapshot.{Snapshot, Loaded, loaded, failed, load_nodes, load_edges, load_snapshot}

module _ {F : Type 0} (reread : String → Value F) where
  -- JSON has texts, numbers and flags; `reread` tells what any further value is once decoded.
  unfoldable pub retyped_value : Value F → Value F
  retyped_value (text s) = text s
  retyped_value (number v) = number v
  retyped_value (flag b) = flag b
  retyped_value (other s) = reread s

  abbrev pub retyped : Node F → Node F
  retyped n = record n { attrs = map_values (λ _ v. retyped_value v) n.attrs }

  abbrev pub retyped_node : Option (Node F) → Option (Node F)
  retyped_node none = none
  retyped_node (some n) = some (retyped n)

  abbrev pub retyped_snapshot : Snapshot F → Snapshot F
  retyped_snapshot s = record s { nodes = map retyped_node s.nodes }

  abbrev pub retyped_graph : Graph F → Graph F
  retyped_graph g = record g { nodes = map_values (λ _ n. retyped n) g.nodes }

  abbrev pub retyped_loaded : Loaded F → Loaded F
  retyped_loaded (loaded g) = loaded (retyped_graph g)
  retyped_loaded (failed e) = failed e

  insert-map_values :
      (k : String) (n : Node F) (m : Dict (Node F))
      → insert k (retyped n) (map_values (λ _ n. retyped n) m)
        ≡ map_values (λ _ n. retyped n) (insert k n m)
  unfolding insert map_values
  insert-map_values k n [] = refl
  insert-map_values k n ((j, w) ∷ m) = elim (Bool-cases (str_eq j k)) [
    | inl same ↦ rw same refl
    | inr apart ↦ rw apart (ap (λ l. (j, retyped w) ∷ l) (insert-map_values k n m))
  ]

  exists-retyped : (g : Graph F) (id : String) → exists (retyped_graph g) id ≡ exists g id
  exists-retyped g id = ground (arith, lookup-map_values (λ _ (n : Node F). retyped n) id g.nodes)

  put_node-retyped :
      (g : Graph F) (n : Node F)
      → put_node (retyped_graph g) (retyped n) ≡ retyped_graph (put_node g n)
  unfolding put_node
  put_node-retyped g n = λ i. record g {
    nodes = insert-map_values n.id n g.nodes i;
    by_kind = if exists-retyped g n.id i then g.by_kind else push n.kind n.id g.by_kind;
    order = if exists-retyped g n.id i then g.order else g.order ++ n.id ∷ [];
  }

  abbrev retyped_outcome : Outcome F → Outcome F
  retyped_outcome (g, err) = (retyped_graph g, err)

  -- An operation that fails by one of two tests and else changes the graph.
  tests-retyped :
      (first second : Bool) (g p q : Graph F) (e d : GraphError)
      → q ≡ retyped_graph p
      → ◌≡◌ {A = Outcome F}
          (if first
            then (retyped_graph g, some e)
            else if second
            then (retyped_graph g, some d)
            else (q, none))
          (retyped_outcome
            (if first then (g, some e) else if second then (g, some d) else (p, none)))
  tests-retyped true second g p q e d same = refl
  tests-retyped false true g p q e d same = refl
  tests-retyped false false g p q e d same = ap (λ h. (h, none)) same

  add_node-retyped :
      (g : Graph F) (n : Option (Node F))
      → add_node (retyped_graph g) (retyped_node n) ≡ retyped_outcome (add_node g n)
  unfolding add_node
  add_node-retyped g none = refl
  add_node-retyped g (some n) =
      tests-retyped g.frozen (str_eq n.id "") g (put_node g n)
        (put_node (retyped_graph g) (retyped n)) _ _ (put_node-retyped g n)

  add_edge-retyped :
      (g : Graph F) (e : Edge) → add_edge (retyped_graph g) e ≡ retyped_outcome (add_edge g e)
  unfolding add_edge put_edge
  add_edge-retyped g e =
      tests-retyped g.frozen (is_invalid e) g (put_edge g e) (put_edge (retyped_graph g) e) _ _ refl

  -- An error ends the loading, and otherwise it goes on.
  abbrev go_on : (Graph F → Loaded F) → Outcome F → Loaded F
  go_on load (g, err) = elim err [ none ↦ load g | some e ↦ failed e ]

  go_on-retyped :
      (load load' : Graph F → Loaded F) (o : Outcome F)
      → ((g : Graph F) → load' (retyped_graph g) ≡ retyped_loaded (load g))
      → go_on load' (retyped_outcome o) ≡ retyped_loaded (go_on load o)
  go_on-retyped load load' (g, none) same = same g
  go_on-retyped load load' (g, some e) same = refl

  load_nodes-retyped :
      (g : Graph F) (ns : List (Option (Node F)))
      → load_nodes (retyped_graph g) (map retyped_node ns) ≡ retyped_loaded (load_nodes g ns)
  unfolding load_nodes
  load_nodes-retyped g [] = refl
  load_nodes-retyped g (n ∷ ns) =
      ap (go_on (λ h. load_nodes h (map retyped_node ns))) (add_node-retyped g n)
      ∙ go_on-retyped (λ h. load_nodes h ns) (λ h. load_nodes h (map retyped_node ns))
          (add_node g n) (λ h. load_nodes-retyped h ns)

  load_edges-retyped :
      (g : Graph F) (es : List Edge)
      → load_edges (retyped_graph g) es ≡ retyped_loaded (load_edges g es)
  unfolding load_edges
  load_edges-retyped g [] = refl
  load_edges-retyped g (e ∷ es) =
      ap (go_on (λ h. load_edges h es)) (add_edge-retyped g e)
      ∙ go_on-retyped (λ h. load_edges h es) (λ h. load_edges h es) (add_edge g e)
          (λ h. load_edges-retyped h es)

  seal-retyped : (g : Graph F) → seal (retyped_graph g) ≡ retyped_graph (seal g)
  seal-retyped g =
      seal_lem (retyped_graph g)
      ∙ ap
          (λ (there : String → Bool). record (retyped_graph g) {
            out_edges = map_values (λ _ edges. pruned there (λ e. e.to) edges) g.out_edges;
            in_edges = map_values (λ _ edges. pruned there (λ e. e.from) edges) g.in_edges;
            by_kind = map_values (λ _ ids. sort_names ids) g.by_kind;
            order = sort_names g.order;
            frozen = true;
            dangling =
                g.dangling
                + (missing_total there (λ e. e.to) g.out_edges
                    + missing_total there (λ e. e.from) g.in_edges);
          })
          (fun_ext (exists-retyped g))
      ∙ ap retyped_graph (sym (seal_lem g))

  test-retyped :
      (b : Bool) (g p q : Graph F)
      → q ≡ retyped_graph p
      → (if b then retyped_graph g else q) ≡ retyped_graph (if b then g else p)
  test-retyped true g p q same = refl
  test-retyped false g p q same = same

  freeze-retyped : (g : Graph F) → freeze (retyped_graph g) ≡ retyped_graph (freeze g)
  unfolding freeze
  freeze-retyped g = test-retyped g.frozen g (seal g) (seal (retyped_graph g)) (seal-retyped g)

  freeze_loaded : Loaded F → Loaded F
  freeze_loaded (loaded g) = loaded (freeze g)
  freeze_loaded (failed e) = failed e

  then_edges : List Edge → Loaded F → Loaded F
  then_edges es (loaded g) = freeze_loaded (load_edges g es)
  then_edges es (failed e) = failed e

  freeze_loaded-retyped :
      (l : Loaded F) → freeze_loaded (retyped_loaded l) ≡ retyped_loaded (freeze_loaded l)
  unfolding freeze_loaded
  freeze_loaded-retyped (loaded g) = ap loaded (freeze-retyped g)
  freeze_loaded-retyped (failed e) = refl

  then_edges-retyped :
      (es : List Edge) (l : Loaded F)
      → then_edges es (retyped_loaded l) ≡ retyped_loaded (then_edges es l)
  unfolding then_edges
  then_edges-retyped es (loaded g) =
      ap freeze_loaded (load_edges-retyped g es) ∙ freeze_loaded-retyped (load_edges g es)
  then_edges-retyped es (failed e) = refl

  load_snapshot-then_edges :
      (s : Snapshot F) → load_snapshot s ≡ then_edges s.edges (load_nodes empty s.nodes)
  unfolding load_snapshot then_edges freeze_loaded
  load_snapshot-then_edges s = by_nodes (load_nodes empty s.nodes)
    where
      by_edges :
          (l : Loaded F)
          → (elim l [ failed e ↦ failed e | loaded h ↦ loaded (freeze h) ]) ≡ freeze_loaded l
      by_edges (loaded g) = refl
      by_edges (failed e) = refl

      by_nodes :
          (l : Loaded F)
          → (elim l [
            | failed e ↦ failed e
            | loaded g ↦ elim (load_edges g s.edges) [
              | failed e ↦ failed e
              | loaded h ↦ loaded (freeze h)
            ]
          ])
            ≡ then_edges s.edges l
      by_nodes (loaded g) = by_edges (load_edges g s.edges)
      by_nodes (failed e) = refl

  pub load_snapshot-retyped :
      (s : Snapshot F) → load_snapshot (retyped_snapshot s) ≡ retyped_loaded (load_snapshot s)
  unfolding map_values
  load_snapshot-retyped s =
      load_snapshot-then_edges (retyped_snapshot s)
      ∙ ap (then_edges s.edges) (load_nodes-retyped empty s.nodes)
      ∙ then_edges-retyped s.edges (load_nodes empty s.nodes)
      ∙ ap retyped_loaded (sym (load_snapshot-then_edges s))
