-- ===== src/Graph/WellFormed.antt =====
-- The invariant of a graph, and its reachability: every call of the API keeps it.
use tellury.Base.{
  String, true, false, not, ◌≡◌, refl, sym, ◌∙◌, all, all-append, Option, none, some, [], ◌∷◌, ◌++◌,
  str_eq, arith, length, length-append, if◌then◌else◌, Option-cases, if_ind, inl, inr, eq_iff,
}
use tellury.Base.Dict.{
  lookup, insert, get_or, has_key, push, list_at, NodupKeys, lookup-insert, insert-NodupKeys,
  list_at-push, length-insert,
}
use tellury.Base.Names.{contains, Distinct, contains-append, Distinct-snoc}
use tellury.Graph.Node.{Edge, Node, MetricValue}
use tellury.Graph.Build.{
  Graph, Outcome, is_invalid, empty, exists, put_node, add_node, put_edge, add_edge, set_metric,
}

module _ {F : Type 0} where
  pub record IsWellFormed (g : Graph F) : Type 0 where
    -- `order` lists the ids of the nodes, each once.
    pub nodes_nodup : NodupKeys g.nodes
    pub order_distinct : Distinct g.order
    pub order_complete : (id : String) → contains id g.order ≡ exists g id
    pub order_length : length g.order ≡ length g.nodes
    -- A node stands under its own id, which is not empty.
    pub keyed : (id : String) (n : Node F) → lookup id g.nodes ≡ some n → n.id ≡ id
    pub no_empty_id : exists g "" ≡ false
    -- The index by kind names nodes only, under one kind an id at most once.
    pub indexed : (k id : String) → contains id (list_at k g.by_kind) ≡ true → exists g id ≡ true
    pub index_distinct : (k : String) → Distinct (list_at k g.by_kind)
    -- An edge stands under its own endpoints.
    pub out_keyed : (k : String) → all (λ e. str_eq e.from k) (list_at k g.out_edges) ≡ true
    pub in_keyed : (k : String) → all (λ e. str_eq e.to k) (list_at k g.in_edges) ≡ true
    pub out_valid : (k : String) → all (λ e. not (is_invalid e)) (list_at k g.out_edges) ≡ true

  pub empty-IsWellFormed : IsWellFormed empty
  unfolding lookup get_or
  empty-IsWellFormed = record {
    nodes_nodup = tt;
    order_distinct = tt;
    order_complete = λ id. refl;
    order_length = refl;
    keyed = λ id n h. cc;
    no_empty_id = refl;
    indexed = λ k id h. h;
    index_distinct = λ k. tt;
    out_keyed = λ k. refl;
    in_keyed = λ k. refl;
    out_valid = λ k. refl;
  }

  put_node-IsWellFormed :
      (g : Graph F) (n : Node F)
      → str_eq n.id "" ≡ false
      → IsWellFormed g
      → IsWellFormed (put_node g n)
  unfolding put_node
  put_node-IsWellFormed g n named w = record {
    nodes_nodup = insert-NodupKeys n.id n g.nodes w.nodes_nodup;
    order_distinct = ground (arith, Distinct-snoc n.id g.order, w.order_complete n.id);
    order_complete = λ id. ground (
      arith,
      w.order_complete id,
      contains-append id g.order (n.id ∷ []),
      found id,
      eq_iff n.id id,
    );
    order_length =
        ground
          (arith, w.order_length, length-append g.order (n.id ∷ []), length-insert n.id n g.nodes);
    keyed = λ id m h. ground (arith, w.keyed id m, found id, eq_iff n.id id);
    no_empty_id = ground (arith, w.no_empty_id, found "");
    indexed = λ k id h. ground (
      arith,
      w.indexed k id,
      found id,
      listed k,
      contains-append id (list_at k g.by_kind) (n.id ∷ []),
      eq_iff n.id id,
    );
    index_distinct = λ k. ground (
      arith,
      w.index_distinct k,
      w.indexed k n.id,
      listed k,
      Distinct-snoc n.id (list_at k g.by_kind),
    );
    out_keyed = w.out_keyed;
    in_keyed = w.in_keyed;
    out_valid = w.out_valid;
  }
    where
      found :
          (id : String)
          → lookup id (insert n.id n g.nodes)
            ≡ (if str_eq n.id id then some n else lookup id g.nodes)
      found id = lookup-insert id n.id n g.nodes

      listed :
          (k : String)
          → list_at k (push n.kind n.id g.by_kind)
            ≡ (if str_eq n.kind k then list_at k g.by_kind ++ n.id ∷ [] else list_at k g.by_kind)
      listed k = list_at-push k n.kind n.id g.by_kind

  pub add_node-IsWellFormed :
      (g : Graph F) (n : Option (Node F)) → IsWellFormed g → IsWellFormed (add_node g n).0
  unfolding add_node
  add_node-IsWellFormed g none w = w
  add_node-IsWellFormed g (some n) w =
      if_ind (λ (o : Outcome F). IsWellFormed o.0) g.frozen (λ _. w)
        λ _.
          if_ind (λ (o : Outcome F). IsWellFormed o.0) (str_eq n.id "") (λ _. w)
            λ named. put_node-IsWellFormed g n named w

  put_edge-IsWellFormed :
      (g : Graph F) (e : Edge) → is_invalid e ≡ false → IsWellFormed g → IsWellFormed (put_edge g e)
  unfolding put_edge
  put_edge-IsWellFormed g e valid w = record {
    nodes_nodup = w.nodes_nodup;
    order_distinct = w.order_distinct;
    order_complete = w.order_complete;
    order_length = w.order_length;
    keyed = w.keyed;
    no_empty_id = w.no_empty_id;
    indexed = w.indexed;
    index_distinct = w.index_distinct;
    out_keyed = λ k. ground (
      arith,
      w.out_keyed k,
      list_at-push k e.from e g.out_edges,
      all-append (λ e'. str_eq e'.from k) (list_at k g.out_edges) (e ∷ []),
    );
    in_keyed = λ k. ground (
      arith,
      w.in_keyed k,
      list_at-push k e.to e g.in_edges,
      all-append (λ e'. str_eq e'.to k) (list_at k g.in_edges) (e ∷ []),
    );
    out_valid = λ k. ground (
      arith,
      valid,
      w.out_valid k,
      list_at-push k e.from e g.out_edges,
      all-append (λ e'. not (is_invalid e')) (list_at k g.out_edges) (e ∷ []),
    );
  }

  pub add_edge-IsWellFormed :
      (g : Graph F) (e : Edge) → IsWellFormed g → IsWellFormed (add_edge g e).0
  unfolding add_edge
  add_edge-IsWellFormed g e w =
      if_ind (λ (o : Outcome F). IsWellFormed o.0) g.frozen (λ _. w)
        λ _.
          if_ind (λ (o : Outcome F). IsWellFormed o.0) (is_invalid e) (λ _. w)
            λ valid. put_edge-IsWellFormed g e valid w

  put_metrics-IsWellFormed :
      (g : Graph F) (id : String) (n m : Node F)
      → lookup id g.nodes ≡ some n
      → m.id ≡ n.id
      → IsWellFormed g
      → IsWellFormed (record g { nodes = insert id m g.nodes })
  put_metrics-IsWellFormed g id n m found same w = record {
    nodes_nodup = insert-NodupKeys id m g.nodes w.nodes_nodup;
    order_distinct = w.order_distinct;
    order_complete = λ j. w.order_complete j ∙ kept j;
    order_length = ground (arith, w.order_length, length-insert id m g.nodes, found);
    keyed = λ j p h.
        ground (arith, w.keyed j p, w.keyed id n, lookup-insert j id m g.nodes, eq_iff id j);
    no_empty_id = sym (kept "") ∙ w.no_empty_id;
    indexed = λ k j h. sym (kept j) ∙ w.indexed k j h;
    index_distinct = w.index_distinct;
    out_keyed = w.out_keyed;
    in_keyed = w.in_keyed;
    out_valid = w.out_valid;
  }
    where
      kept : (j : String) → exists g j ≡ has_key j (insert id m g.nodes)
      kept j = ground (arith, lookup-insert j id m g.nodes, eq_iff id j)

  pub set_metric-IsWellFormed :
      (g : Graph F) (id key : String) (v : MetricValue F)
      → IsWellFormed g
      → IsWellFormed (set_metric g id key v)
  unfolding set_metric
  set_metric-IsWellFormed g id key v w = elim (Option-cases (lookup id g.nodes)) [
    | inl absent ↦ simp (absent, set_metric) w
    | inr (n, found) ↦
        simp (found, set_metric)
          (put_metrics-IsWellFormed g id n (record n { metrics = insert key v n.metrics }) found
            refl w)
  ]
