-- ===== src/Graph/Metrics.antt =====
-- `SetMetric`: what it writes, what it leaves alone, and why the order of concurrent calls does
-- not matter.
use tellury.Base.{
  String, ◌≡◌, ◌≢◌, Option, none, some, arith, ◌&&◌, ◌⊎◌, inl, inr, Option-cases, if◌then◌else◌,
  str_eq, eq_iff, str_eq_refl,
}
use tellury.Base.Dict.{lookup, insert, lookup-insert}
use tellury.Graph.Node.{MetricValue}
use tellury.Graph.Build.{Graph, exists, set_metric}

module _ {F : Type 0} where
  -- The value that `id` holds under a metric key; `none` if the graph has no such node or value.
  abbrev metric_at : Graph F → String → String → Option (MetricValue F)
  metric_at g id key = elim (lookup id g.nodes) [ none ↦ none | some n ↦ lookup key n.metrics ]

  metric_at-set_metric :
      (g : Graph F) (id j key k : String) (v : MetricValue F)
      → metric_at (set_metric g id key v) j k ≡ (
          if str_eq id j && str_eq key k
          then (elim (lookup j g.nodes) [ none ↦ none | some _ ↦ some v ])
          else metric_at g j k)
  unfolding set_metric
  metric_at-set_metric g id j key k v = elim (Option-cases (lookup id g.nodes)) [
    | inl absent ↦ ground (arith, eq_iff id j)
    | inr (n, found) ↦ ground (
      arith,
      eq_iff id j,
      eq_iff key k,
      lookup-insert j id (record n { metrics = insert key v n.metrics }) g.nodes,
      lookup-insert k key v n.metrics,
    )
  ]

  exists-set_metric :
      (g : Graph F) (id j key : String) (v : MetricValue F)
      → exists (set_metric g id key v) j ≡ exists g j
  unfolding set_metric
  exists-set_metric g id j key v = elim (Option-cases (lookup id g.nodes)) [
    | inl absent ↦ ground arith
    | inr (n, found) ↦ ground (
      arith,
      eq_iff id j,
      lookup-insert j id (record n { metrics = insert key v n.metrics }) g.nodes,
    )
  ]

  -- Two writes to different nodes or under different keys leave the same metrics in either order,
  -- read at any node and any key: the calls of `SetMetric` that enrichment makes concurrently
  -- commute.
  set_metric_comm :
      (g : Graph F) (i j k l : String) (v w : MetricValue F)
      → (i ≢ j) ⊎ (k ≢ l)
      → (id key : String)
      → metric_at (set_metric (set_metric g i k v) j l w) id key
        ≡ metric_at (set_metric (set_metric g j l w) i k v) id key
  set_metric_comm g i j k l v w apart id key = ground (
    arith,
    eq_iff i id,
    eq_iff j id,
    eq_iff k key,
    eq_iff l key,
    metric_at-set_metric (set_metric g i k v) j id l key w,
    metric_at-set_metric g i id k key v,
    metric_at-set_metric (set_metric g j l w) i id k key v,
    metric_at-set_metric g j id l key w,
    exists-set_metric g i id k v,
    exists-set_metric g j id l w,
  )

  -- A write is read back at its key if the graph has the node, and is lost otherwise. It leaves the topology alone: the ids, the order, the
  -- edges and the index by kind, on a frozen graph and on one that is not.
  pub set_metric_frame :
      (g : Graph F) (id key : String) (v : MetricValue F)
      → let h = set_metric g id key v in
        (metric_at h id key ≡ (elim (lookup id g.nodes) [ none ↦ none | some _ ↦ some v ]))
        × ((j : String) → exists h j ≡ exists g j)
        × (h.order ≡ g.order)
        × (h.by_kind ≡ g.by_kind)
        × (h.out_edges ≡ g.out_edges)
        × (h.in_edges ≡ g.in_edges)
        × (h.frozen ≡ g.frozen)
  unfolding set_metric
  set_metric_frame g id key v = (
    ground (arith, str_eq_refl id, str_eq_refl key, metric_at-set_metric g id id key key v),
    λ j. exists-set_metric g id j key v,
    ground arith,
    ground arith,
    ground arith,
    ground arith,
    ground arith,
  )
