-- ===== src/Rules/Accounting.antt =====
-- Every candidate of a node rule is either reported or skipped.
use tellury.Base.{
  filter-append, str_eq, eq_iff, ℕ, ◌+◌, String, Bool, true, false, ◌≡◌, refl, ◌∙◌, some, List, [],
  ◌∷◌, arith, filter, length, length-append, if◌then◌else◌, Option-cases, inl, inr,
}
use native.Mathlib.Nat.{zero-add}
use tellury.Base.Names.{contains, Distinct}
use tellury.Base.Dict.{lookup, list_at}
use tellury.Float.{Float64}
use tellury.Graph.Node.{Node}
use tellury.Graph.WellFormed.{IsWellFormed}
use tellury.Graph.Reach.{Reach, Reach-IsWellFormed}
use tellury.Graph.Walk.{Present, nodes_at, visit, walk-visit, by_kind-Present}
use tellury.Rules.Types.{
  Finding, Skip, Pass, skip_node, NodeContext, CostBranch, NodeRule, Formats, exempt_label,
  no_price, below_min_waste,
}
use tellury.Rules.Adapt.{
  pick_best, to_finding, check_guards, Run, started, report, price, eval_node, eval_node_rule,
}

-- How often a resource is reported or skipped.
abbrev pub tally : {F : Type 0} → String → Run F → ℕ
tally id r =
    length (filter (λ fd. str_eq fd.resource_id id) r.findings)
    + length (filter (λ s. str_eq s.ref id) r.skips)

-- The context is never cancelled, and the pass has a `Skip` callback.
module _ {F V E : Type 0} (f : Float64 F) (fmt : Formats F) (ctx : ℕ → Bool) (nr : NodeRule F V E)
    (p : Pass F E) (live : (t : ℕ) → ctx t ≡ false) (watched : p.has_skip ≡ true) where
  abbrev one : String → Node F → ℕ
  one id n = if str_eq n.id id then 1 else 0

  skip_node-tally :
      (id ref rule_id code : String) (skips : List Skip)
      → length (filter (λ s. str_eq s.ref id) (skip_node p rule_id ref code skips))
        ≡ length (filter (λ s. str_eq s.ref id) skips) + (if str_eq ref id then 1 else 0)
  unfolding skip_node
  skip_node-tally id ref rule_id code skips =
      let skip : Skip = record { rule_id = rule_id; ref = ref; code = code } in
      ground (
        arith,
        watched,
        filter-append (λ s. str_eq s.ref id) skips (skip ∷ []),
        length-append (filter (λ s. str_eq s.ref id) skips)
            (filter (λ s. str_eq s.ref id) (skip ∷ [])),
      )

  report-tally :
      (id : String) (r : Run F) (n : Node F) (nc : NodeContext V) (keep : List (CostBranch F))
      → tally id (report f fmt ctx nr p r n nc keep) ≡ tally id r + one id n
  unfolding report to_finding
  report-tally id r n nc [] =
      omega (arith, skip_node-tally id n.id nr.meta.id below_min_waste r.skips)
  report-tally id r n nc (b ∷ keep) =
      let fd = to_finding f fmt ctx nr p n nc (pick_best f b keep) in
      let reported = filter (λ (fd : Finding F). str_eq fd.resource_id id) r.findings in
      ground (
        arith,
        filter-append (λ (fd : Finding F). str_eq fd.resource_id id) r.findings (fd ∷ []),
        length-append reported (filter (λ (fd : Finding F). str_eq fd.resource_id id) (fd ∷ [])),
      )

  price-tally :
      (id : String) (r : Run F) (n : Node F) (nc : NodeContext V)
      → (tally id (price f fmt ctx nr p r n nc).0 ≡ tally id r + one id n)
        × ((price f fmt ctx nr p r n nc).1 ≡ true)
  unfolding price
  price-tally id r n nc = elim (Option-cases (nr.cost r.reads n nc p).1) [
    | inl failed ↦
        rw (failed, price, live r.reads)
          (omega (arith, skip_node-tally id n.id nr.meta.id no_price r.skips), refl)
    | inr (bs, answered) ↦ rw (answered, price) (report-tally id r n _ _, refl)
  ]

  eval_node-tally :
      (id : String) (r : Run F) (n : Node F)
      → (tally id (eval_node f fmt ctx nr p r n).0 ≡ tally id r + one id n)
        × ((eval_node f fmt ctx nr p r n).1 ≡ true)
  unfolding eval_node
  eval_node-tally id r n = elim (Option-cases (check_guards nr.guards n [] p).0) [
    | inl passed ↦ ground (
      arith,
      live r.reads,
      skip_node-tally id n.id nr.meta.id exempt_label r.skips,
      price-tally id (record r { reads = r.reads + 1 }) n (check_guards nr.guards n [] p).1,
    )
    | inr (code, failed) ↦ ground (
      arith,
      live r.reads,
      skip_node-tally id n.id nr.meta.id exempt_label r.skips,
      skip_node-tally id n.id nr.meta.id code r.skips,
    )
  ]

  visit-tally :
      (id : String) (ns : List (Node F)) (r : Run F)
      → tally id (visit (eval_node f fmt ctx nr p) ns r)
        ≡ tally id r + length (filter (λ n. str_eq n.id id) ns)
  unfolding visit
  visit-tally id [] r = omega arith
  visit-tally id (n ∷ ns) r =
      ground (arith, eval_node-tally id r n, visit-tally id ns (eval_node f fmt ctx nr p r n).0)

  count-nodes_at :
      (id : String) (ids : List String)
      → IsWellFormed p.graph
      → Present p.graph.nodes ids
      → Distinct ids
      → length (filter (λ n. str_eq n.id id) (nodes_at p.graph.nodes ids))
        ≡ (if contains id ids then 1 else 0)
  unfolding nodes_at
  count-nodes_at id [] w h d = refl
  count-nodes_at id (j ∷ ids) w h d = elim (Option-cases (lookup j p.graph.nodes)) [
    | inl absent ↦ ground arith
    | inr (n, found) ↦ ground (arith, w.keyed j n found, count-nodes_at id ids w, eq_iff j id)
  ]

  -- On a graph that the API reaches, with a context that is never cancelled and a pass that listens
  -- to skips, a node rule reports or skips each resource in the index under its kind exactly once,
  -- and no other.
  pub eval_node_rule-tally :
      Reach p.graph
      → (r : Run F) × (eval_node_rule f fmt ctx nr p ≡ some r)
        × ((id : String)
            → tally id r ≡ (if contains id (list_at nr.kind p.graph.by_kind) then 1 else 0))
  unfolding eval_node_rule
  eval_node_rule-tally reached =
      let w = Reach-IsWellFormed reached in
      let ids = list_at nr.kind p.graph.by_kind in
      let present = by_kind-Present p.graph w nr.kind in
      (
        visit (eval_node f fmt ctx nr p) (nodes_at p.graph.nodes ids) started,
        walk-visit (eval_node f fmt ctx nr p) p.graph.nodes ids started present,
        λ id.
            visit-tally id (nodes_at p.graph.nodes ids) started
            ∙ rw zero-add (count-nodes_at id ids w present (w.index_distinct nr.kind)),
      )
