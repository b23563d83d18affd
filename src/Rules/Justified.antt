-- ===== src/Rules/Justified.antt =====
-- What the skeleton of the node rules reports, and why.
use tellury.Base.{
  ℕ, String, Bool, true, false, not, refl, ap, none, some, List, [], ◌∷◌, ◌++◌, ◌≡◌, arith, all,
  filter, map, if◌then◌else◌, if_ind, Option-cases, inl, inr, Every, Every-snoc, all-filter,
  all-mem, ◌||◌, Bool-cases,
}
use mathlib.Core.List.{Mem, mem-cons, mem-cons_self, mem-cons_of_mem}
use mathlib.Core.Logic.Or
use tellury.Base.Dict.{lookup, has_key, list_at}
use tellury.Float.{Float64, IsOrdered}
use tellury.Graph.Node.{Node, exempt}
use tellury.Graph.Reach.{Reach, Reach-IsWellFormed}
use tellury.Graph.Walk.{
  nodes_at, visit, visit_ind, walk-visit, by_kind-Present, nodes_at-Every, usable,
}
use tellury.Rules.Types.{Evidence, Finding, Pass, NodeContext, CostBranch, NodeRule, Formats}
use tellury.Rules.Guarded.{Passes, check_guards-Passes}
use tellury.Rules.Adapt.{
  auto_collect, pick_best, check_guards, Run, started, to_finding, report, price, eval_node,
  eval_node_rule,
}

-- The evidence of the declared keys has, in their order, the keys under which the node has an
-- attribute or a metric with at least one sample.
pub map-auto_collect :
    {F : Type 0} (fmt : Formats F) (keys : List String) (n : Node F)
    → map (λ (e : Evidence). e.key) (auto_collect fmt keys n)
      ≡ filter (λ k. has_key k n.attrs || usable k n) keys
unfolding auto_collect
map-auto_collect fmt [] n = refl
map-auto_collect fmt (k ∷ keys) n = elim (Option-cases (lookup k n.attrs)) [
  | inl no_attr ↦ elim (Option-cases (lookup k n.metrics)) [
    | inl no_metric ↦ ground (arith, map-auto_collect fmt keys n)
    | inr (m, found) ↦ ground (arith, map-auto_collect fmt keys n)
  ]
  | inr (v, found) ↦ ground (arith, map-auto_collect fmt keys n)
]

module _ {F : Type 0} {f : Float64 F} (o : IsOrdered f) where
  -- No branch beats the one that is picked, and the one that is picked beats the first, or is it.
  pick_best-max :
      (best : CostBranch F) (keep : List (CostBranch F))
      → (f.lt (pick_best f best keep).waste best.waste ≡ false)
        × (all (λ b. not (f.lt (pick_best f best keep).waste b.waste)) keep ≡ true)
  unfolding pick_best
  pick_best-max best [] = ground (arith, o.asym best.waste best.waste)
  pick_best-max best (b ∷ keep) =
      let best' = if f.lt best.waste b.waste then b else best in
      ground (
        arith,
        pick_best-max best' keep,
        o.asym best.waste b.waste,
        o.neg_trans best.waste b.waste (pick_best f best' keep).waste,
        o.neg_trans b.waste best.waste (pick_best f best' keep).waste,
      )

mem-skip {ℓ} : {A : Type ℓ} (x a b : A) (xs : List A) → Mem x (a ∷ xs) → Mem x (a ∷ b ∷ xs)
mem-skip x a b xs m =
    Or.elim (hlevel) (mem-cons.0 m) (λ e. rw e mem-cons_self)
      (λ k. mem-cons_of_mem a (mem-cons_of_mem b k))

mem-pick_best :
    {F : Type 0} (f : Float64 F) (best : CostBranch F) (keep : List (CostBranch F))
    → Mem (pick_best f best keep) (best ∷ keep)
unfolding pick_best
mem-pick_best f best [] = mem-cons_self
mem-pick_best f best (b ∷ keep) = elim (Bool-cases (f.lt best.waste b.waste)) [
  | inl more ↦ rw more (mem-cons_of_mem best (mem-pick_best f b keep))
  | inr less ↦ rw less (mem-skip _ best b keep (mem-pick_best f best keep))
]

mem-filter {ℓ} : {A : Type ℓ} (p : A → Bool) (x : A) (xs : List A) → Mem x (filter p xs) → Mem x xs
mem-filter p x [] m = m
mem-filter p x (y ∷ ys) m = elim (Bool-cases (p y)) [
  | inl kept ↦
      Or.elim (hlevel) (mem-cons.0 (rw kept at m)) (λ e. rw e mem-cons_self)
        (λ k. mem-cons_of_mem y (mem-filter p x ys k))
  | inr dropped ↦ mem-cons_of_mem y (mem-filter p x ys (rw dropped at m))
]

module _ {F V E : Type 0} (f : Float64 F) (fmt : Formats F) (ctx : ℕ → Bool) (nr : NodeRule F V E)
    (p : Pass F E) where
  -- Why a finding was reported: the node is in the graph, is not exempt and passes every guard, each
  -- in the context that those before it leave, and the rule priced it. The finding tells the node, and
  -- its waste and confidence are those of a branch that reaches the floor, of which none has more.
  pub record IsJustified (fd : Finding F) : Type 0 where
    pub node : Node F
    pub before : NodeContext V
    pub after : NodeContext V
    pub moment : ℕ
    pub branches : List (CostBranch F)
    pub best : CostBranch F
    pub found : lookup fd.resource_id p.graph.nodes ≡ some node
    pub not_exempt : exempt node ≡ false
    pub passed : check_guards nr.guards node [] p ≡ (none, before)
    pub holds : Passes node p nr.guards [] before
    pub priced : nr.cost moment node before p ≡ (after, some branches)
    pub first : CostBranch F
    pub keep : List (CostBranch F)
    pub kept : filter (λ b. f.le nr.min_waste b.waste) branches ≡ first ∷ keep
    pub picked : best ≡ pick_best f first keep
    pub is_branch : Mem best branches
    pub reported : fd ≡ to_finding f fmt ctx nr p node after best
    pub of_rule : fd.rule_id ≡ nr.meta.id
    pub wasted : fd.monthly_waste ≡ best.waste
    pub confident : fd.confidence ≡ best.confidence
    pub placed : (fd.project ≡ node.project) × (fd.location ≡ node.location) × (fd.kind ≡ node.kind)
    pub told :
        fd.evidence ≡ auto_collect fmt nr.evidence_keys node ++ nr.extra_evidence node after best
    pub above : f.le nr.min_waste best.waste ≡ true
    pub greatest :
        all (λ b. not (f.le nr.min_waste b.waste) || not (f.lt best.waste b.waste)) branches ≡ true

  abbrev Justified : Run F → Type 0
  Justified r = Every IsJustified r.findings

  module _ (o : IsOrdered f) where
    greatest_of_filter :
        (bs : List (CostBranch F)) (w : F)
        → all (λ b. not (f.lt w b.waste)) (filter (λ b. f.le nr.min_waste b.waste) bs) ≡ true
        → all (λ b. not (f.le nr.min_waste b.waste) || not (f.lt w b.waste)) bs ≡ true
    greatest_of_filter [] w h = refl
    greatest_of_filter (b ∷ bs) w h = ground (arith, greatest_of_filter bs w)

    report-Justified :
        (r : Run F) (n : Node F) (before after : NodeContext V) (t : ℕ)
        (bs keep : List (CostBranch F))
        → lookup n.id p.graph.nodes ≡ some n
        → exempt n ≡ false
        → check_guards nr.guards n [] p ≡ (none, before)
        → nr.cost t n before p ≡ (after, some bs)
        → filter (λ b. f.le nr.min_waste b.waste) bs ≡ keep
        → Justified r
        → Justified (report f fmt ctx nr p r n after keep)
    unfolding report to_finding
    report-Justified r n before after t bs [] found not_exempt passed priced kept j = j
    report-Justified r n before after t bs (b ∷ keep) found not_exempt passed priced kept j =
        let best = pick_best f b keep in
        let is_kept : Mem best (filter (λ b. f.le nr.min_waste b.waste) bs) =
          rw kept (mem-pick_best f b keep) in
        Every-snoc IsJustified r.findings _ j (record {
          node = n;
          before = before;
          after = after;
          moment = t;
          branches = bs;
          best = best;
          found = found;
          not_exempt = not_exempt;
          passed = passed;
          priced = priced;
          first = b;
          keep = keep;
          kept = kept;
          picked = refl;
          is_branch = mem-filter _ best bs is_kept;
          reported = refl;
          holds = check_guards-Passes n p nr.guards [] before passed;
          of_rule = refl;
          wasted = refl;
          confident = refl;
          placed = (refl, refl, refl);
          told = refl;
          above = all-mem (λ b. f.le nr.min_waste b.waste) best _ (all-filter _ bs) is_kept;
          greatest =
              greatest_of_filter bs best.waste (rw kept (ground (arith, pick_best-max o b keep)));
        })

    price-Justified :
        (r : Run F) (n : Node F) (before : NodeContext V)
        → lookup n.id p.graph.nodes ≡ some n
        → exempt n ≡ false
        → check_guards nr.guards n [] p ≡ (none, before)
        → Justified r
        → Justified (price f fmt ctx nr p r n before).0
    unfolding price
    price-Justified r n before found not_exempt passed j =
        elim (Option-cases (nr.cost r.reads n before p).1) [
          | inl failed ↦
              rw (failed, price)
                (if_ind (λ (o : Run F × Bool). Justified o.0) (ctx r.reads) (λ _. j) (λ _. j))
          | inr (bs, answered) ↦
              rw (answered, price)
                (report-Justified r n before _ r.reads bs _ found not_exempt passed
                  (ap (λ b. ((nr.cost r.reads n before p).0, b)) answered) refl j)
        ]

    eval_node-Justified :
        (r : Run F) (n : Node F)
        → lookup n.id p.graph.nodes ≡ some n
        → Justified r
        → Justified (eval_node f fmt ctx nr p r n).0
    unfolding eval_node
    eval_node-Justified r n found j =
        if_ind (λ (o : Run F × Bool). Justified o.0) (ctx r.reads) (λ _. j)
          λ _.
            if_ind (λ (o : Run F × Bool). Justified o.0) (exempt n) (λ _. j)
              λ not_exempt. elim (Option-cases (check_guards nr.guards n [] p).0) [
                | inl none_failed ↦
                    rw (none_failed, eval_node)
                      (price-Justified _ n _ found not_exempt
                        (ap (λ c. (c, (check_guards nr.guards n [] p).1)) none_failed) j)
                | inr (code, failed) ↦ rw (failed, eval_node) j
              ]

    -- On a graph that the API reaches, evaluating a node rule meets no nil node, whatever the context
    -- answers. Every finding is about a node of the graph that is not exempt, passes every guard in the
    -- context that those before it leave, and is priced: it tells the rule, the project, location and
    -- kind of the node and the evidence of the rule, and its waste and confidence are those of a branch
    -- that reaches the floor, of which none has more waste, provided that the floats are ordered.
    pub eval_node_rule-Justified :
        Reach p.graph
        → (r : Run F) × (eval_node_rule f fmt ctx nr p ≡ some r) × Every IsJustified r.findings
    unfolding eval_node_rule
    eval_node_rule-Justified reached =
        let w = Reach-IsWellFormed reached in
        let ids = list_at nr.kind p.graph.by_kind in
        (
          visit (eval_node f fmt ctx nr p) (nodes_at p.graph.nodes ids) started,
          walk-visit (eval_node f fmt ctx nr p) p.graph.nodes ids started
              (by_kind-Present p.graph w nr.kind),
          visit_ind (eval_node f fmt ctx nr p) Justified (λ n. lookup n.id p.graph.nodes ≡ some n)
              (λ r n found j. eval_node-Justified r n found j) (nodes_at p.graph.nodes ids) started
              (nodes_at-Every p.graph w ids) tt,
        )
