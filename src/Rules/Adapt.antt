-- ===== src/Rules/Adapt.antt =====
-- pkg/rules/adapt.go: the skeleton that evaluates a node rule. The n-th reading of `ctx.Err()`
-- finds an error if `ctx n` is true.
use tellury.Base.{
  ℕ, ◌+◌, String, Bool, true, false, Option, none, some, List, [], ◌∷◌, ◌++◌, filter, ltb,
  if◌then◌else◌,
}
use tellury.Base.Dict.{lookup}
use tellury.Float.{Float64}
use tellury.Graph.Node.{Node, exempt, display}
use tellury.Graph.Query.{walk, for_kind}
use tellury.Rules.Types.{
  Evidence, Finding, Skip, Pass, skip_node, NodeContext, CostBranch, Guard, NodeRule, Formats,
  exempt_label, no_price, below_min_waste,
}

unfoldable pub auto_collect : {F : Type 0} → Formats F → List String → Node F → List Evidence
unfolding lookup
auto_collect fmt [] n = []
auto_collect fmt (k ∷ keys) n =
    let rest = auto_collect fmt keys n in
    elim (lookup k n.attrs) [
      | some v ↦ record { key = k; value = fmt.show_value v } ∷ rest
      | none ↦ elim (lookup k n.metrics) [
        | none ↦ rest
        | some m ↦
            if ltb 0 m.samples
            then record { key = k; value = fmt.show_number m.value } ∷ rest
            else rest
      ]
    ]

-- The loop that picks the branch with the highest waste.
unfoldable pub pick_best :
    {F : Type 0} → Float64 F → CostBranch F → List (CostBranch F) → CostBranch F
pick_best f best [] = best
pick_best f best (b ∷ keep) = pick_best f (if f.lt best.waste b.waste then b else best) keep

module _ {F V E : Type 0} where
  -- The guards in order: the skip code of the first that fails, and the context that they leave.
  unfoldable pub check_guards :
      List (Guard F V E) → Node F → NodeContext V → Pass F E → Option String × NodeContext V
  check_guards [] n nc p = (none, nc)
  check_guards (g ∷ guards) n nc p =
      let (passed, nc') = g.check n nc p in
      let rest = check_guards guards n nc' p in if passed then rest else (some g.skip_code, nc')

-- What an evaluation has done: the readings of `ctx.Err()`, the findings, the calls of `Skip`.
pub record Run (F : Type 0) : Type 0 where
  pub reads : ℕ
  pub findings : List (Finding F)
  pub skips : List Skip

abbrev pub started : {F : Type 0} → Run F
started = record { reads = 0; findings = []; skips = [] }

module _ {F V E : Type 0} (f : Float64 F) (fmt : Formats F) (ctx : ℕ → Bool) (nr : NodeRule F V E)
    (p : Pass F E) where
  abbrev pub skipped : Run F → Node F → String → Run F
  skipped r n code = record r { skips = skip_node p nr.meta.id n.id code r.skips }

  unfoldable pub to_finding : Node F → NodeContext V → CostBranch F → Finding F
  unfolding auto_collect
  to_finding n nc best = record {
    rule_id = nr.meta.id;
    resource_id = n.id;
    resource = display n;
    kind = n.kind;
    project = n.project;
    location = n.location;
    severity = "";
    monthly_waste = best.waste;
    confidence = best.confidence;
    evidence = auto_collect fmt nr.evidence_keys n ++ nr.extra_evidence n nc best;
    remediation = "";
  }

  -- From the surviving branches on.
  unfoldable pub report : Run F → Node F → NodeContext V → List (CostBranch F) → Run F
  unfolding skip_node to_finding pick_best
  report r n nc [] = skipped r n below_min_waste
  report r n nc (b ∷ keep) = record r {
    findings = r.findings ++ to_finding n nc (pick_best f b keep) ∷ [];
  }

  -- From the call of `Cost` on. It is called at the moment of the last reading, and on an error the
  -- context is read once more.
  unfoldable pub price : Run F → Node F → NodeContext V → Run F × Bool
  unfolding report skip_node
  price r n nc =
      let (nc', branches) = nr.cost r.reads n nc p in
      elim branches [
        | none ↦
            let r' = record r { reads = r.reads + 1 } in
            if ctx r.reads then (r', false) else (skipped r' n no_price, true)
        | some bs ↦ (report r n nc' (filter (λ b. f.le nr.min_waste b.waste) bs), true)
      ]

  -- The callback that `ByKind` is given.
  unfoldable pub eval_node : Run F → Node F → Run F × Bool
  unfolding price check_guards skip_node exempt
  eval_node r n =
      let r' = record r { reads = r.reads + 1 } in
      let (failed, nc) = check_guards nr.guards n [] p in
      if ctx r.reads
      then (r', false)
      else if exempt n
      then (skipped r' n exempt_label, true)
      else (elim failed [ some code ↦ (skipped r' n code, true) | none ↦ price r' n nc ])

  unfoldable pub eval_node_rule : Option (Run F)
  unfolding walk eval_node
  eval_node_rule = for_kind p.graph nr.kind eval_node started
