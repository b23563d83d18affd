-- ===== src/Rules/Contract.antt =====
-- What a rule with one branch promises, apart from guards, contexts and the walk: the
-- nodes it holds idle, their price, and what it reports of them.
use tellury.Base.{
  ℕ, ◌+◌, String, Bool, true, false, ◌≡◌, refl, sym, ap, ◌∙◌, Option, none, some, List, [], ◌∷◌,
  ◌++◌, arith, if◌then◌else◌, Option-cases, Bool-cases, inl, inr, filter, all,
}
use mathlib.Core.List.{append_assoc, append-nil}
use tellury.Base.Dict.{list_at}
use tellury.Float.{Float64}
use tellury.Graph.Node.{Node, exempt, display}
use tellury.Graph.Reach.{Reach, Reach-IsWellFormed}
use tellury.Graph.Walk.{nodes_at, visit, walk-visit, by_kind-Present}
use tellury.Rules.Types.{Evidence, Finding, Pass, NodeContext, CostBranch, NodeRule, Formats}
use tellury.Rules.Adapt.{
  auto_collect, check_guards, pick_best, to_finding, report, price, eval_node, eval_node_rule, Run,
  started,
}

-- `U` is the type of the prices that the rule looks up.
pub record Contract (F U : Type 0) : Type 0 where
  pub rule_id : String
  pub idle : Node F → Bool
  pub price_of : Node F → Option U
  pub branch : Node F → U → CostBranch F
  pub evidence : Node F → U → List Evidence
  pub floor : F

module _ {F U : Type 0} (f : Float64 F) (c : Contract F U) where
  abbrev promised : Node F → U → Finding F
  promised n u = record {
    rule_id = c.rule_id;
    resource_id = n.id;
    resource = display n;
    kind = n.kind;
    project = n.project;
    location = n.location;
    severity = "";
    monthly_waste = (c.branch n u).waste;
    confidence = (c.branch n u).confidence;
    evidence = c.evidence n u;
    remediation = "";
  }

  -- What is reported of an idle node: nothing if it has no price or its waste is below the floor.
  abbrev promised_priced : Node F → List (Finding F)
  promised_priced n = elim (c.price_of n) [
    | none ↦ []
    | some u ↦ if f.le c.floor (c.branch n u).waste then promised n u ∷ [] else []
  ]

  -- A node is reported if it is not exempt, is idle and has a price, and its waste reaches the floor.
  abbrev pub promised_of : Node F → List (Finding F)
  promised_of n = if exempt n then [] else if c.idle n then promised_priced n else []

  abbrev pub promised_findings : List (Node F) → List (Finding F)
  promised_findings [] = []
  promised_findings (n ∷ ns) = promised_of n ++ promised_findings ns

-- Whether a guard failed.
abbrev pub refused : {A : Type 0} → Option String × A → Bool
refused (none, a) = false
refused (some code, a) = true

-- Every Boolean of a list that are all true.
abbrev pub AllOf : List Bool → Type 0
AllOf [] = Unit
AllOf (b ∷ bs) = (b ≡ true) × AllOf bs

pub all_of : (bs : List Bool) → all (λ b. b) bs ≡ true → AllOf bs
all_of [] h = tt
all_of (b ∷ bs) h = (ground arith, all_of bs (ground arith))

-- The guards refuse a node of which a condition fails that they ensure.
pub refused_unless :
    {A : Type 0} (idle : Bool) {o : Option String × A}
    → ((a : A) → o ≡ (none, a) → idle ≡ true)
    → idle ≡ false
    → refused o ≡ true
refused_unless idle {o = (none, a)} ensures busy = absurd (ground (arith, ensures a refl))
refused_unless idle {o = (some code, a)} ensures busy = refl

refused-code :
    {A : Type 0} (o : Option String × A) → refused o ≡ true → (code : String) × (o.0 ≡ some code)
refused-code (none, a) h = absurd (ground arith)
refused-code (some code, a) h = (code, refl)

module _ {F U V E : Type 0} (f : Float64 F) (fmt : Formats F) (ctx : ℕ → Bool) (nr : NodeRule F V E)
    (p : Pass F E) (c : Contract F U) where
  -- The guards let the idle nodes pass, and no others, the cost offers one branch where there is a
  -- price, and the evidence is that of the contract. `noted` is what the guards leave in the context,
  -- and `stash` what the cost leaves.
  pub record Implements : Type 0 where
    pub noted : Node F → NodeContext V
    pub stash : Node F → U → NodeContext V
    pub same_id : nr.meta.id ≡ c.rule_id
    pub same_floor : nr.min_waste ≡ c.floor
    pub refuses : (n : Node F) → c.idle n ≡ false → refused (check_guards nr.guards n [] p) ≡ true
    pub accepts : (n : Node F) → c.idle n ≡ true → check_guards nr.guards n [] p ≡ (none, noted n)
    pub unpriced :
        (t : ℕ) (n : Node F)
        → c.idle n ≡ true
        → c.price_of n ≡ none
        → (nr.cost t n (noted n) p).1 ≡ none
    pub offers :
        (t : ℕ) (n : Node F) (u : U)
        → c.idle n ≡ true
        → c.price_of n ≡ some u
        → nr.cost t n (noted n) p ≡ (stash n u, some (c.branch n u ∷ []))
    pub tells :
        (n : Node F) (u : U)
        → c.idle n ≡ true
        → c.price_of n ≡ some u
        → auto_collect fmt nr.evidence_keys n ++ nr.extra_evidence n (stash n u) (c.branch n u)
          ≡ c.evidence n u

  module _ (live : (t : ℕ) → ctx t ≡ false) (i : Implements) where
    to_finding-promised :
        (n : Node F) (u : U)
        → c.idle n ≡ true
        → c.price_of n ≡ some u
        → to_finding f fmt ctx nr p n (i.stash n u) (c.branch n u) ≡ promised f c n u
    unfolding to_finding
    to_finding-promised n u idle found =
        ap
          (λ id. record (to_finding f fmt ctx nr p n (i.stash n u) (c.branch n u)) { rule_id = id })
          i.same_id
        ∙ ap (λ e. record (promised f c n u) { evidence = e }) (i.tells n u idle found)

    report-promised :
        (r : Run F) (n : Node F) (u : U)
        → c.idle n ≡ true
        → c.price_of n ≡ some u
        → (report f fmt ctx nr p r n
            (i.stash n u)
            (filter (λ b. f.le nr.min_waste b.waste) (c.branch n u ∷ []))).findings
          ≡ r.findings ++ (if f.le c.floor (c.branch n u).waste then promised f c n u ∷ [] else [])
    unfolding report pick_best
    report-promised r n u idle found =
        rw i.same_floor (elim (Bool-cases (f.le c.floor (c.branch n u).waste)) [
          | inl above ↦
              rw (above, report)
                (ap (λ fd. r.findings ++ fd ∷ []) (to_finding-promised n u idle found))
          | inr below ↦ rw (below, report) (sym (append-nil r.findings))
        ])

    price-promised :
        (r : Run F) (n : Node F)
        → c.idle n ≡ true
        → ((price f fmt ctx nr p r n (i.noted n)).0.findings ≡ r.findings ++ promised_priced f c n)
          × ((price f fmt ctx nr p r n (i.noted n)).1 ≡ true)
    unfolding price report to_finding pick_best
    price-promised r n idle = elim (Option-cases (c.price_of n)) [
      | inl missing ↦
          rw (i.unpriced r.reads n idle missing, price, live r.reads)
            (rw (missing, promised_priced) (sym (append-nil r.findings)), refl)
      | inr (u, found) ↦
          let offered = i.offers r.reads n u idle found in
          rw (ap (λ o. o.1) offered, price)
            (
              rw (ap (λ o. o.0) offered, found, promised_priced) (report-promised r n u idle found),
              refl,
            )
    ]

    eval_node-promised :
        (r : Run F) (n : Node F)
        → ((eval_node f fmt ctx nr p r n).0.findings ≡ r.findings ++ promised_of f c n)
          × ((eval_node f fmt ctx nr p r n).1 ≡ true)
    unfolding eval_node
    eval_node-promised r n = elim (Bool-cases (exempt n)) [
      | inl kept ↦ rw (live r.reads, kept, eval_node) (sym (append-nil r.findings), refl)
      | inr not_exempt ↦ elim (Bool-cases (c.idle n)) [
        | inl idle ↦
            let passed = i.accepts n idle in
            rw
              (
                live r.reads,
                not_exempt,
                idle,
                ap (λ o. o.0) passed,
                ap (λ o. o.1) passed,
                eval_node,
              )
              (price-promised (record r { reads = r.reads + 1 }) n idle)
        | inr busy ↦
            rw (live r.reads, not_exempt, (refused-code _ (i.refuses n busy)).1, busy, eval_node)
              (sym (append-nil r.findings), refl)
      ]
    ]

    visit-promised :
        (ns : List (Node F)) (r : Run F)
        → (visit (eval_node f fmt ctx nr p) ns r).findings ≡ r.findings ++ promised_findings f c ns
    unfolding visit
    visit-promised [] r = sym (append-nil r.findings)
    visit-promised (n ∷ ns) r =
        let (reported, more) = eval_node-promised r n in
        rw (more, visit)
          (visit-promised ns (eval_node f fmt ctx nr p r n).0
            ∙ ap (λ fds. fds ++ promised_findings f c ns) reported
            ∙ append_assoc r.findings (promised_of f c n) (promised_findings f c ns))

    -- On a graph that the API reaches, with a context that is never cancelled, a rule that
    -- implements a contract reports what the contract promises of the nodes of its kind, in their order.
    pub findings-Contract :
        Reach p.graph
        → (r : Run F) × (eval_node_rule f fmt ctx nr p ≡ some r)
          × (r.findings
              ≡ promised_findings f c (nodes_at p.graph.nodes (list_at nr.kind p.graph.by_kind)))
    unfolding eval_node_rule
    findings-Contract reached =
        let w = Reach-IsWellFormed reached in
        let ids = list_at nr.kind p.graph.by_kind in
        (
          visit (eval_node f fmt ctx nr p) (nodes_at p.graph.nodes ids) started,
          walk-visit (eval_node f fmt ctx nr p) p.graph.nodes ids started
              (by_kind-Present p.graph w nr.kind),
          visit-promised (nodes_at p.graph.nodes ids) started,
        )
