-- ===== src/Rules/Passing.antt =====
-- The usual shapes of the guards of the rules under pkg/rules/gcp, aws and azure.
use tellury.Base.{
  ℕ, String, Bool, true, false, ◌≡◌, sym, ap, ◌∙◌, filter, Every, if◌then◌else◌, Option, none, some,
  List, [], ◌∷◌, arith, Bool-cases, inl, inr,
}
use tellury.Float.{Float64, IsOrdered, Numeric}
use tellury.Graph.Node.{Node}
use tellury.Rules.Types.{Finding, Pass, NodeContext, Guard, CostBranch, NodeRule, Formats, set}
use tellury.Rules.Adapt.{pick_best, to_finding, Run, eval_node_rule}
use tellury.Rules.Justified.{IsJustified, eval_node_rule-Justified}
use tellury.Graph.Reach.{Reach}
use tellury.Rules.Toolbox.{Std, Stash, instant, stashed_instant, days_since}

module _ {F E : Type 0} where
  -- A guard that does not use the context.
  abbrev pub plain : String → String → (Node F → Pass F E → Bool) → Guard F (Stash F) E
  plain name code test = record { skip_code = code; name = name; check = λ n nc p. (test n p, nc) }

  -- A guard that keeps an instant it reads from the node under a key, and fails if there is none.
  abbrev pub timed : String → String → String → (Node F → Option ℕ) → Guard F (Stash F) E
  timed name code key read = record {
    skip_code = code;
    name = name;
    check =
        λ n nc p. elim (read n) [ none ↦ (false, nc) | some t ↦ (true, set nc key (instant t)) ];
  }

-- A guard on the whole days since the instant that an earlier guard kept under `created_at`: below
-- `least` it fails, and otherwise `note` keeps the days. There always is such an instant.
module _ {F E : Type 0} (x : Numeric F) (std : Std F) where
  abbrev pub aged :
      String
      → String
      → F
      → (F → NodeContext (Stash F) → NodeContext (Stash F))
      → Guard F (Stash F) E
  aged name code least note = record {
    skip_code = code;
    name = name;
    check = λ n nc p. elim (stashed_instant nc "created_at") [
      | none ↦ (false, nc)
      | some created_at ↦
          let days = x.floor (days_since x std p.now created_at) in
          if x.order.lt days least then (false, nc) else (true, note days nc)
    ];
  }

-- What is picked of a list, if it is not empty.
pick_of : {F : Type 0} → Float64 F → CostBranch F → List (CostBranch F) → CostBranch F
unfolding pick_best
pick_of f d [] = d
pick_of f d (b ∷ bs) = pick_best f b bs

answer_or : {A B : Type 0} → List B → A × Option (List B) → List B
answer_or d (a, none) = d
answer_or d (a, some bs) = bs

-- The one branch of a list is what is picked of it.
only_branch :
    {F : Type 0} (f : Float64 F) (floor : F) (b first best : CostBranch F)
    (keep : List (CostBranch F))
    → filter (λ c. f.le floor c.waste) (b ∷ []) ≡ first ∷ keep
    → best ≡ pick_best f first keep
    → best ≡ b
unfolding pick_of pick_best
only_branch f floor b first best keep kept picked = elim (Bool-cases (f.le floor b.waste)) [
  | inl survives ↦
      let same : b ∷ [] ≡ first ∷ keep = rw survives at kept in picked ∙ sym (ap (pick_of f b) same)
  | inr dropped ↦ absurd (ground (arith, rw dropped at kept))
]

-- If the cost of a justified finding offered one branch, it is what the finding reports, with the
-- context that the cost leaves.
pub one_branch :
    {F V E : Type 0} {f : Float64 F} {fmt : Formats F} {ctx : ℕ → Bool} {nr : NodeRule F V E}
    {p : Pass F E} {fd : Finding F} (j : IsJustified f fmt ctx nr p fd) {stash : NodeContext V}
    {b : CostBranch F}
    → ◌≡◌ {A = NodeContext V × Option (List (CostBranch F))}
        (stash, some (b ∷ []))
        (j.after, some j.branches)
    → (fd ≡ to_finding f fmt ctx nr p j.node stash b) × (f.le nr.min_waste b.waste ≡ true)
unfolding answer_or
one_branch {f = f} {fmt = fmt} {ctx = ctx} {nr = nr} {p = p} j {stash = stash} {b = b} offered =
    let same =
      only_branch f nr.min_waste b j.first j.best j.keep
        (ap (λ bs. filter (λ c. f.le nr.min_waste c.waste) bs) (ap (answer_or []) offered) ∙ j.kept)
        j.picked in
    (
      j.reported
          ∙ ap (λ nc. to_finding f fmt ctx nr p j.node nc j.best) (sym (ap (λ o. o.0) offered))
          ∙ ap (λ c. to_finding f fmt ctx nr p j.node stash c) same,
      sym (ap (λ c. f.le nr.min_waste c.waste) same) ∙ j.above,
    )

Every-map {ℓ κ} :
    {A : Type ℓ} {P Q : A → Type κ}
    → ((a : A) → P a → Q a)
    → (xs : List A) → Every P xs
    → Every Q xs
Every-map f [] e = e
Every-map f (a ∷ rest) (e, es) = (f a e, Every-map f rest es)

-- What every justified finding of a rule has, all its findings have, on a graph that the API
-- reaches, whatever the context answers, provided that the floats are ordered.
pub eval_node_rule-Every :
    {F V E : Type 0} {f : Float64 F} (o : IsOrdered f) (fmt : Formats F) (ctx : ℕ → Bool)
    (nr : NodeRule F V E) (p : Pass F E) {Q : Finding F → Type 0}
    → Reach p.graph
    → ((fd : Finding F) → IsJustified f fmt ctx nr p fd → Q fd)
    → (r : Run F) × (eval_node_rule f fmt ctx nr p ≡ some r) × Every Q r.findings
eval_node_rule-Every {f = f} o fmt ctx nr p reached holds =
    let (r, ran, justified) = eval_node_rule-Justified f fmt ctx nr p o reached in
    (r, ran, Every-map holds r.findings justified)
