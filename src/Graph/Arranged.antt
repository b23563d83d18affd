-- ===== src/Graph/Arranged.antt =====
-- The edges of a graph after `Freeze`.
use tellury.Base.{String, Bool, false, ◌≡◌, sym, List, str_ltb, eq_iff, str_asym, filter, arith}
use mathlib.Core.List.{Perm}
use mathlib.Core.Path.{subst}
use tellury.Base.Sort.{sort-perm, sort-IsSorted}
use tellury.Base.Sort.Pairs.{Pairs, sorted-Pairs}
use tellury.Base.Dict.{has_key}
use tellury.Graph.Node.{Edge}
use tellury.Graph.Build.{Graph, edge_less, freeze}
use tellury.Graph.Query.{out, inward}
use tellury.Graph.Prune.{pruned, edge_order}
use tellury.Graph.Sealed.{out-freeze, inward-freeze}

-- The kind of `a` is not above that of `b`, and if they are of one kind, neither is its endpoint.
abbrev pub InOrder : (Edge → String) → Edge → Edge → Type 0
InOrder endpoint a b =
    (str_ltb b.kind a.kind ≡ false) × (a.kind ≡ b.kind → str_ltb (endpoint b) (endpoint a) ≡ false)

-- The edges of which the endpoint is a node, each as often as before, by kind and endpoint.
abbrev pub IsArranged : (String → Bool) → (Edge → String) → (before after : List Edge) → Type 0
IsArranged exists endpoint before after =
    Perm after (filter (λ e. exists (endpoint e)) before) × Pairs (InOrder endpoint) after

less-InOrder :
    (endpoint : Edge → String) (a b : Edge) → edge_less endpoint b a ≡ false → InOrder endpoint a b
unfolding edge_less
less-InOrder endpoint a b h = (
  ground (arith, eq_iff b.kind a.kind, str_asym b.kind a.kind),
  λ same. ground (arith, eq_iff b.kind a.kind, same),
)

pruned-IsArranged :
    (exists : String → Bool) (endpoint : Edge → String) (edges : List Edge)
    → IsArranged exists endpoint edges (pruned exists endpoint edges)
pruned-IsArranged exists endpoint edges =
    let kept = filter (λ e. exists (endpoint e)) edges in
    (
      sort-perm (edge_less endpoint) kept,
      sorted-Pairs (edge_less endpoint) (InOrder endpoint) (less-InOrder endpoint) _
          (sort-IsSorted (edge_order endpoint) kept),
    )

-- After `Freeze` of a graph that is not frozen, the edges out of an id are those of before that end at
-- a node, by kind and then by target, and the edges into it are those of before that begin at a node,
-- by kind and then by origin.
pub freeze-IsArranged :
    {F : Type 0} (g : Graph F) (id : String)
    → g.frozen ≡ false
    → IsArranged (λ j. has_key j g.nodes) (λ e. e.to) (out g id) (out (freeze g) id)
      × IsArranged (λ j. has_key j g.nodes) (λ e. e.from) (inward g id) (inward (freeze g) id)
freeze-IsArranged g id thawed = (
  subst (IsArranged (λ j. has_key j g.nodes) (λ e. e.to) (out g id)) (sym (out-freeze g id thawed))
      (pruned-IsArranged (λ j. has_key j g.nodes) (λ e. e.to) (out g id)),
  subst (IsArranged (λ j. has_key j g.nodes) (λ e. e.from) (inward g id))
      (sym (inward-freeze g id thawed))
      (pruned-IsArranged (λ j. has_key j g.nodes) (λ e. e.from) (inward g id)),
)
