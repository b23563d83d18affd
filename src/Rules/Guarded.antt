-- ===== src/Rules/Guarded.antt =====
-- What it tells that a node passes the guards of a rule (pkg/rules/adapt.go).
use tellury.Base.{true, ◌≡◌, ap, none, List, [], ◌∷◌, arith, Bool-cases, inl, inr}
use tellury.Graph.Node.{Node}
use tellury.Rules.Types.{Pass, NodeContext, Guard}
use tellury.Rules.Adapt.{check_guards}

module _ {F V E : Type 0} (n : Node F) (p : Pass F E) where
  -- Every check of the list holds in the context that those before it leave, and `nc'` is what the
  -- last one leaves.
  abbrev pub Passes : List (Guard F V E) → NodeContext V → NodeContext V → Type 0
  Passes [] nc nc' = nc ≡ nc'
  Passes (g ∷ gs) nc nc' = ((g.check n nc p).0 ≡ true) × Passes gs (g.check n nc p).1 nc'

  pub check_guards-Passes :
      (gs : List (Guard F V E)) (nc nc' : NodeContext V)
      → check_guards gs n nc p ≡ (none, nc')
      → Passes gs nc nc'
  unfolding check_guards
  check_guards-Passes [] nc nc' h = ap (λ o. o.1) h
  check_guards-Passes (g ∷ gs) nc nc' h = elim (Bool-cases (g.check n nc p).0) [
    | inl holds ↦ (holds, check_guards-Passes gs (g.check n nc p).1 nc' (rw holds at h))
    | inr fails ↦ absurd (ground (arith, ap (λ o. o.0) (rw fails at h)))
  ]
