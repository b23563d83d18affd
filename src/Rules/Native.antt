-- ===== src/Rules/Native.antt =====
-- pkg/rules/adapt.go: a node rule as a rule of the registry.
use tellury.Base.{ℕ, Bool, Option}
use tellury.Base.Dict.{Dict}
use tellury.Float.{Float64}
use tellury.Rules.Types.{Pass, NodeRule, Formats}
use tellury.Rules.Adapt.{Run, eval_node_rule}
use tellury.Rules.Registry.{Rule, register}

module _ {F V E : Type 0} (f : Float64 F) (fmt : Formats F) where
  unfoldable pub adapt_node_rule : NodeRule F V E → Rule ((ℕ → Bool) → Pass F E → Option (Run F))
  unfolding eval_node_rule
  adapt_node_rule nr = record {
    meta = record nr.meta { target_kind = nr.kind };
    eval = λ ctx p. eval_node_rule f fmt ctx nr p;
  }

  unfoldable pub register_node :
      Dict (Rule ((ℕ → Bool) → Pass F E → Option (Run F)))
      → NodeRule F V E
      → Option (Dict (Rule ((ℕ → Bool) → Pass F E → Option (Run F))))
  unfolding adapt_node_rule register
  register_node registry nr = register registry (adapt_node_rule nr)
