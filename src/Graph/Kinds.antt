-- ===== src/Graph/Kinds.antt =====
-- The index by kind against the kinds of the nodes.
use tellury.Base.{
  String, true, ◌≡◌, some, [], ◌∷◌, arith, str_eq, eq_iff, if_ind, Option-cases, inl, inr,
}
use tellury.Base.Dict.{lookup, has_key, list_at, lookup-insert, list_at-push}
use tellury.Base.Names.{contains, contains-append}
use tellury.Graph.Node.{Node}
use tellury.Graph.Build.{Graph, Outcome, add_node, put_node}

module _ {F : Type 0} where
  -- The ids that stand under a kind are those of nodes of that kind.
  abbrev pub IsKinded : Graph F → Type 0
  IsKinded g =
      (k id : String) (n : Node F)
      → contains id (list_at k g.by_kind) ≡ true
      → lookup id g.nodes ≡ some n
      → n.kind ≡ k

  put_node-IsKinded :
      (g : Graph F) (n : Node F)
      → ((old : Node F) → lookup n.id g.nodes ≡ some old → old.kind ≡ n.kind)
      → ((k id : String) → contains id (list_at k g.by_kind) ≡ true → has_key id g.nodes ≡ true)
      → IsKinded g
      → IsKinded (put_node g n)
  unfolding put_node
  put_node-IsKinded g n same indexed kinded k id m h found =
      elim (Option-cases (lookup n.id g.nodes)) [
        | inl new ↦ ground (
          arith,
          kinded k id m,
          indexed k id,
          lookup-insert id n.id n g.nodes,
          list_at-push k n.kind n.id g.by_kind,
          contains-append id (list_at k g.by_kind) (n.id ∷ []),
          eq_iff n.id id,
          eq_iff n.kind k,
        )
        | inr (old, was) ↦ ground (
          arith,
          kinded k id m,
          kinded k id old,
          same old,
          lookup-insert id n.id n g.nodes,
          eq_iff n.id id,
        )
      ]

  -- `AddNode` keeps the index by kind right, provided that a node that it replaces is of the same kind.
  pub add_node-IsKinded :
      (g : Graph F) (n : Node F)
      → ((old : Node F) → lookup n.id g.nodes ≡ some old → old.kind ≡ n.kind)
      → ((k id : String) → contains id (list_at k g.by_kind) ≡ true → has_key id g.nodes ≡ true)
      → IsKinded g
      → IsKinded (add_node g (some n)).0
  unfolding add_node
  add_node-IsKinded g n same indexed kinded =
      if_ind (λ (o : Outcome F). IsKinded o.0) g.frozen (λ _. kinded)
        λ _.
          if_ind (λ (o : Outcome F). IsKinded o.0) (str_eq n.id "") (λ _. kinded)
            λ _. put_node-IsKinded g n same indexed kinded
