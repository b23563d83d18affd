-- ===== src/Rules/Order.antt =====
-- pkg/rules/sort.go: the orders of a report, and `waste_less`, the order at the end of
-- pkg/rules/engine.go. A `SortOrder` is a string, as in Go, and an error of `ParseSortOrder` is `none`.
use tellury.Base.{
  String, Bool, true, false, not, ◌||◌, ◌&&◌, ◌≡◌, Option, none, some, List, arith, str_eq, str_ltb,
  eq_iff, str_asym, str_neg_trans, str_total, if◌then◌else◌,
}
use tellury.Base.Sort
use tellury.Base.Sort.{IsWeakOrder, str_order}
use tellury.Float.{Float64, IsOrdered}
use tellury.Rules.Types.{Finding}

unfoldable pub parse_sort_order : String → Option String
parse_sort_order s =
    if str_eq s "waste" || str_eq s "resource" || str_eq s "rule" then some s else none

module _ {F : Type 0} where
  unfoldable pub resource_less : Finding F → Finding F → Bool
  resource_less a b =
      if not (str_eq a.resource b.resource)
      then str_ltb a.resource b.resource
      else str_ltb a.rule_id b.rule_id

  unfoldable pub rule_less : Finding F → Finding F → Bool
  rule_less a b =
      if not (str_eq a.rule_id b.rule_id)
      then str_ltb a.rule_id b.rule_id
      else str_ltb a.resource b.resource

  unfoldable pub waste_less : Float64 F → Finding F → Finding F → Bool
  waste_less f a b =
      if not (f.eq a.monthly_waste b.monthly_waste)
      then f.lt b.monthly_waste a.monthly_waste
      else if not (str_eq a.resource b.resource)
      then str_ltb a.resource b.resource
      else str_ltb a.rule_id b.rule_id

  -- The default of `SortFindings`, which sort.go writes out once more.
  unfoldable pub default_less : Float64 F → Finding F → Finding F → Bool
  default_less f a b =
      if not (f.eq a.monthly_waste b.monthly_waste)
      then f.lt b.monthly_waste a.monthly_waste
      else if not (str_eq a.resource b.resource)
      then str_ltb a.resource b.resource
      else str_ltb a.rule_id b.rule_id

  unfoldable pub sort_findings : Float64 F → List (Finding F) → String → List (Finding F)
  unfolding resource_less rule_less default_less
  sort_findings f fs order =
      if str_eq order "resource"
      then Sort.sort resource_less fs
      else if str_eq order "rule"
      then Sort.sort rule_less fs
      else Sort.sort (default_less f) fs

module _ {F : Type 0} where
  pub resource_less-IsWeakOrder : IsWeakOrder (resource_less {F = F})
  unfolding resource_less
  resource_less-IsWeakOrder = record {
    asym = λ a b h. ground (
      arith,
      eq_iff a.resource b.resource,
      eq_iff b.resource a.resource,
      str_asym a.resource b.resource,
      str_asym a.rule_id b.rule_id,
    );
    neg_trans = λ a b c h k. ground (
      arith,
      eq_iff a.resource b.resource,
      eq_iff b.resource a.resource,
      eq_iff b.resource c.resource,
      eq_iff c.resource b.resource,
      eq_iff a.resource c.resource,
      eq_iff c.resource a.resource,
      str_total a.resource b.resource,
      str_asym a.resource b.resource,
      str_asym b.resource c.resource,
      str_total b.resource c.resource,
      str_neg_trans a.resource b.resource c.resource,
      str_neg_trans a.rule_id b.rule_id c.rule_id,
      str_neg_trans c.resource b.resource a.resource,
    );
  }

  pub rule_less-IsWeakOrder : IsWeakOrder (rule_less {F = F})
  unfolding rule_less
  rule_less-IsWeakOrder = record {
    asym = λ a b h. ground (
      arith,
      eq_iff a.rule_id b.rule_id,
      eq_iff b.rule_id a.rule_id,
      str_asym a.rule_id b.rule_id,
      str_asym a.resource b.resource,
    );
    neg_trans = λ a b c h k. ground (
      arith,
      eq_iff a.rule_id b.rule_id,
      eq_iff b.rule_id a.rule_id,
      eq_iff b.rule_id c.rule_id,
      eq_iff c.rule_id b.rule_id,
      eq_iff a.rule_id c.rule_id,
      eq_iff c.rule_id a.rule_id,
      str_total a.rule_id b.rule_id,
      str_asym a.rule_id b.rule_id,
      str_asym b.rule_id c.rule_id,
      str_total b.rule_id c.rule_id,
      str_neg_trans a.rule_id b.rule_id c.rule_id,
      str_neg_trans a.resource b.resource c.resource,
      str_neg_trans c.rule_id b.rule_id a.rule_id,
    );
  }

  -- `a == b` is neither `a < b` nor `b < a`.
  rank : {f : Float64 F} → IsOrdered f → (a b : F) → f.eq a b ≡ (not (f.lt a b) && not (f.lt b a))
  rank {f} o a b = ground (arith, o.eq-eq-not_lt a b, o.eq_lt a b, o.eq_gt a b)

  pub waste_less-IsWeakOrder : {f : Float64 F} → IsOrdered f → IsWeakOrder (waste_less f)
  unfolding waste_less resource_less
  waste_less-IsWeakOrder {f} o = record {
    asym = λ a b h. ground (
      arith,
      eq_iff a.resource b.resource,
      eq_iff b.resource a.resource,
      str_asym a.resource b.resource,
      str_asym a.rule_id b.rule_id,
      o.asym b.monthly_waste a.monthly_waste,
      o.asym a.monthly_waste b.monthly_waste,
      rank o a.monthly_waste b.monthly_waste,
      rank o b.monthly_waste a.monthly_waste,
    );
    neg_trans = λ a b c h k. ground (
      arith,
      rank o a.monthly_waste b.monthly_waste,
      rank o b.monthly_waste a.monthly_waste,
      rank o b.monthly_waste c.monthly_waste,
      rank o c.monthly_waste b.monthly_waste,
      rank o a.monthly_waste c.monthly_waste,
      rank o c.monthly_waste a.monthly_waste,
      o.neg_trans a.monthly_waste b.monthly_waste c.monthly_waste,
      o.neg_trans c.monthly_waste b.monthly_waste a.monthly_waste,
      o.neg_trans b.monthly_waste a.monthly_waste c.monthly_waste,
      o.neg_trans c.monthly_waste a.monthly_waste b.monthly_waste,
      o.neg_trans a.monthly_waste c.monthly_waste b.monthly_waste,
      o.neg_trans b.monthly_waste c.monthly_waste a.monthly_waste,
      o.asym a.monthly_waste b.monthly_waste,
      o.asym b.monthly_waste c.monthly_waste,
      o.asym a.monthly_waste c.monthly_waste,
      resource_less-IsWeakOrder.neg_trans a b c,
    );
  }

  -- Findings of different rules are always ranked.
  pub waste_less-total :
      {f : Float64 F}
      → IsOrdered f
      → (a b : Finding F) → str_eq a.rule_id b.rule_id ≡ false
      → (waste_less f a b || waste_less f b a) ≡ true
  unfolding waste_less
  waste_less-total {f} o a b h = ground (
    arith,
    eq_iff a.resource b.resource,
    eq_iff b.resource a.resource,
    eq_iff a.rule_id b.rule_id,
    str_total a.resource b.resource,
    str_total a.rule_id b.rule_id,
    o.eq-eq-not_lt a.monthly_waste b.monthly_waste,
    o.eq-eq-not_lt b.monthly_waste a.monthly_waste,
    o.eq_lt a.monthly_waste b.monthly_waste,
    o.eq_gt a.monthly_waste b.monthly_waste,
    o.eq_lt b.monthly_waste a.monthly_waste,
    o.eq_gt b.monthly_waste a.monthly_waste,
  )
