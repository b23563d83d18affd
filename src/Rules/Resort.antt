-- ===== src/Rules/Resort.antt =====
-- `SortFindings` on what `Run` returns.
use tellury.Base.{
  String, false, true, ◌≡◌, refl, ap, ◌∙◌, List, str_eq, str_ltb, eq_iff, str_asym, if_ind, arith,
}
use mathlib.Core.List.{Perm}
use mathlib.Core.List.Perm
use tellury.Base.Sort
use tellury.Base.Sort.{sort-perm, sort-sort, sort-IsSorted}
use tellury.Base.Sort.Pairs.{Pairs, sorted-Pairs}
use tellury.Float.{Float64, IsOrdered}
use tellury.Rules.Types.{Finding}
use tellury.Rules.Order.{
  waste_less, default_less, resource_less, rule_less, sort_findings, waste_less-IsWeakOrder,
  resource_less-IsWeakOrder, rule_less-IsWeakOrder,
}
use tellury.Rules.Engine.{Engine, Result, conclude}

module _ {F : Type 0} where
  -- By resource, and by rule where the resource is the same.
  abbrev pub ByResource : Finding F → Finding F → Type 0
  ByResource a b =
      (str_ltb b.resource a.resource ≡ false)
      × (a.resource ≡ b.resource → str_ltb b.rule_id a.rule_id ≡ false)

  -- By rule, and by resource where the rule is the same.
  abbrev pub ByRule : Finding F → Finding F → Type 0
  ByRule a b =
      (str_ltb b.rule_id a.rule_id ≡ false)
      × (a.rule_id ≡ b.rule_id → str_ltb b.resource a.resource ≡ false)

  -- The greater waste first, and `ByResource` where the waste is the same.
  abbrev pub ByWaste : Float64 F → Finding F → Finding F → Type 0
  ByWaste f a b =
      (f.lt a.monthly_waste b.monthly_waste ≡ false)
      × (f.eq b.monthly_waste a.monthly_waste ≡ true → ByResource a b)

  less-ByResource : (a b : Finding F) → resource_less b a ≡ false → ByResource a b
  unfolding resource_less
  less-ByResource a b h = (
    ground (arith, eq_iff b.resource a.resource, str_asym b.resource a.resource),
    λ same. ground (arith, eq_iff b.resource a.resource, same),
  )

  less-ByRule : (a b : Finding F) → rule_less b a ≡ false → ByRule a b
  unfolding rule_less
  less-ByRule a b h = (
    ground (arith, eq_iff b.rule_id a.rule_id, str_asym b.rule_id a.rule_id),
    λ same. ground (arith, eq_iff b.rule_id a.rule_id, same),
  )

module _ {F : Type 0} (f : Float64 F) where
  less-ByWaste : IsOrdered f → (a b : Finding F) → waste_less f b a ≡ false → ByWaste f a b
  unfolding waste_less resource_less
  less-ByWaste o a b h = (
    ground (arith, o.eq_gt b.monthly_waste a.monthly_waste),
    λ same. less-ByResource a b (ground arith),
  )

  default_less-waste_less : default_less f ≡ waste_less f
  unfolding default_less waste_less
  default_less-waste_less = refl

  sort_findings-perm : (fs : List (Finding F)) (order : String) → Perm (sort_findings f fs order) fs
  unfolding sort_findings
  sort_findings-perm fs order =
      if_ind (λ l. Perm l fs) (str_eq order "resource") (λ _. sort-perm resource_less fs)
        λ _.
          if_ind (λ l. Perm l fs) (str_eq order "rule") (λ _. sort-perm rule_less fs)
            λ _. sort-perm (default_less f) fs

  -- Provided that the floats are ordered, `SortFindings` keeps the findings that `Run` returns, no more
  -- and no less, whatever order is asked for; by resource, ties are by rule, and by rule, ties are by
  -- resource. `Run` returns the findings with the greater waste first, ties by resource and then by
  -- rule, and `SortFindings` by waste leaves them as they are.
  pub sort_findings-conclude :
      IsOrdered f
      → (e : Engine) (res : Result F)
      → let returned = (conclude f e res).0.findings in
        ((order : String) → Perm (sort_findings f returned order) res.findings)
        × Pairs ByResource (sort_findings f returned "resource")
        × Pairs ByRule (sort_findings f returned "rule")
        × Pairs (ByWaste f) returned
        × (sort_findings f returned "waste" ≡ returned)
  unfolding conclude sort_findings
  sort_findings-conclude o e res =
      let returned = Sort.sort (waste_less f) res.findings in
      (
        λ order.
            Perm.trans (sort_findings-perm returned order) (sort-perm (waste_less f) res.findings),
        sorted-Pairs resource_less ByResource less-ByResource _
            (sort-IsSorted resource_less-IsWeakOrder returned),
        sorted-Pairs rule_less ByRule less-ByRule _ (sort-IsSorted rule_less-IsWeakOrder returned),
        sorted-Pairs (waste_less f) (ByWaste f) (less-ByWaste o) _
            (sort-IsSorted (waste_less-IsWeakOrder o) res.findings),
        ap (λ less. Sort.sort less returned) default_less-waste_less
            ∙ sort-sort (waste_less-IsWeakOrder o) res.findings,
      )
