-- ===== src/Rules/Registry.antt =====
-- pkg/rules/registry.go: the registry of rules, what the flags select of it, and the data that a
-- selection needs. A rule is its meta data and its `Eval`, of type `A`. A call of `Register` that
-- panics is `none`. The mutex makes each operation one step.
use tellury.Base.{
  String, Bool, true, not, Option, none, some, List, [], ◌∷◌, ◌++◌, filter, str_eq, str_ltb,
  if◌then◌else◌,
}
use tellury.Base.Sort
use tellury.Base.Dict.{Dict, lookup, insert, has_key, keys}
use tellury.Base.Names.{sort_names}
use tellury.Base.Trim.{trim_space}
use tellury.Rules.Types.{Meta}

pub record Rule (A : Type 0) : Type 0 where
  pub meta : Meta
  pub eval : A

pub data Selection (A : Type 0) : Type 0 where
  chosen : List (Rule A) → Selection A
  unknown_rule : String → Selection A

module _ {A : Type 0} where
  unfoldable pub register : Dict (Rule A) → Rule A → Option (Dict (Rule A))
  unfolding insert
  register registry r =
      if str_eq r.meta.id ""
      then none
      else if has_key r.meta.id registry
      then none
      else some (insert r.meta.id r registry)

  -- The values of the map, in the order in which `range` visits it.
  unfoldable pub values : Dict (Rule A) → List (Rule A)
  values [] = []
  values ((_, r) ∷ m) = r ∷ values m

  abbrev pub rule_less : Rule A → Rule A → Bool
  rule_less a b = str_ltb a.meta.id b.meta.id

  unfoldable pub list_rules : Dict (Rule A) → List (Rule A)
  unfolding values
  list_rules registry = Sort.sort rule_less (values registry)

  unfoldable pub get : Dict (Rule A) → String → Option (Rule A)
  unfolding lookup
  get registry id = lookup id registry

  -- The map `byID` of `Select`.
  unfoldable pub index_rules : Dict (Rule A) → List (Rule A) → Dict (Rule A)
  unfolding insert
  index_rules by_id [] = by_id
  index_rules by_id (r ∷ rs) = index_rules (insert r.meta.id r by_id) rs

  -- The loop over the included ids, with the rules chosen so far.
  unfoldable pub pick_rules : Dict (Rule A) → List String → List (Rule A) → Selection A
  unfolding lookup trim_space
  pick_rules by_id [] rules = chosen rules
  pick_rules by_id (id ∷ include) rules = elim (lookup (trim_space id) by_id) [
    | none ↦ unknown_rule id
    | some r ↦ pick_rules by_id include (rules ++ r ∷ [])
  ]

-- The set of the excluded ids.
unfoldable pub skip_set : Dict Bool → List String → Dict Bool
unfolding insert trim_space
skip_set skip [] = skip
skip_set skip (id ∷ exclude) = skip_set (insert (trim_space id) true skip) exclude

module _ {A : Type 0} where
  unfoldable pub drop_rules : List String → List (Rule A) → List (Rule A)
  unfolding skip_set
  drop_rules [] rules = rules
  drop_rules (id ∷ exclude) rules =
      let skip = skip_set [] (id ∷ exclude) in filter (λ r. not (has_key r.meta.id skip)) rules

  unfoldable pub pick : Dict (Rule A) → String → List String → Selection A
  unfolding pick_rules list_rules index_rules
  pick registry provider [] =
      chosen (filter (λ r. str_eq r.meta.provider provider) (list_rules registry))
  pick registry provider (id ∷ include) =
      pick_rules (index_rules [] (list_rules registry)) (id ∷ include) []

  unfoldable pub select : Dict (Rule A) → String → List String → List String → Selection A
  unfolding pick drop_rules
  select registry provider include exclude = elim (pick registry provider include) [
    | unknown_rule id ↦ unknown_rule id
    | chosen rules ↦ chosen (drop_rules exclude rules)
  ]

-- `m[k] = true` for every name of a list.
unfoldable pub mark : List String → Dict Bool → Dict Bool
unfolding insert
mark [] m = m
mark (k ∷ ks) m = mark ks (insert k true m)

unfoldable pub sorted_keys : Dict Bool → List String
sorted_keys m = sort_names (keys m)

module _ {A : Type 0} where
  -- The loop of `Plan`, over one of the two sets.
  unfoldable pub marked : (Meta → List String) → List (Rule A) → Dict Bool → Dict Bool
  unfolding mark
  marked needs [] m = m
  marked needs (r ∷ rs) m = marked needs rs (mark (needs r.meta) m)

  unfoldable pub plan : List (Rule A) → List String × List String
  unfolding marked sorted_keys
  plan rs = (
    sorted_keys (marked (λ m. m.required_asset_types) rs []),
    sorted_keys (marked (λ m. m.required_metrics) rs []),
  )
