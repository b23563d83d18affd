-- ===== src/Rules/Selection.antt =====
-- What `Register`, `List` and `Select` give.
use tellury.Base.{
  if_ind, String, Bool, true, false, ◌||◌, ◌≡◌, refl, sym, ap, ◌∙◌, Option, none, some, List, [],
  ◌∷◌, ◌++◌, arith, any, all, str_eq, eq_iff, str_eq_refl, if◌then◌else◌, map, Every, Option-cases,
  inl, inr,
}
use mathlib.Core.List.{append_assoc, append-nil}
use tellury.Base.Sort
use tellury.Base.Dict.{Dict, lookup, insert, has_key, NodupKeys, lookup-insert, insert-NodupKeys}
use tellury.Base.Names.{contains}
use tellury.Base.Trim.{trim_space}
use tellury.Rules.Registry.{
  Rule, chosen, unknown_rule, register, values, rule_less, list_rules, get, index_rules, pick_rules,
}

module _ {A : Type 0} where
  -- No id is registered twice, each rule stands under its own id, and none is empty.
  pub record IsRegistry (registry : Dict (Rule A)) : Type 0 where
    pub nodup : NodupKeys registry
    pub keyed : (id : String) (r : Rule A) → lookup id registry ≡ some r → r.meta.id ≡ id
    pub no_empty_id : has_key "" registry ≡ false

  pub empty-IsRegistry : IsRegistry []
  unfolding lookup
  empty-IsRegistry = record { nodup = tt; keyed = λ id r h. ground arith; no_empty_id = refl }

  -- What a call of `Register` does: a panic, or a registry with one rule more.
  abbrev pub Registered : Dict (Rule A) → Rule A → Option (Dict (Rule A)) → Type 0
  Registered registry r none = (str_eq r.meta.id "" || has_key r.meta.id registry) ≡ true
  Registered registry r (some registry') =
      (has_key r.meta.id registry ≡ false)
      × IsRegistry registry'
      × ((id : String)
          → get registry' id ≡ (if str_eq r.meta.id id then some r else get registry id))

  -- From a well-formed registry, `Register` panics only for an id that is empty or taken. Otherwise it keeps the registry well
  -- formed, and `Get` finds the new rule under its id and what it found before under any other.
  pub register-IsRegistry :
      (registry : Dict (Rule A)) (r : Rule A)
      → IsRegistry registry
      → Registered registry r (register registry r)
  unfolding register get
  register-IsRegistry registry r w =
      if_ind (Registered registry r) (str_eq r.meta.id "") (λ unnamed. ground arith)
        λ named.
          if_ind (Registered registry r) (has_key r.meta.id registry) (λ dup. ground arith)
            λ new. (
              new,
              record {
                nodup = insert-NodupKeys r.meta.id r registry w.nodup;
                keyed = λ id s h. ground (
                  arith,
                  lookup-insert id r.meta.id r registry,
                  w.keyed id s,
                  eq_iff r.meta.id id,
                );
                no_empty_id = ground (arith, lookup-insert "" r.meta.id r registry, w.no_empty_id);
              },
              λ id. lookup-insert id r.meta.id r registry,
            )

-- The names of rules.
abbrev pub names : {A : Type 0} → List (Rule A) → List String
names rs = map (λ r. r.meta.id) rs

module _ {A : Type 0} (registry : Dict (Rule A)) where
  abbrev pub IsListed : Rule A → Type 0
  IsListed r = get registry r.meta.id ≡ some r

  -- Whether an id of a flag is registered.
  abbrev pub known : String → Bool
  known id = has_key (trim_space id) registry

module _ {A : Type 0} (registry : Dict (Rule A)) (w : IsRegistry registry) where
  values-Every :
      (m : Dict (Rule A))
      → NodupKeys m
      → ((id : String) (r : Rule A) → lookup id m ≡ some r → lookup id registry ≡ some r)
      → Every (IsListed registry) (values m)
  unfolding values lookup get
  values-Every [] u sub = tt
  values-Every ((k, r) ∷ m) (fresh, u) sub =
      let here : lookup k registry ≡ some r = sub k r (ground (arith, str_eq_refl k)) in
      (
        ap (λ j. lookup j registry) (w.keyed k r here) ∙ here,
        values-Every m u (λ id s h. sub id s (ground (arith, eq_iff k id))),
      )

  any-values :
      (m : Dict (Rule A)) (id : String)
      → NodupKeys m
      → ((j : String) (r : Rule A) → lookup j m ≡ some r → r.meta.id ≡ j)
      → any (λ r. str_eq r.meta.id id) (values m) ≡ has_key id m
  unfolding values lookup
  any-values [] id u keyed = refl
  any-values ((k, r) ∷ m) id (fresh, u) keyed =
      let here : r.meta.id ≡ k = keyed k r (ground (arith, str_eq_refl k)) in
      let rest = any-values m id u (λ j s h. keyed j s (ground (arith, eq_iff k j))) in
      ground (arith, here, rest)

  pub list_rules-Every : Every (IsListed registry) (list_rules registry)
  unfolding list_rules
  list_rules-Every =
      Sort.sort-Every rule_less (IsListed registry) (values registry)
        (values-Every registry w.nodup (λ id r h. h))

  pub any-list_rules :
      (id : String) → any (λ r. str_eq r.meta.id id) (list_rules registry) ≡ has_key id registry
  unfolding list_rules
  any-list_rules id =
      Sort.any-sort rule_less (λ r. str_eq r.meta.id id) (values registry)
      ∙ any-values registry id w.nodup w.keyed

  lookup-index_rules :
      (id : String) (rs : List (Rule A)) (by_id : Dict (Rule A))
      → Every (IsListed registry) rs
      → lookup id (index_rules by_id rs)
        ≡ (if any (λ r. str_eq r.meta.id id) rs then lookup id registry else lookup id by_id)
  unfolding index_rules get
  lookup-index_rules id [] by_id h = refl
  lookup-index_rules id (r ∷ rs) by_id (listed, h) = ground (
    arith,
    eq_iff r.meta.id id,
    lookup-insert id r.meta.id r by_id,
    lookup-index_rules id rs (insert r.meta.id r by_id) h,
    listed,
  )

  -- `byID` answers as the registry does.
  pub lookup-by_id :
      (id : String) → lookup id (index_rules [] (list_rules registry)) ≡ lookup id registry
  unfolding lookup
  lookup-by_id id =
      ground
        (arith, lookup-index_rules id (list_rules registry) [] list_rules-Every, any-list_rules id)

  pub pick_rules-unknown :
      (include : List String) (rs : List (Rule A)) (by_id : Dict (Rule A))
      → ((id : String) → lookup id by_id ≡ lookup id registry)
      → all (known registry) include ≡ false
      → (id : String) × (pick_rules by_id include rs ≡ unknown_rule id)
        × (known registry id ≡ false)
        × (contains id include ≡ true)
  unfolding pick_rules
  pick_rules-unknown [] rs by_id same h = absurd (ground arith)
  pick_rules-unknown (id ∷ include) rs by_id same h =
      elim (Option-cases (lookup (trim_space id) registry)) [
        | inl absent ↦
            (id, ground (arith, same (trim_space id)), ground arith, ground (arith, str_eq_refl id))
        | inr (r, found) ↦
            let (culprit, failed, unknown, included) =
              pick_rules-unknown include (rs ++ r ∷ []) by_id same (ground arith) in
            (culprit, ground (arith, same (trim_space id), failed), unknown, ground arith)
      ]

  pub pick_rules-known :
      (include : List String) (rs : List (Rule A)) (by_id : Dict (Rule A))
      → ((id : String) → lookup id by_id ≡ lookup id registry)
      → all (known registry) include ≡ true
      → (found : List (Rule A)) × (pick_rules by_id include rs ≡ chosen (rs ++ found))
        × (names found ≡ map trim_space include)
        × Every (IsListed registry) found
  unfolding pick_rules get
  pick_rules-known [] rs by_id same h = ([], ap chosen (sym (append-nil rs)), refl, tt)
  pick_rules-known (id ∷ include) rs by_id same h =
      elim (Option-cases (lookup (trim_space id) registry)) [
        | inl absent ↦ absurd (ground arith)
        | inr (r, found) ↦
            let (rest, picked, named, listed) =
              pick_rules-known include (rs ++ r ∷ []) by_id same (ground arith) in
            (
              r ∷ rest,
              ground (arith, same (trim_space id), picked, append_assoc rs (r ∷ []) rest),
              ground (arith, w.keyed (trim_space id) r, named),
              (ap (λ j. lookup j registry) (w.keyed (trim_space id) r found) ∙ found, listed),
            )
      ]
