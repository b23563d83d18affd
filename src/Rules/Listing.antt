-- ===== src/Rules/Listing.antt =====
-- `List`, `Plan` and `MetricsBlocked` do not show the order in which Go visits a map.
use tellury.Base.{
  str_eq_refl, String, Bool, true, ◌||◌, ◌≡◌, refl, ap, ◌∙◌, some, List, [], ◌∷◌, arith, any,
  str_ltb, eq_iff, Every,
}
use tellury.Base.Sort
use tellury.Base.Sort.{str_order, IsSorted, IsWeakOrder, sort-IsSorted, sort-perm_invariant}
use tellury.Base.Dict.{
  Dict, lookup, insert, has_key, keys, NodupKeys, lookup-insert, insert-NodupKeys,
}
use tellury.Base.Names.{
  IsSetOf, contains, sort_names, contains-sort, sort-Distinct, contains-keys, keys-Distinct,
}
use tellury.Rules.Types.{Meta}
use tellury.Rules.Registry.{Rule, mark, marked, sorted_keys, plan, rule_less, values, list_rules}
use tellury.Rules.Selection.{IsRegistry, IsListed, names, list_rules-Every}

pub sorted_keys-IsSetOf : (m : Dict Bool) → NodupKeys m → IsSetOf (λ k. has_key k m) (sorted_keys m)
unfolding sorted_keys
sorted_keys-IsSetOf m u = (
  sort-IsSorted str_order (keys m),
  sort-Distinct (keys m) (keys-Distinct m u),
  λ k. contains-sort k (keys m) ∙ contains-keys k m,
)

pub mark-NodupKeys : (ks : List String) (m : Dict Bool) → NodupKeys m → NodupKeys (mark ks m)
unfolding mark
mark-NodupKeys [] m u = u
mark-NodupKeys (k ∷ ks) m u = mark-NodupKeys ks (insert k true m) (insert-NodupKeys k true m u)

pub has_key-mark :
    (k : String) (ks : List String) (m : Dict Bool)
    → has_key k (mark ks m) ≡ (contains k ks || has_key k m)
unfolding mark
has_key-mark k [] m = refl
has_key-mark k (j ∷ ks) m =
    ground (arith, lookup-insert k j true m, has_key-mark k ks (insert j true m))

module _ {A : Type 0} (needs : Meta → List String) where
  marked-NodupKeys :
      (rs : List (Rule A)) (m : Dict Bool) → NodupKeys m → NodupKeys (marked needs rs m)
  unfolding marked
  marked-NodupKeys [] m u = u
  marked-NodupKeys (r ∷ rs) m u =
      marked-NodupKeys rs (mark (needs r.meta) m) (mark-NodupKeys (needs r.meta) m u)

  has_key-marked :
      (k : String) (rs : List (Rule A)) (m : Dict Bool)
      → has_key k (marked needs rs m) ≡ (any (λ r. contains k (needs r.meta)) rs || has_key k m)
  unfolding marked
  has_key-marked k [] m = refl
  has_key-marked k (r ∷ rs) m =
      ground (arith, has_key-mark k (needs r.meta) m, has_key-marked k rs (mark (needs r.meta) m))

  marked-IsSetOf :
      (rs : List (Rule A))
      → IsSetOf (λ k. any (λ r. contains k (needs r.meta)) rs) (sorted_keys (marked needs rs []))
  unfolding lookup
  marked-IsSetOf rs =
      let (sorted, distinct, complete) =
        sorted_keys-IsSetOf (marked needs rs []) (marked-NodupKeys rs [] tt) in
      (sorted, distinct, λ k. complete k ∙ ground (arith, has_key-marked k rs []))

-- `Plan` returns the asset types and the metric keys that some rule of the list requires, each
-- once, in order.
pub plan-IsSetOf :
    {A : Type 0} (rs : List (Rule A))
    → IsSetOf (λ k. any (λ (r : Rule A). contains k r.meta.required_asset_types) rs) (plan rs).0
      × IsSetOf (λ k. any (λ (r : Rule A). contains k r.meta.required_metrics) rs) (plan rs).1
unfolding plan
plan-IsSetOf rs =
    (marked-IsSetOf (λ m. m.required_asset_types) rs, marked-IsSetOf (λ m. m.required_metrics) rs)

module _ {A : Type 0} (registry : Dict (Rule A)) (w : IsRegistry registry) where
  names-values :
      (m : Dict (Rule A))
      → NodupKeys m
      → ((id : String) (r : Rule A) → lookup id m ≡ some r → r.meta.id ≡ id)
      → names (values m) ≡ keys m
  unfolding values lookup
  names-values [] u keyed = refl
  names-values ((k, r) ∷ m) (fresh, u) keyed =
      let rest = names-values m u (λ j s h. keyed j s (ground (arith, eq_iff k j))) in
      cc (keyed k r (ground (arith, str_eq_refl k)), rest)

  names-insert :
      (r : Rule A) (rs : List (Rule A))
      → names (Sort.insert rule_less r rs) ≡ Sort.insert str_ltb r.meta.id (names rs)
  unfolding Sort.insert
  names-insert r [] = refl
  names-insert r (s ∷ rs) = ground (arith, names-insert r rs)

  names-sort : (rs : List (Rule A)) → names (Sort.sort rule_less rs) ≡ sort_names (names rs)
  unfolding Sort.sort
  names-sort [] = refl
  names-sort (r ∷ rs) =
      names-insert r (Sort.sort rule_less rs) ∙ ap (Sort.insert str_ltb r.meta.id) (names-sort rs)

  names-list_rules : names (list_rules registry) ≡ sort_names (keys registry)
  unfolding list_rules
  names-list_rules =
      names-sort (values registry) ∙ ap sort_names (names-values registry w.nodup w.keyed)

  -- `List` returns the rules of a well-formed registry, each once, in the order of their ids.
  pub list_rules-IsSetOf :
      IsSetOf (λ id. has_key id registry) (names (list_rules registry))
      × Every (IsListed registry) (list_rules registry)
  list_rules-IsSetOf = (
    rw names-list_rules (
      sort-IsSorted str_order (keys registry),
      sort-Distinct (keys registry) (keys-Distinct registry w.nodup),
      λ k. contains-sort k (keys registry) ∙ contains-keys k registry,
    ),
    list_rules-Every registry w,
  )
