-- ===== src/Base/Names.antt =====
-- Lists of names without repetition: node ids, rule ids, keys of a set.
use Prim.Native.String.{String}
use mathlib.Core.Path.{◌≡◌, refl, ap, ◌∙◌}
use mathlib.Core.Bool.{Bool, false, ◌||◌, ◌&&◌}
use mathlib.Core.List.{List, [], ◌∷◌, ◌++◌}
use native.Mathlib.Omega.{arith}
use text.Mathlib.TextEquality.{eq_iff}
use tellury.Base.Text.{str_eq, str_ltb}
use tellury.Base.Sort
use tellury.Base.Sort.{IsSorted, str_order, sort-IsSorted, filter-sort}
use tellury.Base.Lists.{filter}
use tellury.Base.Dict.{Dict, lookup, has_key, keys, NodupKeys}

abbrev pub contains : String → List String → Bool
contains a [] = false
contains a (x ∷ xs) = str_eq x a || contains a xs

abbrev pub Distinct : List String → Type 0
Distinct [] = Unit
Distinct (x ∷ xs) = (contains x xs ≡ false) × Distinct xs

pub contains-append :
    (a : String) (xs ys : List String) → contains a (xs ++ ys) ≡ (contains a xs || contains a ys)
contains-append a [] ys = refl
contains-append a (x ∷ xs) ys = ground (arith, contains-append a xs ys)

pub Distinct-snoc :
    (a : String) (xs : List String) → contains a xs ≡ false → Distinct xs → Distinct (xs ++ a ∷ [])
Distinct-snoc a [] h d = (refl, tt)
Distinct-snoc a (x ∷ xs) h d =
    ground (arith, eq_iff x a, eq_iff a x, contains-append x xs (a ∷ []), Distinct-snoc a xs)

abbrev pub sort_names : List String → List String
sort_names = Sort.sort str_ltb

contains-insert :
    (a x : String) (xs : List String)
    → contains a (Sort.insert str_ltb x xs) ≡ (str_eq x a || contains a xs)
unfolding Sort.insert
contains-insert a x [] = refl
contains-insert a x (y ∷ ys) = ground (arith, contains-insert a x ys)

pub contains-sort : (a : String) (xs : List String) → contains a (sort_names xs) ≡ contains a xs
unfolding Sort.sort
contains-sort a [] = refl
contains-sort a (x ∷ xs) = ground (arith, contains-insert a x (sort_names xs), contains-sort a xs)

insert-Distinct :
    (x : String) (xs : List String)
    → contains x xs ≡ false
    → Distinct xs
    → Distinct (Sort.insert str_ltb x xs)
unfolding Sort.insert
insert-Distinct x [] h d = (refl, tt)
insert-Distinct x (y ∷ ys) h d =
    ground (arith, eq_iff x y, eq_iff y x, contains-insert y x ys, insert-Distinct x ys)

pub sort-Distinct : (xs : List String) → Distinct xs → Distinct (sort_names xs)
unfolding Sort.sort
sort-Distinct [] d = tt
sort-Distinct (x ∷ xs) d =
    insert-Distinct x (sort_names xs) (contains-sort x xs ∙ d.0) (sort-Distinct xs d.1)

pub contains-keys {ℓ} : {V : Type ℓ} (k : String) (m : Dict V) → contains k (keys m) ≡ has_key k m
unfolding lookup
contains-keys k [] = refl
contains-keys k ((j, v) ∷ m) = ground (arith, contains-keys k m)

pub keys-Distinct {ℓ} : {V : Type ℓ} (m : Dict V) → NodupKeys m → Distinct (keys m)
keys-Distinct [] u = tt
keys-Distinct ((k, v) ∷ m) (fresh, u) = (ground (arith, contains-keys k m), keys-Distinct m u)

-- A list of names, each once, in order, and the names it has: there is only one such list.
abbrev pub IsSetOf : (String → Bool) → List String → Type 0
IsSetOf p ks = IsSorted str_ltb ks × Distinct ks × ((k : String) → contains k ks ≡ p k)

contains-filter :
    (p : String → Bool) (k : String) (xs : List String)
    → contains k (filter p xs) ≡ (contains k xs && p k)
contains-filter p k [] = refl
contains-filter p k (x ∷ xs) = ground (arith, eq_iff x k, contains-filter p k xs)

filter-Distinct : (p : String → Bool) (xs : List String) → Distinct xs → Distinct (filter p xs)
filter-Distinct p [] d = tt
filter-Distinct p (x ∷ xs) d = ground (arith, contains-filter p x xs, filter-Distinct p xs)

-- The keys of a map that pass a test, in order.
pub filter-keys-IsSetOf {ℓ} :
    {V : Type ℓ} (p : String → Bool) (m : Dict V)
    → NodupKeys m
    → IsSetOf (λ k. has_key k m && p k) (filter p (sort_names (keys m)))
filter-keys-IsSetOf p m u = rw (filter-sort str_order p (keys m)) (
  sort-IsSorted str_order (filter p (keys m)),
  sort-Distinct (filter p (keys m)) (filter-Distinct p (keys m) (keys-Distinct m u)),
  λ k.
      contains-sort k (filter p (keys m))
      ∙ contains-filter p k (keys m)
      ∙ ap (λ b. b && p k) (contains-keys k m),
)
