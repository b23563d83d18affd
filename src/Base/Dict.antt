-- ===== src/Base/Dict.antt =====
-- Go maps keyed by strings, as association lists with one entry for each key. The order of the
-- entries stands for the order in which a `range` visits them, which Go leaves open.
use Prim.Native.Nat.{◌+◌}
use Prim.Native.String.{String}
use mathlib.Core.Path.{◌≡◌, refl}
use mathlib.Core.Bool.{Bool, true, false}
use mathlib.Core.Option.{Option, none, some}
use mathlib.Core.List.{List, [], ◌∷◌, ◌++◌}
use native.Mathlib.Omega.{arith}
use text.Mathlib.TextEquality.{eq_iff}
use tellury.Base.Tests.{if◌then◌else◌}
use tellury.Base.Lists.{length}
use tellury.Base.Text.{str_eq}

abbrev pub Dict {ℓ} : Type ℓ → Type ℓ
Dict V = List (String × V)

module _ {ℓ} {V : Type ℓ} where
  -- `m[k]` with its `ok`
  unfoldable pub lookup : String → Dict V → Option V
  lookup k [] = none
  lookup k ((j, v) ∷ m) = let rest = lookup k m in if str_eq j k then some v else rest

  -- `m[k] = v`
  unfoldable pub insert : String → V → Dict V → Dict V
  insert k v [] = (k, v) ∷ []
  insert k v ((j, w) ∷ m) =
      let rest = insert k v m in if str_eq j k then (k, v) ∷ m else (j, w) ∷ rest

  -- `m[k]` where a missing key reads as the zero value.
  unfoldable pub get_or : String → V → Dict V → V
  unfolding lookup
  get_or k d m = elim (lookup k m) [ none ↦ d | some v ↦ v ]

  abbrev pub has_key : String → Dict V → Bool
  has_key k m = elim (lookup k m) [ none ↦ false | some _ ↦ true ]

  abbrev pub keys : Dict V → List String
  keys [] = []
  keys ((k, _) ∷ m) = k ∷ keys m

  abbrev pub NodupKeys : Dict V → Type ℓ
  NodupKeys [] = Unit
  NodupKeys ((k, _) ∷ m) = (lookup k m ≡ none) × NodupKeys m

  pub lookup-insert :
      (j k : String) (v : V) (m : Dict V)
      → lookup j (insert k v m) ≡ (if str_eq k j then some v else lookup j m)
  unfolding lookup insert
  lookup-insert j k v [] = refl
  lookup-insert j k v ((i, w) ∷ m) =
      ground (arith, eq_iff k j, eq_iff i k, eq_iff i j, lookup-insert j k v m)

  pub insert-NodupKeys : (k : String) (v : V) (m : Dict V) → NodupKeys m → NodupKeys (insert k v m)
  unfolding insert lookup
  insert-NodupKeys k v [] u = (refl, tt)
  insert-NodupKeys k v ((j, w) ∷ m) (fresh, u) =
      ground (arith, eq_iff j k, eq_iff k j, insert-NodupKeys k v m u, lookup-insert j k v m)

  pub length-insert :
      (k : String) (v : V) (m : Dict V)
      → length (insert k v m) ≡ (if has_key k m then length m else length m + 1)
  unfolding insert lookup
  length-insert k v [] = refl
  length-insert k v ((j, w) ∷ m) = ground (arith, length-insert k v m)

-- Every value of the map replaced by a function of its key and itself.
module _ {ℓ κ} {V : Type ℓ} {W : Type κ} (f : String → V → W) where
  unfoldable pub map_values : Dict V → Dict W
  map_values [] = []
  map_values ((k, v) ∷ m) = (k, f k v) ∷ map_values m

  pub lookup-map_values :
      (k : String) (m : Dict V)
      → lookup k (map_values m) ≡ (elim (lookup k m) [ none ↦ none | some v ↦ some (f k v) ])
  unfolding lookup map_values
  lookup-map_values k [] = refl
  lookup-map_values k ((j, v) ∷ m) = ground (arith, eq_iff j k, lookup-map_values k m)

  pub map_values-NodupKeys : (m : Dict V) → NodupKeys m → NodupKeys (map_values m)
  unfolding map_values
  map_values-NodupKeys [] u = tt
  map_values-NodupKeys ((k, v) ∷ m) (fresh, u) =
      (ground (arith, lookup-map_values k m), map_values-NodupKeys m u)

module _ {ℓ} {V : Type ℓ} where
  -- `m[k]` of a map of slices, where a missing key reads as the nil slice.
  abbrev pub list_at : String → Dict (List V) → List V
  list_at k m = get_or k [] m

  -- `m[k] = append(m[k], v)`
  unfoldable pub push : String → V → Dict (List V) → Dict (List V)
  push k v m = insert k (list_at k m ++ v ∷ []) m

  pub list_at-push :
      (j k : String) (v : V) (m : Dict (List V))
      → list_at j (push k v m) ≡ (if str_eq k j then list_at j m ++ v ∷ [] else list_at j m)
  unfolding push get_or
  list_at-push j k v m = ground (arith, eq_iff k j, lookup-insert j k (list_at k m ++ v ∷ []) m)

  pub push-NodupKeys :
      (k : String) (v : V) (m : Dict (List V)) → NodupKeys m → NodupKeys (push k v m)
  unfolding push
  push-NodupKeys k v m u = insert-NodupKeys k (list_at k m ++ v ∷ []) m u

  pub list_at-map_values :
      (f : String → List V → List V) (k : String) (m : Dict (List V))
      → f k [] ≡ []
      → list_at k (map_values f m) ≡ f k (list_at k m)
  unfolding get_or
  list_at-map_values f k m h = ground (arith, lookup-map_values f k m)
