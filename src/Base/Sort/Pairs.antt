-- ===== src/Base/Sort/Pairs.antt =====
-- What an ordered list says of two of its elements.
use mathlib.Core.Path.{◌≡◌}
use mathlib.Core.Bool.{Bool, false}
use mathlib.Core.List.{List, [], ◌∷◌}
use tellury.Base.Lists.{Every}
use tellury.Base.Sort.{IsBound, IsSorted}

-- `R a b` holds of any two elements of which `a` stands in front.
abbrev pub Pairs {ℓ} : {A : Type ℓ} → (A → A → Type 0) → List A → Type 0
Pairs R [] = Unit
Pairs R (a ∷ rest) = Every (R a) rest × Pairs R rest

module _ {ℓ} {A : Type ℓ} (less : A → A → Bool) (R : A → A → Type 0)
    (apart : (a b : A) → less b a ≡ false → R a b) where
  bound-Every : (a : A) (xs : List A) → IsBound less a xs → Every (R a) xs
  bound-Every a [] h = tt
  bound-Every a (b ∷ rest) h = (apart a b h.0, bound-Every a rest h.1)

  pub sorted-Pairs : (xs : List A) → IsSorted less xs → Pairs R xs
  sorted-Pairs [] h = tt
  sorted-Pairs (a ∷ rest) h = (bound-Every a rest h.0, sorted-Pairs rest h.1)
