-- ===== src/Base/Sort/Blocks.antt =====
-- Blocks of elements that are ranked against each other may be inserted in either order.
use mathlib.Core.Path.{◌≡◌, refl, ap, ◌∙◌}
use mathlib.Core.Bool.{Bool, true, ◌||◌}
use mathlib.Core.List.{List, [], ◌∷◌, ◌++◌, foldr}
use native.Mathlib.Omega.{arith}
use tellury.Base.Lists.{Every}
use tellury.Base.Sort.{insert, sort, IsWeakOrder}

module _ {ℓ} {A : Type ℓ} {less : A → A → Bool} (o : IsWeakOrder less) where
  insert_ranked :
      (a b : A) (xs : List A)
      → (less a b || less b a) ≡ true
      → insert less a (insert less b xs) ≡ insert less b (insert less a xs)
  unfolding insert
  insert_ranked a b [] ranked = ground (arith, o.asym a b, o.asym b a)
  insert_ranked a b (y ∷ ys) ranked =
      ground
        (arith, o.asym a b, o.asym b a, o.neg_trans b a y, o.neg_trans a b y, insert_ranked a b ys)

  pub sort-append : (xs ys : List A) → sort less (xs ++ ys) ≡ foldr (insert less) (sort less ys) xs
  unfolding sort
  sort-append [] ys = refl
  sort-append (x ∷ xs) ys = ap (insert less x) (sort-append xs ys)

  insert_past :
      (a : A) (ys zs : List A)
      → Every (λ y. (less a y || less y a) ≡ true) ys
      → insert less a (foldr (insert less) zs ys) ≡ foldr (insert less) (insert less a zs) ys
  insert_past a [] zs r = refl
  insert_past a (y ∷ ys) zs (ranked, r) =
      insert_ranked a y (foldr (insert less) zs ys) ranked
      ∙ ap (insert less y) (insert_past a ys zs r)

  -- Two blocks whose elements are ranked against each other change places.
  pub insert_blocks :
      (xs ys zs : List A)
      → Every (λ x. Every (λ y. (less x y || less y x) ≡ true) ys) xs
      → foldr (insert less) (foldr (insert less) zs ys) xs
        ≡ foldr (insert less) (foldr (insert less) zs xs) ys
  insert_blocks [] ys zs r = refl
  insert_blocks (x ∷ xs) ys zs (rx, r) =
      ap (insert less x) (insert_blocks xs ys zs r)
      ∙ insert_past x ys (foldr (insert less) zs xs) rx
