-- ===== src/Base/Sort.antt =====
-- Go's `sort`: a list ordered by a function `less`. The insertion sort is stable, as
-- `sort.SliceStable` is. `sort.Slice` and `sort.Strings` may return any ordered rearrangement,
-- and where `less` is total, `sort-perm_invariant` shows that there is only one.
pub mod Blocks
pub mod Pairs
use Prim.Native.Nat.{suc}
use mathlib.Core.Path.{◌≡◌, refl, ap, ◌∙◌}
use mathlib.Core.Logic.{inl, inr, ∥∥₁_elim}
use mathlib.Core.Bool.{Bool, true, false, ◌&&◌, ◌||◌}
use mathlib.Core.List.{List, [], ◌∷◌, ◌++◌, foldr, Perm, Permᴰ, Mem, mem-cons_self, mem-cons_of_mem}
use mathlib.Core.List.Perm
use mathlib.Core.List.Permᴰ as PermD
use native.Mathlib.Omega.{arith}
use tellury.Base.Tests.{if◌then◌else◌, Bool-cases, if_ind}
use tellury.Base.Lists.{length, all, any, filter, Every}
use tellury.Base.Text.{str_ltb, str_asym, str_neg_trans}

module _ {ℓ} {A : Type ℓ} (less : A → A → Bool) where
  -- `x` goes in front of the first element that is not below it.
  unfoldable pub insert : A → List A → List A
  insert x [] = x ∷ []
  insert x (y ∷ ys) = let rest = insert x ys in if less y x then y ∷ rest else x ∷ y ∷ ys

  unfoldable pub sort : List A → List A
  unfolding insert
  sort xs = foldr insert [] xs

  -- What `sort` needs of `less` for its result to be ordered: a strict weak order.
  pub record IsWeakOrder : Type ℓ where
    pub asym : (a b : A) → less a b ≡ true → less b a ≡ false
    pub neg_trans : (a b c : A) → less b a ≡ false → less c b ≡ false → less c a ≡ false

  -- No element of `xs` is below `a`.
  abbrev pub IsBound : A → List A → Type 0
  IsBound a [] = Unit
  IsBound a (x ∷ xs) = (less x a ≡ false) × IsBound a xs

  abbrev pub IsSorted : List A → Type 0
  IsSorted [] = Unit
  IsSorted (x ∷ xs) = IsBound x xs × IsSorted xs

  pub insert-perm : (x : A) (xs : List A) → Perm (insert x xs) (x ∷ xs)
  unfolding insert
  insert-perm x [] = Perm.rfl
  insert-perm x (y ∷ ys) = elim (Bool-cases (less y x)) [
    | inl below ↦
        rw (below, insert) (Perm.trans (Perm.cons y (insert-perm x ys)) (Perm.swap x y ys))
    | inr above ↦ rw (above, insert) Perm.rfl
  ]

  pub sort-perm : (xs : List A) → Perm (sort xs) xs
  unfolding sort
  sort-perm [] = Perm.rfl
  sort-perm (x ∷ xs) = Perm.trans (insert-perm x (sort xs)) (Perm.cons x (sort-perm xs))

  all-insert : (p : A → Bool) (x : A) (xs : List A) → all p (insert x xs) ≡ (p x && all p xs)
  unfolding insert
  all-insert p x [] = refl
  all-insert p x (y ∷ ys) = ground (arith, all-insert p x ys)

  pub all-sort : (p : A → Bool) (xs : List A) → all p (sort xs) ≡ all p xs
  unfolding sort
  all-sort p [] = refl
  all-sort p (x ∷ xs) = ground (arith, all-insert p x (sort xs), all-sort p xs)

  any-insert : (p : A → Bool) (x : A) (xs : List A) → any p (insert x xs) ≡ (p x || any p xs)
  unfolding insert
  any-insert p x [] = refl
  any-insert p x (y ∷ ys) = ground (arith, any-insert p x ys)

  pub any-sort : (p : A → Bool) (xs : List A) → any p (sort xs) ≡ any p xs
  unfolding sort
  any-sort p [] = refl
  any-sort p (x ∷ xs) = ground (arith, any-insert p x (sort xs), any-sort p xs)

  insert-Every {κ} :
      (P : A → Type κ) (x : A) (xs : List A) → P x → Every P xs → Every P (insert x xs)
  unfolding insert
  insert-Every P x [] px h = (px, tt)
  insert-Every P x (y ∷ ys) px (py, h) =
      if_ind (Every P) (less y x) (λ _. (py, insert-Every P x ys px h)) (λ _. (px, (py, h)))

  pub sort-Every {κ} : (P : A → Type κ) (xs : List A) → Every P xs → Every P (sort xs)
  unfolding sort
  sort-Every P [] h = tt
  sort-Every P (x ∷ xs) (px, h) = insert-Every P x (sort xs) px (sort-Every P xs h)

  length-insert : (x : A) (xs : List A) → length (insert x xs) ≡ suc (length xs)
  unfolding insert
  length-insert x [] = refl
  length-insert x (y ∷ ys) = ground (arith, length-insert x ys)

  pub length-sort : (xs : List A) → length (sort xs) ≡ length xs
  unfolding sort
  length-sort [] = refl
  length-sort (x ∷ xs) = omega (arith, length-insert x (sort xs), length-sort xs)

  insert_bound : (x : A) (xs : List A) → IsBound x xs → insert x xs ≡ x ∷ xs
  unfolding insert
  insert_bound x [] h = refl
  insert_bound x (y ∷ ys) h = ground arith

  -- An ordered list is left as it is.
  pub sort_of_IsSorted : (xs : List A) → IsSorted xs → sort xs ≡ xs
  unfolding sort
  sort_of_IsSorted [] h = refl
  sort_of_IsSorted (x ∷ xs) h = ap (insert x) (sort_of_IsSorted xs h.1) ∙ insert_bound x xs h.0

module _ {ℓ} {A : Type ℓ} {less : A → A → Bool} (o : IsWeakOrder less) where
  IsBound-mono : (a b : A) (xs : List A) → less b a ≡ false → IsBound less b xs → IsBound less a xs
  IsBound-mono a b [] h bound = tt
  IsBound-mono a b (x ∷ xs) h bound = (o.neg_trans a b x h bound.0, IsBound-mono a b xs h bound.1)

  IsBound-insert :
      (a x : A) (xs : List A)
      → less x a ≡ false
      → IsBound less a xs
      → IsBound less a (insert less x xs)
  unfolding insert
  IsBound-insert a x [] h bound = (h, tt)
  IsBound-insert a x (y ∷ ys) h bound = ground (arith, IsBound-insert a x ys)

  insert-IsSorted : (x : A) (xs : List A) → IsSorted less xs → IsSorted less (insert less x xs)
  unfolding insert
  insert-IsSorted x [] s = (tt, tt)
  insert-IsSorted x (y ∷ ys) s = elim (Bool-cases (less y x)) [
    | inl below ↦
        rw (below, insert) (IsBound-insert y x ys (o.asym y x below) s.0, insert-IsSorted x ys s.1)
    | inr above ↦ rw (above, insert) ((above, IsBound-mono x y ys above s.0), s)
  ]

  pub sort-IsSorted : (xs : List A) → IsSorted less (sort less xs)
  unfolding sort
  sort-IsSorted [] = tt
  sort-IsSorted (x ∷ xs) = insert-IsSorted x (sort less xs) (sort-IsSorted xs)

  pub sort-sort : (xs : List A) → sort less (sort less xs) ≡ sort less xs
  sort-sort xs = sort_of_IsSorted less (sort less xs) (sort-IsSorted xs)

  insert-filter_no :
      (p : A → Bool) (x : A) (xs : List A) → p x ≡ false → filter p (insert less x xs) ≡ filter p xs
  unfolding insert
  insert-filter_no p x [] h = ground arith
  insert-filter_no p x (y ∷ ys) h = ground (arith, insert-filter_no p x ys h)

  IsBound-filter :
      (p : A → Bool) (a : A) (xs : List A) → IsBound less a xs → IsBound less a (filter p xs)
  IsBound-filter p a [] h = tt
  IsBound-filter p a (x ∷ xs) h = ground (arith, IsBound-filter p a xs h.1)

  insert-filter :
      (p : A → Bool) (x : A) (xs : List A)
      → p x ≡ true
      → IsSorted less xs
      → filter p (insert less x xs) ≡ insert less x (filter p xs)
  unfolding insert
  insert-filter p x [] h s = ground arith
  insert-filter p x (y ∷ ys) h s = elim (Bool-cases (less y x)) [
    | inl below ↦ ground (arith, insert-filter p x ys h s.1)
    | inr above ↦ ground (
      arith,
      insert_bound less x (filter p ys) (IsBound-filter p x ys (IsBound-mono x y ys above s.0)),
    )
  ]

  -- To keep a part of an ordered list is to order the part.
  pub filter-sort : (p : A → Bool) (xs : List A) → filter p (sort less xs) ≡ sort less (filter p xs)
  unfolding sort
  filter-sort p [] = refl
  filter-sort p (x ∷ xs) = elim (Bool-cases (p x)) [
    | inl kept ↦
        insert-filter p x (sort less xs) kept (sort-IsSorted xs)
        ∙ rw (kept, filter) (ap (insert less x) (filter-sort p xs))
    | inr dropped ↦
        insert-filter_no p x (sort less xs) dropped ∙ rw (dropped, filter) (filter-sort p xs)
  ]

-- Among the elements of `P` no two are of one rank. The order of the input is then forgotten.
module _ {ℓ κ} {A : Type ℓ} {less : A → A → Bool} (o : IsWeakOrder less) (P : A → Type κ)
    (total : (a b : A) → P a → P b → less a b ≡ false → less b a ≡ false → a ≡ b) where
  insert_comm :
      (a b : A) (xs : List A)
      → P a
      → P b
      → insert less a (insert less b xs) ≡ insert less b (insert less a xs)
  unfolding insert
  insert_comm a b [] pa pb = ground (arith, o.asym a b, o.asym b a, total a b pa pb)
  insert_comm a b (y ∷ ys) pa pb = ground (
    arith,
    o.asym a b,
    o.asym b a,
    total a b pa pb,
    o.neg_trans b a y,
    o.neg_trans a b y,
    insert_comm a b ys pa pb,
  )

  sort-permᴰ :
      {xs ys : List A} → Permᴰ xs ys → ((x : A) → Mem x xs → P x) → sort less xs ≡ sort less ys
  unfolding sort
  sort-permᴰ Permᴰ.nil h = refl
  sort-permᴰ (Permᴰ.cons {a} {b} {l₁} {l₂} e p) h =
      cc (sort-permᴰ p (λ x m. h x (mem-cons_of_mem a m)))
  sort-permᴰ (Permᴰ.swap {a} {b} {a'} {b'} {l} e f) h =
      cc (insert_comm a b (sort less l) (h a mem-cons_self) (h b (mem-cons_of_mem a mem-cons_self)))
  sort-permᴰ (Permᴰ.trans {l₁} {l₂} {l₃} p q) h =
      sort-permᴰ p h ∙ sort-permᴰ q (λ x m. h x (PermD.mem (PermD.symm p) m))

  pub sort-perm_invariant :
      IsSet A
      → {xs ys : List A} → Perm xs ys
      → ((x : A) → Mem x xs → P x)
      → sort less xs ≡ sort less ys
  sort-perm_invariant s p h =
      ∥∥₁_elim p (let t : IsSet (List A) = hlevel s in t _ _) (λ d. sort-permᴰ d h)

pub str_order : IsWeakOrder str_ltb
str_order = record { asym = str_asym; neg_trans = str_neg_trans }
