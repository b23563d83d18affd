-- ===== src/Base/Lists.antt =====
-- Lists measured by native numbers and cut down by Boolean tests.
use Prim.Native.Nat.{ℕ, suc, ◌+◌, ◌≤◌}
use mathlib.Core.Path.{◌≡◌, refl, sym, ap, ◌∙◌}
use mathlib.Core.Logic.{inl, inr, ∥∥₁_elim}
use mathlib.Core.Logic.Or
use mathlib.Core.Bool.{Bool, Bool-set, true, false, ◌&&◌, ◌||◌}
use mathlib.Core.List.{List, [], ◌∷◌, ◌++◌, Perm, Permᴰ, Perm-prop, Mem, mem-cons, not-mem-nil}
use mathlib.Core.List.Perm
use native.Mathlib.Nat.{ℕ_set}
use native.Mathlib.Omega.{arith}
use tellury.Base.Tests.{if◌then◌else◌, Bool-cases}

module _ {ℓ} {A : Type ℓ} where
  abbrev pub length : List A → ℕ
  length [] = 0
  length (x ∷ xs) = suc (length xs)

  pub length-append : (xs ys : List A) → length (xs ++ ys) ≡ length xs + length ys
  length-append [] ys = omega arith
  length-append (x ∷ xs) ys = omega (arith, length-append xs ys)

  -- The elements that pass the test, in their order.
  abbrev pub filter : (A → Bool) → List A → List A
  filter p [] = []
  filter p (x ∷ xs) = let rest = filter p xs in if p x then x ∷ rest else rest

  abbrev pub any : (A → Bool) → List A → Bool
  any p [] = false
  any p (x ∷ xs) = p x || any p xs

  abbrev pub all : (A → Bool) → List A → Bool
  all p [] = true
  all p (x ∷ xs) = p x && all p xs

  pub filter-append :
      (p : A → Bool) (xs ys : List A) → filter p (xs ++ ys) ≡ filter p xs ++ filter p ys
  filter-append p [] ys = refl
  filter-append p (x ∷ xs) ys = ground (arith, filter-append p xs ys)

  pub all-append : (p : A → Bool) (xs ys : List A) → all p (xs ++ ys) ≡ (all p xs && all p ys)
  all-append p [] ys = refl
  all-append p (x ∷ xs) ys = ground (arith, all-append p xs ys)

  pub filter-all : (p : A → Bool) (xs : List A) → all p xs ≡ true → filter p xs ≡ xs
  filter-all p [] h = refl
  filter-all p (x ∷ xs) h = ground (arith, filter-all p xs)

  pub all-filter : (p : A → Bool) (xs : List A) → all p (filter p xs) ≡ true
  all-filter p [] = refl
  all-filter p (x ∷ xs) = ground (arith, all-filter p xs)

  pub filter-filter : (p : A → Bool) (xs : List A) → filter p (filter p xs) ≡ filter p xs
  filter-filter p xs = filter-all p (filter p xs) (all-filter p xs)

  pub length-filter-le : (p : A → Bool) (xs : List A) → length (filter p xs) ≤ length xs
  length-filter-le p [] = omega arith
  length-filter-le p (x ∷ xs) = ground (arith, length-filter-le p xs)

  pub all-filter_of_all :
      (p q : A → Bool) (xs : List A) → all q xs ≡ true → all q (filter p xs) ≡ true
  all-filter_of_all p q [] h = refl
  all-filter_of_all p q (x ∷ xs) h = ground (arith, all-filter_of_all p q xs)

  filter-swap :
      (p : A → Bool) (a b : A) (l : List A) → Perm (filter p (a ∷ b ∷ l)) (filter p (b ∷ a ∷ l))
  filter-swap p a b l = elim (Bool-cases (p a)) [
    | inl h ↦ elim (Bool-cases (p b)) [
      | inl k ↦ rw (h, k) (Perm.swap b a (filter p l))
      | inr k ↦ rw (h, k) Perm.rfl
    ]
    | inr h ↦ rw h Perm.rfl
  ]

  filter-permᴰ : (p : A → Bool) {xs ys : List A} → Permᴰ xs ys → Perm (filter p xs) (filter p ys)
  filter-permᴰ p Permᴰ.nil = Perm.rfl
  filter-permᴰ p (Permᴰ.cons {a} {b} {l₁} {l₂} e d) = elim (Bool-cases (p a)) [
    | inl h ↦ rw (h, sym (ap p e) ∙ h) (Perm.cons' e (filter-permᴰ p d))
    | inr h ↦ rw (h, sym (ap p e) ∙ h) (filter-permᴰ p d)
  ]
  filter-permᴰ p (Permᴰ.swap {a} {b} {a'} {b'} {l} e f) = rw (← e, ← f) (filter-swap p a b l)
  filter-permᴰ p (Permᴰ.trans d d') = Perm.trans (filter-permᴰ p d) (filter-permᴰ p d')

  pub filter-perm : (p : A → Bool) {xs ys : List A} → Perm xs ys → Perm (filter p xs) (filter p ys)
  filter-perm p h = ∥∥₁_elim h Perm-prop (λ d. filter-permᴰ p d)

  pub all-mem : (p : A → Bool) (x : A) (xs : List A) → all p xs ≡ true → Mem x xs → p x ≡ true
  all-mem p x [] h m = absurd (not-mem-nil m)
  all-mem p x (y ∷ ys) h m =
      Or.elim (Bool-set _ _) (mem-cons.0 m) (λ e. rw e (ground arith))
        (all-mem p x ys (ground arith))

  length-permᴰ : {xs ys : List A} → Permᴰ xs ys → length xs ≡ length ys
  length-permᴰ Permᴰ.nil = refl
  length-permᴰ (Permᴰ.cons e d) = ap suc (length-permᴰ d)
  length-permᴰ (Permᴰ.swap e f) = refl
  length-permᴰ (Permᴰ.trans d d') = length-permᴰ d ∙ length-permᴰ d'

  pub length-perm : {xs ys : List A} → Perm xs ys → length xs ≡ length ys
  length-perm p = ∥∥₁_elim p (ℕ_set _ _) length-permᴰ

-- A property of every element, with its proofs.
module _ {ℓ κ} {A : Type ℓ} (P : A → Type κ) where
  abbrev pub Every : List A → Type κ
  Every [] = Unit
  Every (x ∷ xs) = P x × Every xs

  pub Every-snoc : (xs : List A) (x : A) → Every xs → P x → Every (xs ++ x ∷ [])
  Every-snoc [] x h px = (px, tt)
  Every-snoc (y ∷ ys) x (py, h) px = (py, Every-snoc ys x h px)

  pub Every-middle :
      (xs : List A) (y : A) (ys : List A) → Every (xs ++ y ∷ ys) → P y × Every (xs ++ ys)
  Every-middle [] y ys h = h
  Every-middle (x ∷ xs) y ys (px, h) = let (py, rest) = Every-middle xs y ys h in (py, (px, rest))

  pub Every-replace :
      (xs : List A) (y z : A) (ys : List A) → Every (xs ++ y ∷ ys) → P z → Every (xs ++ z ∷ ys)
  Every-replace [] y z ys (py, h) pz = (pz, h)
  Every-replace (x ∷ xs) y z ys (px, h) pz = (px, Every-replace xs y z ys h pz)
