-- ===== src/Rules/Blocks.antt =====
-- The findings of several rules, put in order: the order of the rules does not show.
use tellury.Base.{
  String, String-set, true, false, ◌≡◌, refl, sym, ap, ◌∙◌, ◌||◌, List, [], ◌∷◌, ◌++◌, map, Every,
  str_eq, eq_iff, arith, Bool-cases, inl, inr,
}
use mathlib.Core.List.{Perm, Permᴰ, Mem, mem-cons_self, mem-cons_of_mem, foldr}
use mathlib.Core.List.Permᴰ as PermD
use mathlib.Core.Logic.{∥∥₁_elim}
use tellury.Base.Sort
use tellury.Base.Sort.Blocks.{sort-append, insert_blocks}
use tellury.Float.{Float64, IsOrdered}
use tellury.Rules.Types.{Finding}
use tellury.Rules.Registry.{Rule}
use tellury.Rules.Order.{waste_less, waste_less-IsWeakOrder, waste_less-total}
use tellury.Rules.Engine.{Answer, fill}

Findings-set : {F : Type 0} → IsSet F → IsSet (List (Finding F))
Findings-set set = hlevel (set, String-set)

module _ {F A : Type 0} (answer : Rule A → Answer F) where
  -- What the rules report, one after the other.
  abbrev pub reported : List (Rule A) → List (Finding F)
  reported [] = []
  reported (r ∷ rs) = map (fill r.meta) (answer r).findings ++ reported rs

  -- A finding of a rule carries the id of the rule, or none.
  abbrev pub IsOwn : Rule A → Type 0
  IsOwn r =
      Every (λ fd. (str_eq fd.rule_id "" || str_eq fd.rule_id r.meta.id) ≡ true) (answer r).findings

  -- Rules with one id are one rule.
  abbrev pub Unique : List (Rule A) → Type 0
  Unique rs = (r s : Rule A) → Mem r rs → Mem s rs → r.meta.id ≡ s.meta.id → r ≡ s

  filled :
      (r : Rule A) (fds : List (Finding F))
      → Every (λ fd. (str_eq fd.rule_id "" || str_eq fd.rule_id r.meta.id) ≡ true) fds
      → Every (λ fd. fd.rule_id ≡ r.meta.id) (map (fill r.meta) fds)
  unfolding fill
  filled r [] h = tt
  filled r (fd ∷ fds) (own, h) = (ground (arith, eq_iff fd.rule_id r.meta.id), filled r fds h)

  module _ {f : Float64 F} (o : IsOrdered f) where
    ranked_one :
        (x : Finding F) (i j : String) (ys : List (Finding F))
        → str_eq i j ≡ false
        → x.rule_id ≡ i
        → Every (λ y. y.rule_id ≡ j) ys
        → Every (λ y. (waste_less f x y || waste_less f y x) ≡ true) ys
    ranked_one x i j [] h e all_j = tt
    ranked_one x i j (y ∷ ys) h e (ey, all_j) =
        (waste_less-total o x y (rw (e, ey) h), ranked_one x i j ys h e all_j)

    ranked :
        (i j : String) (xs ys : List (Finding F))
        → str_eq i j ≡ false
        → Every (λ x. x.rule_id ≡ i) xs
        → Every (λ y. y.rule_id ≡ j) ys
        → Every (λ x. Every (λ y. (waste_less f x y || waste_less f y x) ≡ true) ys) xs
    ranked i j [] ys h all_i all_j = tt
    ranked i j (x ∷ xs) ys h (ex, all_i) all_j =
        (ranked_one x i j ys h ex all_j, ranked i j xs ys h all_i all_j)

    abbrev ordered : List (Rule A) → List (Finding F)
    ordered rs = Sort.sort (waste_less f) (reported rs)

    abbrev block : Rule A → List (Finding F)
    block r = map (fill r.meta) (answer r).findings

    ordered-cons :
        (r : Rule A) (rs : List (Rule A))
        → ordered (r ∷ rs) ≡ foldr (Sort.insert (waste_less f)) (ordered rs) (block r)
    ordered-cons r rs = sort-append (waste_less-IsWeakOrder o) (block r) (reported rs)

    ordered_swap :
        (r s : Rule A) (rs : List (Rule A))
        → IsOwn r
        → IsOwn s
        → (r.meta.id ≡ s.meta.id → r ≡ s)
        → ordered (r ∷ s ∷ rs) ≡ ordered (s ∷ r ∷ rs)
    ordered_swap r s rs own_r own_s one = elim (Bool-cases (str_eq r.meta.id s.meta.id)) [
      | inl same ↦ rw (one ((eq_iff r.meta.id s.meta.id).0 same)) refl
      | inr apart ↦
          ordered-cons r (s ∷ rs)
          ∙ ap (λ l. foldr (Sort.insert (waste_less f)) l (block r)) (ordered-cons s rs)
          ∙ insert_blocks (waste_less-IsWeakOrder o) (block r) (block s) (ordered rs) (
              ranked r.meta.id s.meta.id (block r) (block s) apart (filled r _ own_r)
                (filled s _ own_s))
          ∙ sym (ap (λ l. foldr (Sort.insert (waste_less f)) l (block s)) (ordered-cons r rs))
          ∙ sym (ordered-cons s (r ∷ rs))
    ]

    ordered-permᴰ :
        {rs ss : List (Rule A)}
        → Permᴰ rs ss
        → Unique rs
        → ((r : Rule A) → Mem r rs → IsOwn r)
        → ordered rs ≡ ordered ss
    ordered-permᴰ Permᴰ.nil u own = refl
    ordered-permᴰ (Permᴰ.cons {a} {b} {l₁} {l₂} e p) u own =
        let rest =
          ordered-permᴰ p (λ r s m n. u r s (mem-cons_of_mem a m) (mem-cons_of_mem a n))
            (λ r m. own r (mem-cons_of_mem a m)) in
        ordered-cons a l₁
        ∙ ap (λ l. foldr (Sort.insert (waste_less f)) l (block a)) rest
        ∙ sym (ordered-cons a l₂)
        ∙ ap (λ r. ordered (r ∷ l₂)) e
    ordered-permᴰ (Permᴰ.swap {a} {b} {a'} {b'} {l} e k) u own =
        let second : Mem b (a ∷ b ∷ l) = mem-cons_of_mem a mem-cons_self in
        rw (← e, ← k)
          (ordered_swap a b l (own a mem-cons_self) (own b second) (u a b mem-cons_self second))
    ordered-permᴰ (Permᴰ.trans {l₁} {l₂} {l₃} p q) u own =
        let back : (r : Rule A) → Mem r l₂ → Mem r l₁ = λ r m. PermD.mem (PermD.symm p) m in
        ordered-permᴰ p u own
        ∙ ordered-permᴰ q (λ r s m n. u r s (back r m) (back s n)) (λ r m. own r (back r m))

    pub ordered-perm :
        IsSet F
        → {rs ss : List (Rule A)} → Perm rs ss
        → Unique rs
        → ((r : Rule A) → Mem r rs → IsOwn r)
        → Sort.sort (waste_less f) (reported rs) ≡ Sort.sort (waste_less f) (reported ss)
    ordered-perm set p u own = ∥∥₁_elim p (Findings-set set _ _) (λ d. ordered-permᴰ d u own)
