-- ===== src/Base/Text.antt =====
-- Go strings. `<` on them is lexicographic by bytes, which is the order by code points.
use Prim.Native.Nat.{ℕ, Ordering, compare as compare_ℕ}
use Prim.Native.Char.{Char, code}
use Prim.Native.String.{String, compare, then}
use Prim.Native.String.compare as compare_clauses
use mathlib.Core.Path.{◌≡◌, refl, sym, ap, ◌∙◌}
use mathlib.Core.Logic.{◌≢◌, inl, inr}
use mathlib.Core.HLevel.{hedberg}
use tellury.Base.Tests.{Bool-cases}
use mathlib.Core.Bool.{Bool, true, false}
use native.Mathlib.Omega.{arith}
use text.Mathlib.Text
use text.Mathlib.TextEquality.{path_by_compare, eq_iff}

abbrev pub str_eq : String → String → Bool
str_eq = Text.◌==◌

-- `s < t`
abbrev pub str_ltb : String → String → Bool
str_ltb s t = Text.is_lt (compare s t)

abbrev pub flip : Ordering → Ordering
flip Ordering.lt = Ordering.gt
flip Ordering.eq = Ordering.eq
flip Ordering.gt = Ordering.lt

-- The clauses of `compare`, as equations that the tactics read.
compare_nil : (c : Char) (s : String) → compare String.[] (String.◌∷◌ c s) ≡ Ordering.lt
compare_nil c s = compare_clauses.nil-cons c s

compare_to_nil : (c : Char) (s : String) → compare (String.◌∷◌ c s) String.[] ≡ Ordering.gt
compare_to_nil c s = compare_clauses.cons-nil c s

compare_cons :
    (c d : Char) (s t : String)
    → compare (String.◌∷◌ c s) (String.◌∷◌ d t) ≡ then (compare_ℕ (code c) (code d)) (compare s t)
compare_cons c d s t = compare_clauses.cons-cons c d s t

then-flip : (m n : ℕ) (o : Ordering) → then (compare_ℕ n m) (flip o) ≡ flip (then (compare_ℕ m n) o)
then-flip m n o = ground arith

compare-flip : (s t : String) → compare t s ≡ flip (compare s t)
compare-flip String.[] String.[] = refl
compare-flip String.[] (String.◌∷◌ d t) = cc (compare_nil d t, compare_to_nil d t)
compare-flip (String.◌∷◌ c s) String.[] = cc (compare_nil c s, compare_to_nil c s)
compare-flip (String.◌∷◌ c s) (String.◌∷◌ d t) =
    compare_cons d c t s
    ∙ rw (compare-flip s t)
        (then-flip (code c) (code d) (compare s t) ∙ ap flip (sym (compare_cons c d s t)))

then_trans :
    (l m n : ℕ) (o p q : Ordering)
    → (o ≡ Ordering.lt → p ≡ Ordering.lt → q ≡ Ordering.lt)
    → then (compare_ℕ l m) o ≡ Ordering.lt
    → then (compare_ℕ m n) p ≡ Ordering.lt
    → then (compare_ℕ l n) q ≡ Ordering.lt
then_trans l m n o p q h a b = ground arith

compare-nil-ne-lt : (t : String) → compare t String.[] ≢ Ordering.lt
compare-nil-ne-lt String.[] h = cc
compare-nil-ne-lt (String.◌∷◌ d t) h = cc (compare_to_nil d t)

compare_trans :
    (s t u : String)
    → compare s t ≡ Ordering.lt
    → compare t u ≡ Ordering.lt
    → compare s u ≡ Ordering.lt
compare_trans s t String.[] a b = absurd (compare-nil-ne-lt t b)
compare_trans String.[] t (String.◌∷◌ e u) a b = compare_nil e u
compare_trans (String.◌∷◌ c s) String.[] (String.◌∷◌ e u) a b = cc (compare_to_nil c s)
compare_trans (String.◌∷◌ c s) (String.◌∷◌ d t) (String.◌∷◌ e u) a b =
    compare_cons c e s u
    ∙ then_trans (code c) (code d) (code e) (compare s t) (compare t u) (compare s u)
        (compare_trans s t u) (sym (compare_cons c d s t) ∙ a) (sym (compare_cons d e t u) ∙ b)

-- A text is not below itself, nor below one that is below it.
pub str_asym : (s t : String) → str_ltb s t ≡ true → str_ltb t s ≡ false
str_asym s t h = ground (arith, compare-flip s t)

pub str_total : (s t : String) → str_ltb s t ≡ false → str_ltb t s ≡ false → s ≡ t
str_total s t a b = path_by_compare s t (ground (arith, compare-flip s t))

pub str_neg_trans :
    (s t u : String) → str_ltb t s ≡ false → str_ltb u t ≡ false → str_ltb u s ≡ false
str_neg_trans s t u a b = ground (arith, compare-flip t s, path_by_compare t s, compare_trans u s t)

pub str_eq_refl : (s : String) → str_eq s s ≡ true
str_eq_refl s = (eq_iff s s).1 refl

String-discrete : Discrete String
String-discrete s t = elim (Bool-cases (str_eq s t)) [
  | inl same ↦ yes ((eq_iff s t).0 same)
  | inr differ ↦ no (λ p. ground (arith, eq_iff s t))
]

pub String-set : IsSet String
String-set = hedberg String-discrete

pub str_apart : (s t : String) → str_eq s t ≡ false → s ≢ t
str_apart s t h e = ground (arith, eq_iff s t)

-- One-letter texts are the same if the codes of their letters are.
pub letter_eq :
    (c d : Char)
    → compare_ℕ (code c) (code d) ≡ Ordering.eq
    → String.◌∷◌ c String.[] ≡ String.◌∷◌ d String.[]
letter_eq c d h =
    path_by_compare (String.◌∷◌ c String.[]) (String.◌∷◌ d String.[])
      (compare_cons c d String.[] String.[] ∙ rw h refl)
