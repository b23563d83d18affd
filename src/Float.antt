-- ===== src/Float.antt =====
-- What the program does with a float64. The arithmetic of floats is not part of the model: the
-- type and its operations are a parameter of the definitions, and the laws that a theorem needs
-- are a hypothesis of it.
use tellury.Base.{ℕ, String, Bool, true, false, not, ◌≡◌, ltb, leb, ◌==◌, arith}

pub record Float64 (F : Type 0) : Type 0 where
  pub nought : F
  -- `a < b`, `a <= b` and `a == b`; each is false of a NaN.
  pub lt : F → F → Bool
  pub le : F → F → Bool
  pub eq : F → F → Bool

-- The comparisons of values that are no NaN: a total order.
pub record IsOrdered {F : Type 0} (f : Float64 F) : Type 0 where
  pub le-eq-not_lt : (a b : F) → f.le a b ≡ not (f.lt b a)
  pub eq-eq-not_lt : (a b : F) → f.lt a b ≡ false → f.lt b a ≡ false → f.eq a b ≡ true
  pub eq_lt : (a b : F) → f.lt a b ≡ true → f.eq a b ≡ false
  pub eq_gt : (a b : F) → f.lt b a ≡ true → f.eq a b ≡ false
  pub asym : (a b : F) → f.lt a b ≡ true → f.lt b a ≡ false
  pub neg_trans : (a b c : F) → f.lt b a ≡ false → f.lt c b ≡ false → f.lt c a ≡ false

-- Whole numbers of cents meet the laws.
abbrev pub cents : Float64 ℕ
cents = record { nought = 0; lt = ltb; le = leb; eq = ◌==◌ }

pub cents-IsOrdered : IsOrdered cents
cents-IsOrdered = ground arith

-- The arithmetic of float64 and `math.Floor` and `math.Round`. `literal s` is the constant that is
-- written `s` in the source.
pub record Numeric (F : Type 0) : Type 0 where
  pub order : Float64 F
  pub add : F → F → F
  pub sub : F → F → F
  pub mul : F → F → F
  pub div : F → F → F
  pub neg : F → F
  pub floor : F → F
  pub round : F → F
  pub literal : String → F
