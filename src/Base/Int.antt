-- ===== src/Base/Int.antt =====
-- Go's `int`: the integers over the native numbers, and the step down, which wraps at the least of
-- 64 bits.
use Prim.Native.Nat.{ℕ, zero, suc}
use tellury.Base.Tests.{◌==◌, if◌then◌else◌}

-- `negsuc n` is -(n + 1)
pub data ℤ : Type 0 where
  pos : ℕ → ℤ
  negsuc : ℕ → ℤ

abbrev max_int64 : ℕ
max_int64 = 9223372036854775807

abbrev pub minus_one : ℤ → ℤ
minus_one (pos zero) = negsuc 0
minus_one (pos (suc n)) = pos n
minus_one (negsuc n) = if n == max_int64 then pos max_int64 else negsuc (suc n)
