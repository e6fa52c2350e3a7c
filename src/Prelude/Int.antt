-- ===== src/Prelude/Int.antt =====
-- C's `int` as an integer over the native numbers, and the error codes that the code returns.
use Prim.Native.Nat.{ℕ, zero, suc, ◌+◌}
use mathlib.Core.Bool.{Bool, true, false}
use vibe_xperia.Prelude.Tests.{ltb}

-- `negsuc n` is -(n + 1).
pub data ℤ : Type 0 where
  pos : ℕ → ℤ
  negsuc : ℕ → ℤ

abbrev pub pos_part : ℤ → ℕ
pos_part (pos n) = n
pos_part (negsuc n) = 0

abbrev pub neg_part : ℤ → ℕ
neg_part (pos n) = 0
neg_part (negsuc n) = suc n

abbrev pub ltb_ℤ : ℤ → ℤ → Bool
ltb_ℤ a b = ltb (pos_part a + neg_part b) (pos_part b + neg_part a)

-- the magnitude, C's `a < 0 ? -a : a`
abbrev pub abs : ℤ → ℕ
abs a = pos_part a + neg_part a

-- `if (err)`
abbrev pub is_err : ℤ → Bool
is_err (pos zero) = false
is_err _ = true

-- -EINVAL, -ENODEV and -1
abbrev pub einval : ℤ
einval = negsuc 21

abbrev pub enodev : ℤ
enodev = negsuc 18

abbrev pub minus_one : ℤ
minus_one = negsuc 0
