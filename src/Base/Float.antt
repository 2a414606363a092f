-- ===== src/Base/Float.antt =====
-- Go's float64 by its IEEE 754 bit pattern. Comparisons read the bits; the arithmetic that the
-- program does on floats (a conversion, a quotient, math.Round) is a parameter.
use mcp_resile.Base.Tests.{◌==◌, ltb, leb}
use mcp_resile.Base.Int.{ℤ}
use Prim.Native.Nat.{ℕ, ◌%◌}
use mathlib.Core.Bool.{Bool, not, ◌&&◌, ◌||◌}

pub record Float64 : Type 0 where
  pub bits : ℕ

abbrev pub sign_bit : ℕ
sign_bit = 9223372036854775808

abbrev pub infinity_bits : ℕ
infinity_bits = 9218868437227405312

-- The bits of 100.0.
abbrev pub hundred_bits : ℕ
hundred_bits = 4636737291354636288

abbrev pub is_nan : Float64 → Bool
is_nan x = ltb infinity_bits (x.bits % sign_bit)

-- x <= 0: zero of either sign, or negative; false at NaN.
abbrev pub float_le_zero : Float64 → Bool
float_le_zero x = not (is_nan x) && (x.bits == 0 || leb sign_bit x.bits)

-- x < 0
abbrev pub float_lt_zero : Float64 → Bool
float_lt_zero x = not (is_nan x) && ltb sign_bit x.bits

-- x > 100
abbrev pub float_gt_hundred : Float64 → Bool
float_gt_hundred x = not (is_nan x) && (ltb hundred_bits x.bits && ltb x.bits sign_bit)

-- float64(n), x / y, math.Round(x), int64(x)
pub record FloatOps : Type 0 where
  pub of_int : ℤ → Float64
  pub div : Float64 → Float64 → Float64
  pub round : Float64 → Float64
  pub to_int64 : Float64 → ℤ
