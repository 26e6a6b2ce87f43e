-- ===== src/Prelude/Float.antt =====
-- Go's finite float64 values as fractions with a denominator above 0. Each of them is one; what the
-- program computes with them is exact here and rounded in Go. NaN and the infinities are left out.
use Prim.Native.Nat.{ℕ, ◌+◌, ◌*◌}
use mathlib.Core.Bool.{Bool}
use fgoths_framework.Prelude.Tests.{ltb, leb}
use fgoths_framework.Prelude.Int.{ℤ, pos, pos_part, neg_part}

pub record Float : Type 0 where
  pub num : ℤ
  pub den : ℕ

abbrev pub float : ℕ → ℕ → Float
float n d = record { num = pos n; den = d }

abbrev pub float_lt : Float → Float → Bool
float_lt a b =
    ltb (pos_part a.num * b.den + neg_part b.num * a.den)
      (pos_part b.num * a.den + neg_part a.num * b.den)

abbrev pub float_le : Float → Float → Bool
float_le a b =
    leb (pos_part a.num * b.den + neg_part b.num * a.den)
      (pos_part b.num * a.den + neg_part a.num * b.den)

-- Division by a whole number.
abbrev pub float_div : Float → ℕ → Float
float_div a n = record { num = a.num; den = a.den * n }
