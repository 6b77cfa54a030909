-- ===== src/Base/Fixed.antt =====
-- Fixed-point numbers with six decimal places: a type that meets the laws of `IsIeee`, for the
-- concrete runs. The functions of the C++ library are rough stand-ins.
use Prim.Native.Nat.{ℕ, zero, suc, ◌+◌, ◌*◌, ◌/◌, ◌^◌}
use mathlib.Core.Bool.{true, not, ◌&&◌}
use native.Mathlib.Omega.{arith}
use dedalus.Base.Tests.{leb, if◌then◌else◌}
use dedalus.Base.Int.{ℤ, pos, negsuc, pos_part, neg_part, sub_ℕ, ◌+ℤ◌, ◌-ℤ◌, ltb_ℤ}
use dedalus.Base.Floats.{Double, IsIeee}

abbrev pub unit : ℕ
unit = 1_000_000

abbrev pub magnitude : ℤ → ℕ
magnitude a = pos_part a + neg_part a

abbrev pub signed_by : ℤ → ℤ → ℕ → ℤ
signed_by (pos a) (pos b) m = pos m
signed_by (negsuc a) (negsuc b) m = pos m
signed_by _ _ m = sub_ℕ 0 m

abbrev pub mul_fixed : ℤ → ℤ → ℤ
mul_fixed a b = signed_by a b (magnitude a * magnitude b / unit)

abbrev pub div_fixed : ℤ → ℤ → ℤ
div_fixed a b = signed_by a b (magnitude a * unit / magnitude b)

-- The digits of the square root, from bit `k` down.
sqrt_from : ℕ → ℕ → ℕ → ℕ
sqrt_from zero n r = r
sqrt_from (suc k) n r = sqrt_from k n (if leb ((r + 2 ^ k) * (r + 2 ^ k)) n then r + 2 ^ k else r)

unfoldable pub sqrt_fixed : ℤ → ℤ
unfolding sqrt_from
sqrt_fixed a = pos (sqrt_from 40 (pos_part a * unit) 0)

instance abbrev pub fixed : Double ℤ
fixed = record {
  lt = ltb_ℤ;
  le = λ a b. not (ltb_ℤ b a);
  eq = λ a b. not (ltb_ℤ b a) && not (ltb_ℤ a b);
  add = ◌+ℤ◌;
  sub = ◌-ℤ◌;
  mul = mul_fixed;
  div = div_fixed;
  neg = λ a. pos 0 -ℤ a;
  abs = λ a. pos (magnitude a);
  of_int = λ n. mul_fixed (n) (pos (unit * unit));
  decimal = λ n places. div_fixed (mul_fixed n (pos (unit * unit))) (pos (unit * 10 ^ places));
  to_float = λ a. a;
  sqrt = sqrt_fixed;
  sin = λ a. a;
  cos = λ a. pos unit -ℤ mul_fixed a a;
  atan2 = λ a b. div_fixed a (pos (magnitude b + 1));
  hypot = λ a b. sqrt_fixed (mul_fixed a a +ℤ mul_fixed b b);
  clamp_undefined = λ v lo hi. pos 0;
  infinity = pos (10 ^ 30);
  is_finite = λ a. true;
}

pub Fixed-IsIeee : IsIeee ℤ
Fixed-IsIeee = ground arith
