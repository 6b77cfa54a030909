-- ===== src/Base/Floats.antt =====
-- What the code does with `double` and `float`: the hardware's arithmetic and the C++ library's
-- functions are a parameter. `lt`, `le` and `eq` are the IEEE comparisons, false on NaN.
use mathlib.Core.Bool.{Bool, true, false}
use mathlib.Core.Path.{◌≡◌}
use mathlib.Core.Logic.{◌⊎◌}
use Prim.Native.Nat.{ℕ}
use dedalus.Base.Tests.{if◌then◌else◌}
use dedalus.Base.Int.{ℤ}

pub record Double (R : Type 0) : Type 0 where
  pub lt : R → R → Bool
  pub le : R → R → Bool
  pub eq : R → R → Bool
  pub add : R → R → R
  pub sub : R → R → R
  pub mul : R → R → R
  pub div : R → R → R
  pub neg : R → R
  pub abs : R → R
  -- `static_cast<double>` of a 64-bit integer
  pub of_int : ℤ → R
  -- the literal `mantissa * 10^-places`
  pub decimal : ℤ → ℕ → R
  -- `static_cast<float>` of a `double`, as a `double` again
  pub to_float : R → R
  pub sqrt : R → R
  pub sin : R → R
  pub cos : R → R
  pub atan2 : R → R → R
  pub hypot : R → R → R
  -- `std::clamp(v, lo, hi)` with `hi < lo`, which the standard leaves undefined
  pub clamp_undefined : R → R → R → R
  -- `std::numeric_limits<double>::infinity()` and `std::isfinite`
  pub infinity : R
  pub is_finite : R → Bool

-- What IEEE 754 says of the comparisons; NaN is the value that is not `<=` itself.
pub record IsIeee (R : Type 0) ⦃d : Double R⦄ : Type 0 where
  pub lt_irrefl : (a : R) → d.lt a a ≡ false
  pub lt_of_le : (a b : R) → d.le a b ≡ true → d.lt b a ≡ false
  pub lt_trans : (a b c : R) → d.lt a b ≡ true → d.lt b c ≡ true → d.lt a c ≡ true
  pub not_lt_trans :
      (a b c : R) → d.le b b ≡ true → d.lt b a ≡ false → d.lt c b ≡ false → d.lt c a ≡ false
  pub not_lt_of_eq : (a b : R) → d.eq a b ≡ true → (d.lt a b ≡ false) × (d.lt b a ≡ false)
  pub lt_or_le :
      (a b : R) → d.le a a ≡ true → d.le b b ≡ true → (d.lt a b ≡ true) ⊎ (d.le b a ≡ true)

module _ {R : Type 0} ⦃d : Double R⦄ where
  -- `std::min(a, b)` is `(b < a) ? b : a`, and `std::max(a, b)` is `(a < b) ? b : a`.
  abbrev pub min_double : R → R → R
  min_double a b = if d.lt b a then b else a

  abbrev pub max_double : R → R → R
  max_double a b = if d.lt a b then b else a

  abbrev pub nought : R
  nought = d.of_int (ℤ.pos 0)
