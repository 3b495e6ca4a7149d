-- ===== src/Prelude/Float.antt =====
-- The float64 operations that the program uses, as an interface. A float64 is its bit pattern, a
-- number; what the hardware does with patterns is not code of the program.
use Prim.Native.Nat.{ℕ, ◌+◌, ◌*◌, ◌≤◌, ◌<◌}
use mathlib.Core.Path.{◌≡◌}
use mathlib.Core.Bool.{Bool, true, false}

pub record Float64 : Type 0 where
  -- float64(n) and int64(x), for a number that is not negative
  pub of_int : ℕ → ℕ
  pub trunc : ℕ → ℕ
  pub div : ℕ → ℕ → ℕ
  pub mul : ℕ → ℕ → ℕ
  -- x < y and x >= y
  pub less : ℕ → ℕ → Bool
  pub at_least : ℕ → ℕ → Bool
  -- the constants 0.0, 0.5, 1.0 and 2
  pub zero_f : ℕ
  pub half_f : ℕ
  pub one_f : ℕ
  pub two_f : ℕ

-- What IEEE 754 says of products by a factor in [0.5, 2], for numbers below 2 ^ 52: halving and
-- doubling are exact, and rounding is monotone on numbers. `is_number` is false of NaN, on which every
-- comparison is false; a quotient of int64 numbers by a positive one is not NaN.
pub record ScaleLaws (fl : Float64) : Type 0 where
  pub is_number : ℕ → Bool
  pub half_number : is_number fl.half_f ≡ true
  pub two_number : is_number fl.two_f ≡ true
  pub quotient_number :
      (m n : ℕ)
      → m < 9223372036854775808
      → 0 < n
      → n < 9223372036854775808
      → is_number (fl.div (fl.of_int m) (fl.of_int n)) ≡ true
  pub doubled : (n : ℕ) → n < 4503599627370496 → fl.trunc (fl.mul (fl.of_int n) fl.two_f) ≡ 2 * n
  pub halved :
      (n : ℕ) → n < 4503599627370496 → n ≤ 2 * fl.trunc (fl.mul (fl.of_int n) fl.half_f) + 1
  pub irreflexive : (x : ℕ) → fl.less x x ≡ false
  pub ordered : fl.less fl.two_f fl.half_f ≡ false
  pub mul_mono :
      (n x y : ℕ)
      → n < 4503599627370496
      → is_number x ≡ true
      → is_number y ≡ true
      → fl.less x fl.half_f ≡ false
      → fl.less fl.two_f y ≡ false
      → fl.less y x ≡ false
      → fl.trunc (fl.mul (fl.of_int n) x) ≤ fl.trunc (fl.mul (fl.of_int n) y)
