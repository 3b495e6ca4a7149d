-- ===== src/Prelude/Int.antt =====
-- The signed integers of the program (`int`, `int32`, `int64`) over the native numbers, under the
-- library's names. Sums go through the two parts of an integer, which are numbers.
use Prim.Native.Nat.{ℕ, suc, ◌+◌, ◌-◌, ◌*◌, ◌%◌, ◌^◌, ◌≤◌, ◌<◌}
use mathlib.Core.Path.{◌≡◌, refl}
use mathlib.Core.Bool.{Bool, true, false}
use native.Mathlib.Omega.{arith}
use proxy_gateway.Prelude.Tests.{ltb, leb, if◌then◌else◌}

-- `negsuc n` is -(n + 1).
pub data ℤ : Type 0 where
  pos : ℕ → ℤ
  negsuc : ℕ → ℤ

abbrev pub pos_part : ℤ → ℕ
pos_part (pos n) = n
pos_part (negsuc n) = 0

abbrev pub neg_part : ℤ → ℕ
neg_part (pos n) = 0
neg_part (negsuc n) = suc n

-- a - b, as an integer.
abbrev pub sub_ℕ : ℕ → ℕ → ℤ
sub_ℕ a b = if leb b a then pos (a - b) else negsuc (b - a - 1)

infixl 65 ◌+ℤ◌ ◌-ℤ◌
infix 50 ◌≤ℤ◌
unfoldable pub ◌+ℤ◌ : ℤ → ℤ → ℤ
a +ℤ b = sub_ℕ (pos_part a + pos_part b) (neg_part a + neg_part b)

unfoldable pub ◌-ℤ◌ : ℤ → ℤ → ℤ
a -ℤ b = sub_ℕ (pos_part a + neg_part b) (neg_part a + pos_part b)

abbrev pub ◌≤ℤ◌ : ℤ → ℤ → Type 0
a ≤ℤ b = pos_part a + neg_part b ≤ pos_part b + neg_part a

abbrev pub ltb_ℤ : ℤ → ℤ → Bool
ltb_ℤ a b = ltb (pos_part a + neg_part b) (pos_part b + neg_part a)

-- x > 0
abbrev pub is_pos : ℤ → Bool
is_pos a = ltb 0 (pos_part a)

-- Go's conversion of a non-negative `int` to `int32`: the low 32 bits, as a signed number.
abbrev pub to_int32 : ℕ → ℤ
to_int32 n =
    if ltb (n % 2 ^ 32) (2 ^ 31) then pos (n % 2 ^ 32) else negsuc (2 ^ 32 - 1 - n % 2 ^ 32)

pub +ℤ_parts :
    (a b : ℤ)
    → pos_part (a +ℤ b) + neg_part a + neg_part b ≡ neg_part (a +ℤ b) + pos_part a + pos_part b
unfolding ◌+ℤ◌
+ℤ_parts a b = ground arith

pub -ℤ_parts :
    (a b : ℤ)
    → pos_part (a -ℤ b) + neg_part a + pos_part b ≡ neg_part (a -ℤ b) + pos_part a + neg_part b
unfolding ◌-ℤ◌
-ℤ_parts a b = ground arith

pub eq_of_parts : (a b : ℤ) → pos_part a + neg_part b ≡ pos_part b + neg_part a → a ≡ b
eq_of_parts a b h = ground arith

pub ruleset int_laws = (arith, +ℤ_parts, -ℤ_parts, eq_of_parts)

pub ltb_ℤ-false : (a b : ℤ) → ltb_ℤ a b ≡ false → b ≤ℤ a
ltb_ℤ-false a b h = ground arith

-- a * n, for a constant `n` of the program.
abbrev pub scale_ℤ : ℤ → ℕ → ℤ
scale_ℤ (pos a) n = pos (a * n)
scale_ℤ (negsuc a) n = negsuc (suc a * n - 1)

-- What an `int64` holds of a result of its operations: the low 64 bits, as a signed number.
abbrev pub of_bits64 : ℕ → ℤ
of_bits64 n = if ltb n 9223372036854775808 then pos n else negsuc (18446744073709551615 - n)

abbrev pub int64_of : ℤ → ℤ
int64_of (pos n) = of_bits64 (n % 18446744073709551616)
int64_of (negsuc n) = of_bits64 (18446744073709551615 - n % 18446744073709551616)

pub int64_of-fits : (n : ℕ) → n < 9223372036854775808 → int64_of (pos n) ≡ pos n
int64_of-fits n h =
    let e : n % 18446744073709551616 ≡ n = omega arith in
    rw e (let t : ltb n 9223372036854775808 ≡ true = ground arith in rw t refl)

-- Whether the time from `last` to `now` is less than a duration, each in nanoseconds.
abbrev pub is_within : ℕ → ℕ → ℤ → Bool
is_within now last window = ltb_ℤ (pos now -ℤ pos last) window

pub is_within-true : (now last n : ℕ) → now < last + n → is_within now last (pos n) ≡ true
is_within-true now last n h = grind (int_laws, h)

-- A positive number of units whose product fits in int64.
pub scaled-fits :
    (s : ℤ) (unit : ℕ)
    → 0 < pos_part s
    → pos_part s * unit < 9223372036854775808
    → int64_of (scale_ℤ s unit) ≡ pos (pos_part s * unit)
scaled-fits (pos n) unit p h = int64_of-fits (n * unit) h
scaled-fits (negsuc n) unit p h = absurd (ground (arith, p))

-- Go's conversion of any `int` to `int32`.
abbrev pub int32_of : ℤ → ℤ
int32_of (pos n) = to_int32 n
int32_of (negsuc n) = to_int32 (2 ^ 32 - 1 - n % 2 ^ 32)

pub add_pos : (m n : ℕ) → pos m +ℤ pos n ≡ pos (m + n)
unfolding ◌+ℤ◌
add_pos m n = ground arith
