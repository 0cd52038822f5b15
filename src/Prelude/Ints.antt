-- ===== src/Prelude/Ints.antt =====
-- Go's `int` where a value can be negative, and the 64-bit wrap-around of `int64` durations.
use Prim.Native.Nat.{ℕ, ◌+◌, ◌-◌, ◌%◌, ◌^◌, ◌<◌}
use mathlib.Core.Path.{◌≡◌}
use native.Mathlib.Omega.{arith}
use mathlib.Core.Bool.{Bool, true, false}
use symphony_go.Prelude.Tests.{ltb, leb, if◌then◌else◌}

-- `negsuc n` is -(n + 1).
pub data ℤ : Type 0 where
  pos : ℕ → ℤ
  negsuc : ℕ → ℤ

-- `x > 0`.
abbrev pub is_positive : ℤ → Bool
is_positive (pos n) = ltb 0 n
is_positive (negsuc n) = false

-- The value of a number known to be at least 0.
abbrev pub to_nat : ℤ → ℕ
to_nat (pos n) = n
to_nat (negsuc n) = 0

infixl 65 ◌+ℤ◌
abbrev pub ◌+ℤ◌ : ℤ → ℤ → ℤ
pos a +ℤ pos b = pos (a + b)
pos a +ℤ negsuc b = if ltb b a then pos (a - b - 1) else negsuc (b - a)
negsuc a +ℤ pos b = if ltb a b then pos (b - a - 1) else negsuc (a - b)
negsuc a +ℤ negsuc b = negsuc (a + b + 1)

-- `a - b`, or 0 where that is negative.
abbrev pub excess : ℤ → ℤ → ℕ
excess (pos a) (pos b) = a - b
excess (pos a) (negsuc b) = a + b + 1
excess (negsuc a) (pos b) = 0
excess (negsuc a) (negsuc b) = b - a

-- `a <= b`.
abbrev pub leb_ℤ : ℤ → ℤ → Bool
leb_ℤ (pos a) (pos b) = leb a b
leb_ℤ (pos a) (negsuc b) = false
leb_ℤ (negsuc a) (pos b) = true
leb_ℤ (negsuc a) (negsuc b) = leb b a

-- An `int64` by its two's complement bit pattern, a number below 2 ^ 64.
abbrev pub word : ℕ → ℕ
word n = n % 2 ^ 64

abbrev pub is_negative : ℕ → Bool
is_negative w = leb (2 ^ 63) w

-- The int64 that a result of arithmetic wraps around to.
unfoldable pub wrap_int : ℤ → ℤ
wrap_int (pos n) = let w = word n in if is_negative w then negsuc (2 ^ 64 - 1 - w) else pos w
wrap_int (negsuc n) = let w = word n in if is_negative w then pos (2 ^ 64 - 1 - w) else negsuc w

pub wrap_int-small : (n : ℕ) → n < 2 ^ 63 → wrap_int (pos n) ≡ pos n
unfolding wrap_int
wrap_int-small n small = ground (arith, small)

-- `a > b` for two patterns.
unfoldable pub word_gt : ℕ → ℕ → Bool
word_gt a b =
    if is_negative a
    then (if is_negative b then ltb b a else false)
    else (if is_negative b then true else ltb b a)
