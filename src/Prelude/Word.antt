-- ===== src/Prelude/Word.antt =====
-- int64 and uint64 as bit patterns below 2 ^ 64: arithmetic wraps, and a pattern from 2 ^ 63 on
-- stands for a negative int64.
use Prim.Native.Nat.{ℕ, ◌+◌, ◌-◌, ◌*◌, ◌/◌, ◌%◌, ◌<◌}
use mathlib.Core.Path.{◌≡◌}
use mathlib.Core.Bool.{Bool}
use native.Mathlib.Omega.{arith}
use sigbench.Prelude.Tests.{ltb, leb, ◌==◌, if◌then◌else◌}
use sigbench.Prelude.Effects.{Outcome, returned, panicked, divide_by_zero}

-- 2 ^ 64
abbrev pub word_mod : ℕ
word_mod = 18446744073709551616

-- 2 ^ 63
abbrev pub half_mod : ℕ
half_mod = 9223372036854775808

-- The pattern of -1.
abbrev pub minus_one : ℕ
minus_one = 18446744073709551615

abbrev pub IsWord : ℕ → Type 0
IsWord a = a < word_mod

-- Not negative, as an int64.
abbrev pub IsNat64 : ℕ → Type 0
IsNat64 a = a < half_mod

abbrev pub add64 : ℕ → ℕ → ℕ
add64 a b = (a + b) % word_mod

abbrev pub sub64 : ℕ → ℕ → ℕ
sub64 a b = (a + (word_mod - b)) % word_mod

abbrev pub mul64 : ℕ → ℕ → ℕ
mul64 a b = a * b % word_mod

-- `a < 0`
abbrev pub is_neg : ℕ → Bool
is_neg a = leb half_mod a

-- `a < b`, signed.
abbrev pub lt64 : ℕ → ℕ → Bool
lt64 a b = ltb ((a + half_mod) % word_mod) ((b + half_mod) % word_mod)

abbrev pub neg64 : ℕ → ℕ
neg64 a = (word_mod - a) % word_mod

abbrev pub magnitude : ℕ → ℕ
magnitude a = if is_neg a then word_mod - a else a

-- `a / b`, signed: it rounds towards zero, and panics on a zero divisor.
abbrev pub div64 : ℕ → ℕ → Outcome ℕ
div64 a b =
    if b == 0
    then panicked divide_by_zero
    else if is_neg a
    then (if is_neg b
        then returned (magnitude a / magnitude b % word_mod)
        else returned (neg64 (magnitude a / magnitude b)))
    else if is_neg b
    then returned (neg64 (magnitude a / magnitude b))
    else returned (a / b)

-- On operands that are not negative, division is that of the numbers.
pub div64-nat : (a b : ℕ) → IsNat64 a → IsNat64 b → 0 < b → div64 a b ≡ returned (a / b)
div64-nat a b ha hb h = ground arith
