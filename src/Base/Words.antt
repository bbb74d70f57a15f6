-- ===== src/Base/Words.antt =====
-- `int` of 32 bits on ℤ. Signed overflow is undefined in C++; the model wraps as the word does.
use tuw_spike.Base.Tests.{ltb, if◌then◌else◌}
use tuw_spike.Base.Int.{ℤ, pos, negsuc, neg, ◌-ℤ◌, ◌≤ℤ◌, ltb_ℤ}
use Prim.Native.Nat.{ℕ, ◌-◌, ◌%◌, ◌^◌}
use mathlib.Core.Path.{◌≡◌}
use native.Mathlib.Omega.{arith}

-- The integer that a word below 2^32 stands for.
abbrev pub signed32 : ℕ → ℤ
signed32 w = if ltb w (2 ^ 31) then pos w else negsuc (2 ^ 32 - w - 1)

abbrev pub wrap32 : ℤ → ℤ
wrap32 (pos n) = signed32 (n % 2 ^ 32)
wrap32 (negsuc n) = signed32 (2 ^ 32 - 1 - n % 2 ^ 32)

abbrev pub int32_max : ℤ
int32_max = pos (2 ^ 31 - 1)

abbrev pub int32_min : ℤ
int32_min = negsuc (2 ^ 31 - 1)

abbrev pub IsInt32 : ℤ → Type 0
IsInt32 z = (int32_min ≤ℤ z) × (z ≤ℤ int32_max)

unfoldable pub neg32 : ℤ → ℤ
neg32 z = wrap32 (neg z)

unfoldable pub sub32 : ℤ → ℤ → ℤ
sub32 a b = wrap32 (a -ℤ b)

-- The conversion of an int to int16_t, and OpenCV's `saturate_cast<int16_t>` of an int.
abbrev pub signed16 : ℕ → ℤ
signed16 w = if ltb w (2 ^ 15) then pos w else negsuc (2 ^ 16 - w - 1)

unfoldable pub wrap16 : ℤ → ℤ
wrap16 (pos n) = signed16 (n % 2 ^ 16)
wrap16 (negsuc n) = signed16 (2 ^ 16 - 1 - n % 2 ^ 16)

unfoldable pub saturate16 : ℤ → ℤ
saturate16 (pos n) = if ltb n (2 ^ 15) then pos n else pos (2 ^ 15 - 1)
saturate16 (negsuc n) = if ltb n (2 ^ 15) then negsuc n else negsuc (2 ^ 15 - 1)

-- `abs` of an int.
unfoldable pub abs32 : ℤ → ℤ
abs32 z = if ltb_ℤ z (pos 0) then neg32 z else z

-- Negation is its own inverse but at the least int, which is its own negation.
pub neg32-neg32 : (z : ℤ) → IsInt32 z → neg32 (neg32 z) ≡ z
unfolding neg32 neg
neg32-neg32 z h = ground arith
