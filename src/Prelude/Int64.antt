-- ===== src/Prelude/Int64.antt =====
-- Go's int64: an integer in range, with two's complement wrap-around written out.
use Prim.Native.Nat.{ℕ, ◌-◌, ◌%◌, ◌^◌}
use mathlib.Core.Path.{◌≡◌, refl}
use mathlib.Core.Bool.{Bool, true, ◌&&◌}
use native.Mathlib.Omega.{arith}
use croupier.Prelude.Tests.{ltb, if◌then◌else◌}
use croupier.Prelude.Int.{ℤ, pos, negsuc, ◌+ℤ◌, ◌-ℤ◌, ◌≤ℤ◌, leb_ℤ}

abbrev pub max_int64 : ℤ
max_int64 = pos (2 ^ 63 - 1)

abbrev pub min_int64 : ℤ
min_int64 = negsuc (2 ^ 63 - 1)

-- The value lies in the range of int64.
abbrev pub IsInt64 : ℤ → Type 0
IsInt64 z = (min_int64 ≤ℤ z) × (z ≤ℤ max_int64)

abbrev pub fits_int64 : ℤ → Bool
fits_int64 z = leb_ℤ min_int64 z && leb_ℤ z max_int64

-- The 64 low bits of a two's complement integer, and the int64 that they stand for.
abbrev low_bits : ℤ → ℕ
low_bits (pos n) = n % 2 ^ 64
low_bits (negsuc n) = 2 ^ 64 - 1 - n % 2 ^ 64

abbrev signed : ℕ → ℤ
signed b = if ltb b (2 ^ 63) then pos b else negsuc (2 ^ 64 - b - 1)

unfoldable pub wrap64 : ℤ → ℤ
wrap64 z = signed (low_bits z)

pub fits_IsInt64 : (z : ℤ) → fits_int64 z ≡ true → IsInt64 z
fits_IsInt64 z h = ground arith

pub IsInt64-fits : (z : ℤ) → IsInt64 z → fits_int64 z ≡ true
IsInt64-fits z h = ground arith

unfoldable pub add64 : ℤ → ℤ → ℤ
unfolding wrap64 ◌+ℤ◌
add64 a b = wrap64 (a +ℤ b)

unfoldable pub sub64 : ℤ → ℤ → ℤ
unfolding wrap64 ◌-ℤ◌
sub64 a b = wrap64 (a -ℤ b)

-- Wrapping leaves a value in range as it is.
pub wrap64_id : (z : ℤ) → IsInt64 z → wrap64 z ≡ z
unfolding wrap64
wrap64_id (pos n) h = ground arith
wrap64_id (negsuc n) h = ground arith

pub wrap64-IsInt64 : (z : ℤ) → IsInt64 (wrap64 z)
unfolding wrap64
wrap64-IsInt64 (pos n) = ground arith
wrap64-IsInt64 (negsuc n) = ground arith

wrap64_overflow : wrap64 (pos (2 ^ 63)) ≡ min_int64
unfolding wrap64
wrap64_overflow = refl
