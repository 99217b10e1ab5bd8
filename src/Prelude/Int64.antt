-- ===== src/Prelude/Int64.antt =====
-- Go's `int64` and `uint64`: an `int64` is an integer in range, and an operation that leaves the
-- range wraps around.
use Prim.Native.Nat.{ℕ, ◌-◌, ◌%◌, ◌<◌}
use mathlib.Core.Path.{◌≡◌}
use mathlib.Core.Logic.{◌≢◌}
use mathlib.Core.Bool.{Bool, true, not, ◌&&◌, ◌||◌}
use native.Mathlib.Omega.{arith}
use tradeedge.Prelude.Tests.{ltb, if◌then◌else◌}
use tradeedge.Prelude.Int.{ℤ, pos, negsuc, ◌+ℤ◌, ◌-ℤ◌, ◌≤ℤ◌, ltb_ℤ, int_laws}

-- 2 ^ 63 and 2 ^ 64.
abbrev pub half_range : ℕ
half_range = 9223372036854775808

abbrev pub full_range : ℕ
full_range = 18446744073709551616

-- `math.MaxInt64`, `math.MinInt64` and `math.MaxUint64`.
abbrev pub max_int64 : ℤ
max_int64 = pos 9223372036854775807

abbrev pub min_int64 : ℤ
min_int64 = negsuc 9223372036854775807

abbrev pub max_uint64 : ℕ
max_uint64 = 18446744073709551615

-- `big.Int.IsInt64`
abbrev pub in_int64 : ℤ → Bool
in_int64 (pos n) = ltb n half_range
in_int64 (negsuc n) = ltb n half_range

abbrev pub IsInt64 : ℤ → Type 0
IsInt64 (pos n) = n < half_range
IsInt64 (negsuc n) = n < half_range

-- What 64 bits keep of an integer.
unfoldable pub wrap64 : ℤ → ℤ
wrap64 (pos n) =
    let m = n % full_range in if ltb m half_range then pos m else negsuc (full_range - m - 1)
wrap64 (negsuc n) =
    let m = n % full_range in if ltb m half_range then negsuc m else pos (full_range - m - 1)

abbrev pub wrap_u64 : ℕ → ℕ
wrap_u64 n = n % full_range

pub wrap64_of_IsInt64 : (a : ℤ) → IsInt64 a → wrap64 a ≡ a
unfolding wrap64
wrap64_of_IsInt64 (pos n) h = ground arith
wrap64_of_IsInt64 (negsuc n) h = ground arith

pub wrap64-IsInt64 : (a : ℤ) → IsInt64 (wrap64 a)
unfolding wrap64
wrap64-IsInt64 (pos n) = ground arith
wrap64-IsInt64 (negsuc n) = ground arith

pub IsInt64_bounds : (a : ℤ) → IsInt64 a → (min_int64 ≤ℤ a) × (a ≤ℤ max_int64)
IsInt64_bounds (pos n) h = omega arith
IsInt64_bounds (negsuc n) h = omega arith

pub IsInt64-of_bounds : (a : ℤ) → min_int64 ≤ℤ a → a ≤ℤ max_int64 → IsInt64 a
IsInt64-of_bounds (pos n) h k = omega arith
IsInt64-of_bounds (negsuc n) h k = omega arith

pub in_int64→IsInt64 : (a : ℤ) → in_int64 a ≡ true → IsInt64 a
in_int64→IsInt64 (pos n) h = ground arith
in_int64→IsInt64 (negsuc n) h = ground arith

-- A sum, difference or product that is in range does not wrap.
pub wrap64_of_in_int64 : (a : ℤ) → in_int64 a ≡ true → wrap64 a ≡ a
wrap64_of_in_int64 a h = wrap64_of_IsInt64 a (in_int64→IsInt64 a h)

-- The test for `left + right` out of range: `(right > 0 && left > math.MaxInt64-right) ||
-- (right < 0 && left < math.MinInt64-right)`.
unfoldable pub add_overflows : ℤ → ℤ → Bool
add_overflows left right =
    (ltb_ℤ (pos 0) right && ltb_ℤ (wrap64 (max_int64 -ℤ right)) left)
    || (ltb_ℤ right (pos 0) && ltb_ℤ left (wrap64 (min_int64 -ℤ right)))

-- The test is exact.
pub add_overflows_lem :
    (l r : ℤ) → IsInt64 l → IsInt64 r → add_overflows l r ≡ not (in_int64 (l +ℤ r))
unfolding add_overflows wrap64 ◌+ℤ◌ ◌-ℤ◌
add_overflows_lem (pos m) (pos n) h k = ground arith
add_overflows_lem (pos m) (negsuc n) h k = ground arith
add_overflows_lem (negsuc m) (pos n) h k = ground arith
add_overflows_lem (negsuc m) (negsuc n) h k = ground arith

pub opposite_fits : (r : ℤ) → IsInt64 r → r ≢ min_int64 → IsInt64 (pos 0 -ℤ r)
unfolding ◌-ℤ◌
opposite_fits (pos n) h k = ground arith
opposite_fits (negsuc n) h k = ground arith

pub add_opposite : (l r : ℤ) → l +ℤ (pos 0 -ℤ r) ≡ l -ℤ r
add_opposite l r = omega int_laws
