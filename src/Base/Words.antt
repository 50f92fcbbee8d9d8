-- ===== src/Base/Words.antt =====
-- Go's fixed-width integers: `uint64` as a number below 2^64, `int64` as an integer that wraps.
use Prim.Native.Nat.{ℕ, ◌+◌, ◌-◌, ◌^◌, ◌%◌, ◌≤◌, ◌<◌}
use mathlib.Core.Path.{◌≡◌}
use native.Mathlib.Omega.{arith}
use komari_bridge.Base.Tests.{ltb, if◌then◌else◌}
use komari_bridge.Base.Int.{ℤ, pos, negsuc}

abbrev pub two63 : ℕ
two63 = 2 ^ 63

abbrev pub two64 : ℕ
two64 = 2 ^ 64

-- The int64 values.
abbrev pub IsInt64 : ℤ → Type 0
IsInt64 (pos n) = n < two63
IsInt64 (negsuc n) = n < two63

-- `int64(x)` of a uint64: the bit pattern read as a signed number.
unfoldable pub to_int64 : ℕ → ℤ
to_int64 n = let r = n % two64 in if ltb r two63 then pos r else negsuc (two64 - 1 - r)

-- `uint64(x)` of an int64, and the bit pattern of any integer.
unfoldable pub to_uint64 : ℤ → ℕ
to_uint64 (pos n) = n % two64
to_uint64 (negsuc n) = two64 - 1 - n % two64

-- Signed arithmetic wraps.
unfoldable pub wrap64 : ℤ → ℤ
unfolding to_int64 to_uint64
wrap64 z = to_int64 (to_uint64 z)

pub wrap64-eq : (z : ℤ) → IsInt64 z → wrap64 z ≡ z
unfolding wrap64
wrap64-eq (pos n) h = ground arith
wrap64-eq (negsuc n) h = ground arith

-- `a - b` of uint64 values.
unfoldable pub sub_uint64 : ℕ → ℕ → ℕ
sub_uint64 a b = (a + two64 - b) % two64

pub sub_uint64-eq : (a b : ℕ) → a < two64 → b ≤ a → sub_uint64 a b ≡ a - b
unfolding sub_uint64
sub_uint64-eq a b h k = omega arith

pub to_int64-pos : (n : ℕ) → n < two63 → to_int64 n ≡ pos n
unfolding to_int64
to_int64-pos n h = ground arith
