-- ===== src/Base/Word.antt =====
-- Go's int64 and uint64: integers that wrap around.
use Prim.Native.Nat.{ℕ, ◌+◌, ◌-◌, ◌%◌, ◌^◌, ◌<◌}
use mathlib.Core.Path.{◌≡◌}
use native.Mathlib.Omega.{arith}
use wthelly.Base.Tests.{ltb, if◌then◌else◌}
use wthelly.Base.Int.{ℤ, pos, negsuc, pos_part, neg_part, ◌+ℤ◌}

-- the bit pattern of an integer, and the int64 that a pattern stands for
abbrev pub to_uint64 : ℤ → ℕ
to_uint64 a = (pos_part a + (2 ^ 64 - neg_part a % 2 ^ 64)) % 2 ^ 64

abbrev pub to_int64 : ℕ → ℤ
to_int64 n = if ltb n (2 ^ 63) then pos n else negsuc (2 ^ 64 - 1 - n)

-- `a + b` on int64
unfoldable pub add_int64 : ℤ → ℤ → ℤ
unfolding ◌+ℤ◌
add_int64 a b = to_int64 (to_uint64 (a +ℤ b))

-- Below 2^63 the sum of two weights that are not negative is exact.
pub add_int64-exact : (a b : ℕ) → a + b < 2 ^ 63 → add_int64 (pos a) (pos b) ≡ pos (a + b)
unfolding add_int64
add_int64-exact a b h = ground arith

-- `x++` on uint64
abbrev pub next_uint64 : ℕ → ℕ
next_uint64 n = (n + 1) % 2 ^ 64
