-- ===== src/Base/Word.antt =====
-- uint64 and int64. Both are kept as the bit pattern, a number below 2 ^ 64.
use Prim.Native.Nat.{ℕ, ◌+◌, ◌-◌, ◌%◌, ◌^◌, ◌≤◌, ◌<◌}
use mathlib.Core.Path.{◌≡◌}
use native.Mathlib.Omega.{arith}
use sommelier.Base.Tests.{ltb, if◌then◌else◌}
use sommelier.Base.Int.{ℤ, pos, negsuc}

abbrev pub word : ℕ
word = 2 ^ 64

-- `a - b` and `a + b`, which wrap around.
unfoldable pub sub_u64 : ℕ → ℕ → ℕ
sub_u64 a b = (a + word - b) % word

unfoldable pub add_u64 : ℕ → ℕ → ℕ
add_u64 a b = (a + b) % word

-- The absolute value of the int64 with the bits of `x`.
unfoldable pub abs_int64 : ℕ → ℕ
abs_int64 x = if ltb x (2 ^ 63) then x else word - x

-- The integer that `int64(x)` is.
unfoldable pub int64 : ℕ → ℤ
int64 x = if ltb x (2 ^ 63) then pos x else negsuc (word - x - 1)

pub sub_u64_exact : (a b : ℕ) → b ≤ a → a < word → sub_u64 a b ≡ a - b
unfolding sub_u64
sub_u64_exact a b h k = omega arith

pub abs_int64_small : (a : ℕ) → a < 2 ^ 63 → abs_int64 a ≡ a
unfolding abs_int64
abs_int64_small a h = ground arith
