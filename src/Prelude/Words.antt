-- ===== src/Prelude/Words.antt =====
-- Go's fixed-width integers. An unsigned integer is its value, reduced by `u32` or `u64`. A signed
-- one is its two's complement pattern, a number below 2 ^ 64, compared through the offset 2 ^ 63.
use Prim.Native.Nat.{ℕ, ◌+◌, ◌-◌, ◌/◌, ◌%◌}
use mathlib.Core.Bool.{Bool, xor}
use advanced_golang_tutorial.Prelude.Tests.{ltb, leb, if◌then◌else◌}

abbrev pub two_64 : ℕ
two_64 = 18446744073709551616

abbrev pub two_63 : ℕ
two_63 = 9223372036854775808

abbrev pub two_32 : ℕ
two_32 = 4294967296

abbrev pub u64 : ℕ → ℕ
u64 n = n % 18446744073709551616

abbrev pub u32 : ℕ → ℕ
u32 n = n % 4294967296

-- Sum and difference of two patterns, which wrap.
abbrev pub add_i64 : ℕ → ℕ → ℕ
add_i64 a b = (a + b) % 18446744073709551616

abbrev pub sub_i64 : ℕ → ℕ → ℕ
sub_i64 a b = (a + 18446744073709551616 - b) % 18446744073709551616

abbrev pub offset_i64 : ℕ → ℕ
offset_i64 a = (a + 9223372036854775808) % 18446744073709551616

abbrev pub lt_i64 : ℕ → ℕ → Bool
lt_i64 a b = ltb (offset_i64 a) (offset_i64 b)

abbrev pub le_i64 : ℕ → ℕ → Bool
le_i64 a b = leb (offset_i64 a) (offset_i64 b)

abbrev pub is_negative : ℕ → Bool
is_negative a = leb 9223372036854775808 a

abbrev pub negate_i64 : ℕ → ℕ
negate_i64 a = (18446744073709551616 - a) % 18446744073709551616

abbrev pub abs_i64 : ℕ → ℕ
abs_i64 a = if is_negative a then negate_i64 a else a

-- Go's division truncates towards zero. The code that divides has tested the divisor.
abbrev pub div_i64 : ℕ → ℕ → ℕ
div_i64 a b =
    let q = abs_i64 a / abs_i64 b in if xor (is_negative a) (is_negative b) then negate_i64 q else q
