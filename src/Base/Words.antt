-- ===== src/Base/Words.antt =====
-- Machine words. An unsigned word is a number below its modulus. A signed 64-bit word is its bit
-- pattern, a number below 2 ^ 64: a nonnegative i64 is the number itself. Additions wrap, as
-- they do in a release build; an atomic fetch_add wraps in every build.
use pocket_data_mining.Base.Tests.{ltb}
use Prim.Native.Nat.{ℕ, ◌+◌, ◌-◌, ◌%◌, ◌^◌, ◌<◌}
use mathlib.Core.Path.{◌≡◌, refl}
use mathlib.Core.Bool.{Bool, true, false}
use native.Mathlib.Omega.{arith}

abbrev pub u16_mod : ℕ
u16_mod = 2 ^ 16

abbrev pub u32_mod : ℕ
u32_mod = 2 ^ 32

abbrev pub u64_mod : ℕ
u64_mod = 2 ^ 64

abbrev pub add_u16 : ℕ → ℕ → ℕ
add_u16 a b = (a + b) % u16_mod

abbrev pub add_u32 : ℕ → ℕ → ℕ
add_u32 a b = (a + b) % u32_mod

-- usize, u64 and AtomicUsize::fetch_add.
abbrev pub add_u64 : ℕ → ℕ → ℕ
add_u64 a b = (a + b) % u64_mod

-- AtomicUsize::fetch_sub.
abbrev pub sub_u64 : ℕ → ℕ → ℕ
sub_u64 a b = (a + u64_mod - b) % u64_mod

-- `a - b` is already `saturating_sub` on the naturals; the name is kept for the reader.
abbrev pub saturating_sub : ℕ → ℕ → ℕ
saturating_sub a b = a - b

-- i64 addition and subtraction are those of the patterns.
abbrev pub add_i64 : ℕ → ℕ → ℕ
add_i64 a b = (a + b) % u64_mod

abbrev pub sub_i64 : ℕ → ℕ → ℕ
sub_i64 a b = (a + u64_mod - b) % u64_mod

-- The order of i64 on patterns: adding 2 ^ 63 turns it into the order of the numbers.
abbrev pub lt_i64 : ℕ → ℕ → Bool
lt_i64 a b = ltb ((a + 2 ^ 63) % u64_mod) ((b + 2 ^ 63) % u64_mod)

-- On nonnegative values the signed order is the order of the numbers.
pub lt_i64-nonneg : (a b : ℕ) → a < 2 ^ 63 → b < 2 ^ 63 → lt_i64 a b ≡ ltb a b
lt_i64-nonneg a b ha hb = ground arith

pub add_i64-nonneg : (a b : ℕ) → a + b < 2 ^ 63 → add_i64 a b ≡ a + b
add_i64-nonneg a b h = omega arith

-- A negative value is below every nonnegative one.
minus_one_below_zero : lt_i64 (2 ^ 64 - 1) 0 ≡ true
minus_one_below_zero = refl

five_not_below_minus_two : lt_i64 5 (2 ^ 64 - 2) ≡ false
five_not_below_minus_two = refl
