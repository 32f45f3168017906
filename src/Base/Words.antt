-- ===== src/Base/Words.antt =====
-- 64-bit words. An `int64` is kept as its bit pattern, a number below 2^64; comparing two of them
-- as signed numbers is comparing them after the sign bit is flipped.
use Prim.Native.Nat.{ℕ, ◌+◌, ◌-◌, ◌%◌, ◌^◌, ◌<◌}
use mathlib.Core.Path.{◌≡◌}
use mathlib.Core.Bool.{Bool, true, false}
use native.Mathlib.Omega.{arith}
use grid_kv.Base.Tests.{ltb}

abbrev pub u64_mod : ℕ
u64_mod = 2 ^ 64

-- The bit pattern with its sign bit flipped: monotone from the signed order to that of ℕ.
unfoldable pub bias : ℕ → ℕ
bias a = (a + 2 ^ 63) % 2 ^ 64

-- `a < b` on int64.
unfoldable pub slt : ℕ → ℕ → Bool
unfolding bias
slt a b = ltb (bias a) (bias b)

-- `a + b` and `a - b` on int64 and uint64, with wrap-around.
unfoldable pub add64 : ℕ → ℕ → ℕ
add64 a b = (a + b) % 2 ^ 64

unfoldable pub sub64 : ℕ → ℕ → ℕ
sub64 a b = (a + 2 ^ 64 - b) % 2 ^ 64

pub slt_irrefl : (a : ℕ) → slt a a ≡ false
unfolding slt
slt_irrefl a = ground arith

pub slt_trans_ge : (a b c : ℕ) → slt b a ≡ false → slt c b ≡ false → slt c a ≡ false
unfolding slt
slt_trans_ge a b c h k = ground arith

pub slt_asymm : (a b : ℕ) → slt a b ≡ true → slt b a ≡ false
unfolding slt
slt_asymm a b h = ground arith

-- Below 2^63 the signed order is the order of the numbers.
pub slt_nonneg : (a b : ℕ) → a < 2 ^ 63 → b < 2 ^ 63 → slt a b ≡ ltb a b
unfolding slt
slt_nonneg a b h k = ground arith

pub slt_trans : (a b c : ℕ) → slt a b ≡ true → slt b c ≡ true → slt a c ≡ true
unfolding slt
slt_trans a b c h k = ground arith
