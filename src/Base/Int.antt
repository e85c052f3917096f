-- ===== src/Base/Int.antt =====
-- Signed 64-bit integers as integers, with the wrap-around of a difference written out.
use Prim.Native.Nat.{ℕ, suc, ◌+◌, ◌-◌, ◌≤◌, ◌<◌}
use mathlib.Core.Path.{◌≡◌}
use mathlib.Core.Bool.{Bool}
use native.Mathlib.Omega.{arith}
use uperf_linux_rev.Base.Tests.{ltb, leb, if◌then◌else◌}

-- `negsuc n` is -(n + 1).
pub data ℤ : Type 0 where
  pos : ℕ → ℤ
  negsuc : ℕ → ℤ

abbrev pub pos_part : ℤ → ℕ
pos_part (pos n) = n
pos_part (negsuc n) = 0

abbrev pub neg_part : ℤ → ℕ
neg_part (pos n) = 0
neg_part (negsuc n) = suc n

-- a - b, as an integer.
abbrev pub sub_ℕ : ℕ → ℕ → ℤ
sub_ℕ a b = if leb b a then pos (a - b) else negsuc (b - a - 1)

infixl 65 ◌-ℤ◌
infix 50 ◌≤ℤ◌ ◌<ℤ◌
unfoldable pub ◌-ℤ◌ : ℤ → ℤ → ℤ
a -ℤ b = sub_ℕ (pos_part a + neg_part b) (neg_part a + pos_part b)

abbrev pub ◌≤ℤ◌ : ℤ → ℤ → Type 0
a ≤ℤ b = pos_part a + neg_part b ≤ pos_part b + neg_part a

abbrev pub ◌<ℤ◌ : ℤ → ℤ → Type 0
a <ℤ b = pos_part a + neg_part b < pos_part b + neg_part a

abbrev pub leℤ : ℤ → ℤ → Bool
leℤ a b = leb (pos_part a + neg_part b) (pos_part b + neg_part a)

abbrev pub ltℤ : ℤ → ℤ → Bool
ltℤ a b = ltb (pos_part a + neg_part b) (pos_part b + neg_part a)

pub -ℤ_parts :
    (a b : ℤ)
    → pos_part (a -ℤ b) + neg_part a + pos_part b ≡ neg_part (a -ℤ b) + pos_part a + neg_part b
unfolding ◌-ℤ◌
-ℤ_parts a b = ground arith

abbrev pub two_pow_64 : ℕ
two_pow_64 = 18446744073709551616

abbrev pub IsI64 : ℤ → Type 0
IsI64 z = (pos_part z < 9223372036854775808) × (neg_part z ≤ 9223372036854775808)

-- The two's complement reading of a value that is at most one range away, as a difference is.
pub wrap_i64 : ℤ → ℤ
wrap_i64 (pos n) = if ltb n 9223372036854775808 then pos n else sub_ℕ n two_pow_64
wrap_i64 (negsuc n) = if ltb n 9223372036854775808 then negsuc n else sub_ℕ two_pow_64 (suc n)

unfoldable pub sub_i64 : ℤ → ℤ → ℤ
unfolding wrap_i64
sub_i64 a b = wrap_i64 (a -ℤ b)

wrap_i64-id : (z : ℤ) → IsI64 z → wrap_i64 z ≡ z
unfolding wrap_i64
wrap_i64-id (pos n) h = ground arith
wrap_i64-id (negsuc n) h = ground arith

-- Without overflow the wrapped difference is the difference.
pub sub_i64-exact : (a b : ℤ) → IsI64 (a -ℤ b) → sub_i64 a b ≡ a -ℤ b
unfolding sub_i64
sub_i64-exact a b h = wrap_i64-id (a -ℤ b) h
