-- ===== src/Base/Words.antt =====
-- Unsigned machine words: saturating, checked and rounding operations of `u64`.
use Prim.Native.Nat.{ℕ, ◌+◌, ◌-◌, ◌*◌, ◌/◌, ◌%◌, min}
use mathlib.Core.Bool.{Bool}
use mathlib.Core.Option.{Option, none, some}
use uperf_linux_rev.Base.Tests.{leb, ◌==◌, if◌then◌else◌}

abbrev pub u64_max : ℕ
u64_max = 18446744073709551615

-- `u64::saturating_add`, `saturating_sub`, `saturating_mul`.
abbrev pub saturating_add : ℕ → ℕ → ℕ
saturating_add a b = min (a + b) u64_max

abbrev pub saturating_sub : ℕ → ℕ → ℕ
saturating_sub a b = a - b

abbrev pub saturating_mul : ℕ → ℕ → ℕ
saturating_mul a b = min (a * b) u64_max

-- `u64::checked_mul`, `checked_div`.
abbrev pub checked_mul : ℕ → ℕ → Option ℕ
checked_mul a b = if leb (a * b) u64_max then some (a * b) else none

abbrev pub checked_div : ℕ → ℕ → Option ℕ
checked_div a b = if b == 0 then none else some (a / b)

-- `u64::is_multiple_of`: zero has only itself as a multiple.
abbrev pub is_multiple_of : ℕ → ℕ → Bool
is_multiple_of a b = if b == 0 then a == 0 else (a % b) == 0
