-- ===== src/Core/Frequency/Rounding.antt =====
-- `quantize_down` and `quantize_up` of crates/uperf-core/src/policy.rs, with the saturation of
-- the latter.
use native.Mathlib.Nat.{mul-mod_left, mod-add-div', mod-lt}
use uperf_linux_rev.Base.Words.{is_multiple_of, u64_max}
use uperf_linux_rev.Base.{
  ℕ, zero, suc, ◌+◌, ◌*◌, ◌/◌, ◌%◌, ◌≤◌, ◌<◌, min, max, ◌≡◌, ◌⊎◌, inl, inr, true, arith, leb,
  if◌then◌else◌, Bool-cases,
}
use uperf_linux_rev.Core.Frequency.{quantize_up, quantize_down}

pub quantize_down-le : (v q : ℕ) → quantize_down v q ≤ v
unfolding quantize_down
quantize_down-le v q = omega (arith, mod-add-div' v q)

pub quantize_down_multiple : (v q : ℕ) → 0 < q → is_multiple_of (quantize_down v q) q ≡ true
unfolding quantize_down
quantize_down_multiple v q h = ground (arith, mul-mod_left (v / q) q)

pub max_multiple :
    (a b q : ℕ)
    → is_multiple_of a q ≡ true
    → is_multiple_of b q ≡ true
    → is_multiple_of (max a b) q ≡ true
max_multiple a b q h k = ground arith

mul-ge : (u q v : ℕ) → 0 < q → v ≤ u → v ≤ u * q
mul-ge u zero v pos le = elim pos [ ]
mul-ge u (suc q) v pos le = grind arith

covers :
    (d r q c u v : ℕ)
    → r + d * q ≡ v
    → 0 < q
    → v ≤ u
    → ((c ≡ 0) × (r ≡ 0)) ⊎ ((c ≡ 1) × (r < q))
    → v ≤ min (d + c) u * q
covers d r q c u v split pos word round = elim (Bool-cases (leb (d + c) u)) [
  | inl h ↦ let e : min (d + c) u ≡ d + c = ground arith in rw e (grind arith)
  | inr h ↦ let e : min (d + c) u ≡ u = ground arith in rw e (mul-ge u q v pos word)
]

round_up_covers :
    (v q : ℕ)
    → 0 < q
    → v ≤ u64_max
    → v ≤ min (v / q + (if is_multiple_of v q then 0 else 1)) u64_max * q
round_up_covers v q pos word = ground (
  arith,
  covers (v / q) (v % q) q 0 u64_max v (mod-add-div' v q),
  covers (v / q) (v % q) q 1 u64_max v (mod-add-div' v q),
  mod-lt v pos,
)

either_multiple :
    (k q m : ℕ)
    → is_multiple_of m q ≡ true
    → m ≤ u64_max
    → 0 < q
    → is_multiple_of (min (min (k * q) u64_max) m) q ≡ true
either_multiple k q m h word pos = ground (arith, mul-mod_left k q)

-- Up to a maximum that is itself a whole number of units, rounding up stays at or above the value
-- and in whole units, saturation included.
pub quantize_up_least :
    (v q maximum : ℕ)
    → 0 < q
    → maximum ≤ u64_max
    → v ≤ maximum
    → is_multiple_of maximum q ≡ true
    → (v ≤ min (quantize_up v q) maximum)
      × (is_multiple_of (min (quantize_up v q) maximum) q ≡ true)
unfolding quantize_up
quantize_up_least v q maximum pos word le mult = (
  omega (arith, round_up_covers v q pos (omega arith)),
  either_multiple _ q maximum mult word pos,
)
