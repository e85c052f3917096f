-- ===== src/Actuator/Io/Roundtrip.antt =====
-- `encode_frequency` and `parse_hertz` of crates/uperf-actuator/src/lib.rs.
use uperf_linux_rev.Actuator.Io.{checked_div}
use native.Mathlib.Nat.{mod-add-div'}
use uperf_linux_rev.Base.Text.Decimal.{parse_u64-print_u64, trim-print_u64}
use uperf_linux_rev.Base.Words.{u64_max}
use uperf_linux_rev.Base.Text.{Text, text_key, print_u64}
use uperf_linux_rev.Base.{
  ℕ, zero, suc, ◌*◌, ◌/◌, ◌%◌, ◌≤◌, ◌≡◌, refl, sym, false, arith, ◌==◌, le→leb, ok, ok-injective,
}
use uperf_linux_rev.Actuator.Io.{encode_frequency, parse_hertz}
use uperf_linux_rev.Actuator.Target.{FrequencyTarget}

div-whole : (f h : ℕ) → f % h ≡ 0 → (f / h) * h ≡ f
div-whole f h whole = omega (arith, whole, mod-add-div' f h)

le-mul : (d h f : ℕ) → 1 ≤ h → d * h ≤ f → d ≤ f
le-mul d zero f k h = absurd (omega (arith, k))
le-mul d (suc h) f k le = grind arith

encoded :
    (t : FrequencyTarget) (frequency : ℕ) (value : Text)
    → 1 ≤ t.hertz_per_unit
    → encode_frequency t frequency ≡ ok value
    → value ≡ print_u64 (frequency / t.hertz_per_unit)
unfolding encode_frequency
encoded t frequency value pos h =
    let unit : (t.hertz_per_unit == 0) ≡ false = ground (arith, pos) in
    sym (ok-injective (rw (encode_frequency, checked_div, unit) at h))

decoded :
    (path : Text) (units h f : ℕ)
    → units ≤ u64_max
    → units * h ≡ f
    → f ≤ u64_max
    → parse_hertz path (print_u64 units) h ≡ ok f
unfolding parse_hertz
decoded path units h f small e word =
    rw
      (parse_hertz, trim-print_u64 units, parse_u64-print_u64 units small, e, le→leb f u64_max word)
      refl

-- A frequency that is a whole number of kernel units and fits a u64 is read back unchanged from the
-- text that is written for it.
pub parse_hertz-encode_frequency :
    (t : FrequencyTarget) (path : Text) (frequency : ℕ) (value : Text)
    → 1 ≤ t.hertz_per_unit
    → frequency % t.hertz_per_unit ≡ 0
    → frequency ≤ u64_max
    → encode_frequency t frequency ≡ ok value
    → parse_hertz path value t.hertz_per_unit ≡ ok frequency
parse_hertz-encode_frequency t path frequency value pos whole word h =
    let units = frequency / t.hertz_per_unit in
    let exact = div-whole frequency t.hertz_per_unit whole in
    let small = le-mul units t.hertz_per_unit frequency pos (omega (arith, exact)) in
    rw (encoded t frequency value pos h)
      (decoded path units t.hertz_per_unit frequency (omega (arith, small, word)) exact word)
