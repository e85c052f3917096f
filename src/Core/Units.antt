-- ===== src/Core/Units.antt =====
-- Units, limits and readings: crates/uperf-core/src/domain.rs.
use uperf_linux_rev.Base.Words.{saturating_add, saturating_sub}
use uperf_linux_rev.Base.Int.{ℤ}
use uperf_linux_rev.Base.{
  ℕ, ◌≡◌, ◌↔◌, Bool, true, false, ◌&&◌, Option, arith, leb, ◌==◌, if◌then◌else◌, Result, ok, err,
}

-- `FrequencyLimits`, in hertz.
pub record FrequencyLimits : Type 0 where
  pub min : ℕ
  pub max : ℕ

-- `FrequencyLimits::is_valid`.
abbrev pub is_valid : FrequencyLimits → Bool
is_valid l = leb l.min l.max

-- `InvalidFrequencyLimits`.
pub data InvalidFrequencyLimits : Type 0 where
  reversed : ℕ → ℕ → InvalidFrequencyLimits

-- `FrequencyLimits::new`.
unfoldable pub new_limits : ℕ → ℕ → Result InvalidFrequencyLimits FrequencyLimits
new_limits lo hi = if leb lo hi then ok (record { min = lo; max = hi }) else err (reversed lo hi)

-- `==` of the derived `PartialEq`.
abbrev pub same_limits : FrequencyLimits → FrequencyLimits → Bool
same_limits a b = a.min == b.min && a.max == b.max

pub same_limits_iff : (a b : FrequencyLimits) → (same_limits a b ≡ true) ↔ (a ≡ b)
same_limits_iff a b = ground arith

-- `MonotonicMillis::saturating_add`, `saturating_duration_since`.
abbrev pub later : ℕ → ℕ → ℕ
later at duration_ms = saturating_add at duration_ms

abbrev pub duration_since : ℕ → ℕ → ℕ
duration_since now earlier = saturating_sub now earlier

pub data SensorHealth : Type 0 where
  healthy stale unavailable : SensorHealth

abbrev pub is_healthy : SensorHealth → Bool
is_healthy healthy = true
is_healthy stale = false
is_healthy unavailable = false

-- `ThermalReading`: a temperature in thousandths of a degree, when it was read, and how well.
pub record ThermalReading : Type 0 where
  pub temperature : Option ℤ
  pub sampled_at : ℕ
  pub health : SensorHealth
