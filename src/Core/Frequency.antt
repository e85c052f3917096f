-- ===== src/Core/Frequency.antt =====
-- Frequency limits of one target: `FrequencyPolicy`, the snapping functions and
-- `constrain_frequency_limits` of crates/uperf-core/src/policy.rs.
pub mod Snap
pub mod Rounding
pub mod Constrain
pub mod Model
use uperf_linux_rev.Base.Words.{saturating_add, saturating_mul, is_multiple_of}
use uperf_linux_rev.Base.{
  ℕ, ◌*◌, ◌/◌, min, max, Bool, not, ◌&&◌, ◌||◌, Option, none, some, List, [], ◌∷◌, ◌++◌, ltb, leb,
  ◌==◌, if◌then◌else◌, some_or, Result, ok, err, ok_or, any, keep,
}
use uperf_linux_rev.Core.Units.{FrequencyLimits, is_valid}
use uperf_linux_rev.Core.Errors.{
  PolicyError, invalid_hardware_limits, invalid_frequency_model, opp_outside_hardware_limits,
  invalid_frequency_quantum, no_opp_at_or_below_cap, reversed_request,
}
use uperf_linux_rev.Core.Sorting.{sort_unstable, dedup, least, greatest, clamp}

pub record FrequencyPolicy : Type 0 where
  pub hardware_limits : FrequencyLimits
  pub floor : ℕ
  pub reference : ℕ
  pub efficient_cap : ℕ
  pub hertz_per_unit : ℕ
  pub available_frequencies : List ℕ

-- The ordering that `validate` asks of the model.
abbrev pub is_ordered_model : FrequencyPolicy → Bool
is_ordered_model p =
    leb p.hardware_limits.min p.floor
    && leb p.floor p.reference
    && leb p.reference p.hardware_limits.max
    && leb p.floor p.efficient_cap
    && leb p.efficient_cap p.hardware_limits.max

abbrev pub named_frequencies : FrequencyPolicy → List ℕ
named_frequencies p =
    p.hardware_limits.min ∷ p.hardware_limits.max ∷ p.floor ∷ p.reference ∷ p.efficient_cap ∷ []

-- `FrequencyPolicy::validate`.
unfoldable pub validate : FrequencyPolicy → Result PolicyError (Unit {0})
validate p =
    if not (is_valid p.hardware_limits)
    then err (invalid_hardware_limits p.hardware_limits)
    else if not (is_ordered_model p)
    then err invalid_frequency_model
    else if p.hertz_per_unit == 0
        || any (λ f. not (is_multiple_of f p.hertz_per_unit))
            (named_frequencies p ++ p.available_frequencies)
    then err invalid_frequency_quantum
    else if any (λ f. ltb f p.hardware_limits.min || ltb p.hardware_limits.max f)
        p.available_frequencies
    then err opp_outside_hardware_limits
    else ok tt

unfoldable pub quantize_down : ℕ → ℕ → ℕ
quantize_down value quantum = value / quantum * quantum

unfoldable pub quantize_up : ℕ → ℕ → ℕ
quantize_up value quantum =
    saturating_mul
      (saturating_add (value / quantum) (if is_multiple_of value quantum then 0 else 1)) quantum

-- The least frequency of the list at or above the request, and the greatest at or below it.
unfoldable pub snap_up : List ℕ → ℕ → Option ℕ
snap_up opps requested = least (keep (λ f. leb requested f) opps)

unfoldable pub snap_down : List ℕ → ℕ → Option ℕ
snap_down opps requested = greatest (keep (λ f. leb f requested) opps)

-- `[Some(hardware.max), administrator_cap, thermal_cap].into_iter().flatten()`.
abbrev pub cap_list : Option ℕ → List ℕ → List ℕ
cap_list none rest = rest
cap_list (some c) rest = c ∷ rest

unfoldable pub hard_cap : FrequencyLimits → Option ℕ → Option ℕ → ℕ
hard_cap hardware administrator_cap thermal_cap = clamp hardware.min hardware.max (
    some_or (least (hardware.max ∷ cap_list administrator_cap (cap_list thermal_cap [])))
      hardware.max)

-- The discovered operating points inside the hardware range, sorted, each once.
unfoldable pub usable_opps : FrequencyLimits → List ℕ → List ℕ
usable_opps hardware available_frequencies =
    dedup
      (sort_unstable (keep (λ f. leb hardware.min f && leb f hardware.max) available_frequencies))

unfoldable pub constrained_max : List ℕ → FrequencyLimits → ℕ → ℕ → Result PolicyError ℕ
constrained_max [] hardware unsnapped hertz_per_unit =
    ok (max (quantize_down unsnapped hertz_per_unit) hardware.min)
constrained_max (f ∷ fs) hardware unsnapped hertz_per_unit =
    ok_or (snap_down (f ∷ fs) unsnapped) (no_opp_at_or_below_cap unsnapped)

-- `snap_up(..).filter(|frequency| *frequency <= max).unwrap_or(max)`.
abbrev pub at_most_or : ℕ → Option ℕ → ℕ
at_most_or m none = m
at_most_or m (some f) = if leb f m then f else m

unfoldable pub constrained_min : List ℕ → ℕ → ℕ → ℕ → ℕ
constrained_min [] maximum unsnapped hertz_per_unit =
    min (quantize_up unsnapped hertz_per_unit) maximum
constrained_min (f ∷ fs) maximum unsnapped hertz_per_unit =
    at_most_or maximum (snap_up (f ∷ fs) unsnapped)

abbrev pub with_max :
    FrequencyLimits
    → FrequencyLimits
    → List ℕ
    → ℕ
    → Result PolicyError ℕ
    → Result PolicyError FrequencyLimits
with_max requested hardware opps hertz_per_unit (err e) = err e
with_max requested hardware opps hertz_per_unit (ok maximum) = ok (record {
  min = constrained_min opps maximum (clamp hardware.min maximum requested.min) hertz_per_unit;
  max = maximum;
})

-- The body behind the guards: the maximum is snapped before the minimum.
abbrev pub constrain_checked :
    FrequencyLimits → FrequencyLimits → ℕ → List ℕ → ℕ → Result PolicyError FrequencyLimits
constrain_checked requested hardware cap opps hertz_per_unit =
    with_max requested hardware opps hertz_per_unit
      (constrained_max opps hardware (clamp hardware.min cap requested.max) hertz_per_unit)

abbrev pub has_bad_quantum : FrequencyLimits → ℕ → Bool
has_bad_quantum hardware hertz_per_unit =
    hertz_per_unit == 0
    || not (is_multiple_of hardware.min hertz_per_unit)
    || not (is_multiple_of hardware.max hertz_per_unit)

-- `constrain_frequency_limits`.
unfoldable pub constrain_frequency_limits :
    FrequencyLimits
    → FrequencyLimits
    → Option ℕ
    → Option ℕ
    → List ℕ
    → ℕ
    → Result PolicyError FrequencyLimits
constrain_frequency_limits requested hardware administrator_cap thermal_cap available
      hertz_per_unit =
    if not (is_valid hardware)
    then err (invalid_hardware_limits hardware)
    else if not (is_valid requested)
    then err (reversed_request requested)
    else if has_bad_quantum hardware hertz_per_unit
    then err invalid_frequency_quantum
    else constrain_checked requested hardware (hard_cap hardware administrator_cap thermal_cap)
        (usable_opps hardware available) hertz_per_unit
