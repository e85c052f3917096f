-- ===== src/Core/Examples/Limits.antt =====
-- Frequency limits on a machine with six operating points.
use uperf_linux_rev.Core.Frequency.{snap_up}
use uperf_linux_rev.Core.Frequency.{constrained_min}
use uperf_linux_rev.Core.Sorting.{least}
use uperf_linux_rev.Core.Frequency.{hard_cap}
use uperf_linux_rev.Core.Sorting.{greatest}
use uperf_linux_rev.Core.Frequency.{snap_down}
use uperf_linux_rev.Core.Sorting.{sort_unstable}
use uperf_linux_rev.Core.Sorting.{dedup}
use uperf_linux_rev.Core.Frequency.{constrained_max}
use uperf_linux_rev.Base.{ℕ, ◌≡◌, refl, ◌↔◌, none, some, List, [], ◌∷◌, arith, ok}
use uperf_linux_rev.Core.Frequency.{
  FrequencyPolicy, constrain_frequency_limits, usable_opps, validate,
}
use uperf_linux_rev.Core.Frequency.Constrain.{
  IsConstrained, constrain_frequency_limits-IsConstrained,
}
use uperf_linux_rev.Core.Frequency.Model.{IsModel, validate_iff}
use uperf_linux_rev.Core.Units.{FrequencyLimits}

abbrev hardware : FrequencyLimits
hardware = record { min = 300; max = 3000 }

abbrev requested : FrequencyLimits
requested = record { min = 500; max = 2500 }

abbrev points : List ℕ
points = 300 ∷ 600 ∷ 1200 ∷ 1800 ∷ 2400 ∷ 3000 ∷ []

constrain_frequency_limits-IsConstrained_example :
    IsConstrained requested hardware
      (some 2000)
      none
      (usable_opps hardware points)
      100
      (record { min = 600; max = 1800 })
unfolding constrain_frequency_limits constrained_max usable_opps dedup sort_unstable snap_down
    greatest hard_cap least constrained_min snap_up
constrain_frequency_limits-IsConstrained_example =
    constrain_frequency_limits-IsConstrained requested hardware (some 2000) none points 100
      (record { min = 600; max = 1800 }) (omega arith) refl

abbrev model : FrequencyPolicy
model = record {
  hardware_limits = hardware;
  floor = 600;
  reference = 1800;
  efficient_cap = 1200;
  hertz_per_unit = 100;
  available_frequencies = points;
}

validate_iff_example : (validate model ≡ ok tt) ↔ IsModel model
validate_iff_example = validate_iff model
