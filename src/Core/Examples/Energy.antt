-- ===== src/Core/Examples/Energy.antt =====
-- Two clusters under a thermal cap, over natural numbers in place of floating point.
use uperf_linux_rev.Core.Energy.Demand.{GovernorConfig}
use uperf_linux_rev.Core.Energy.Governor.{
  GovernorState, prepare_cluster, CpuTargetPolicy, GovernorInput, default_state,
}
use uperf_linux_rev.Core.Energy.Caps.{IsCapped, transition_governor-IsCapped}
use uperf_linux_rev.Core.Energy.Coverage.{Has, transition_governor-Has}
use uperf_linux_rev.Core.Energy.Cursor.{
  IsGoverned, default_state-Fits, transition_governor-IsGoverned,
}
use uperf_linux_rev.Core.Energy.Burst.{moved_cursor, transition_governor-frozen}
use uperf_linux_rev.Base.Maps.{get}
use uperf_linux_rev.Core.Energy.Bucket.{PowerBudgetConfig}
use uperf_linux_rev.Core.Energy.Model.{
  opp_at_or_below, cheapest, measured_at, measured_opp, measured_opps, expand_measured_opps,
  EnergyModel, EnergyOpp, MeasuredOppConfig, measured_opp_v1, from_config, snap_frequency_nearest,
}
use uperf_linux_rev.Core.Sorting.{least, sort_unstable, dedup}
use uperf_linux_rev.Core.Frequency.{validate, FrequencyPolicy}
use uperf_linux_rev.Base.Text.{Text, text, text_key}
use uperf_linux_rev.Base.{
  ℕ, ◌≡◌, refl, inl, inr, true, false, some, List, [], ◌∷◌, arith, Result, ok, err, All, In,
}
use uperf_linux_rev.Core.Examples.Load.{naturals}
use uperf_linux_rev.Core.Energy.Transition.{GovernorTransition, transition_governor}
use uperf_linux_rev.Core.Energy.Nearest.{IsNearer, snap_frequency_nearest-IsNearer}
use uperf_linux_rev.Core.Energy.Expansion.{IsExpansion, from_config-IsExpansion}

abbrev point : ℕ → ℕ → ℕ → MeasuredOppConfig
point f c p = record { frequency_hz = f; relative_capacity = c; power_mw_per_core = p }

abbrev points : List MeasuredOppConfig
points = point 300 3 30 ∷ point 1000 10 200 ∷ point 2000 20 900 ∷ []

abbrev opp : ℕ → ℕ → ℕ → EnergyOpp naturals
opp f c p = record { frequency_hz = f; performance = c; power_mw_per_core = p }

abbrev opps : List (EnergyOpp naturals)
opps = opp 300 3 30 ∷ opp 1000 10 200 ∷ opp 2000 20 900 ∷ []

abbrev pub model : EnergyModel naturals
model = record {
  opps = opps;
  control_opps = opps;
  performance_per_hz = 0;
  free_frequency_hz = 300;
  sweet_frequency_hz = 300;
  plain_frequency_hz = 300;
}

abbrev kernel_frequencies : List ℕ
kernel_frequencies = 2000 ∷ 300 ∷ 1000 ∷ 300 ∷ []

from_config-IsExpansion_example : IsExpansion naturals kernel_frequencies model
unfolding from_config dedup sort_unstable expand_measured_opps measured_opps measured_opp
    measured_at cheapest
from_config-IsExpansion_example =
    from_config-IsExpansion naturals (measured_opp_v1 points) kernel_frequencies model refl

snap_frequency_nearest-IsNearer_example :
    In (snap_frequency_nearest (300 ∷ 1000 ∷ 2000 ∷ []) 650) (300 ∷ 1000 ∷ 2000 ∷ [])
    × IsNearer 650 (snap_frequency_nearest (300 ∷ 1000 ∷ 2000 ∷ []) 650) 1000
snap_frequency_nearest-IsNearer_example =
    snap_frequency_nearest-IsNearer 650 1000 (300 ∷ 1000 ∷ 2000 ∷ []) (omega arith) (omega arith)
      (inr (inl refl))

abbrev pub frequency : FrequencyPolicy
frequency = record {
  hardware_limits = record { min = 300; max = 2000 };
  floor = 300;
  reference = 1000;
  efficient_cap = 1000;
  hertz_per_unit = 100;
  available_frequencies = 300 ∷ 1000 ∷ 2000 ∷ [];
}

abbrev pub cluster : List ℕ → CpuTargetPolicy naturals
cluster cpus = record { cpus = cpus; frequency = frequency; energy_model = some model }

abbrev pub little : Text
little = text "policy0"

abbrev pub big : Text
big = text "policy4"

abbrev pub governor : GovernorConfig naturals
governor = record {
  active_sample_ms = 20;
  idle_sample_ms = 80;
  active_load_threshold = 1;
  idle_load_threshold = 0;
  predict_threshold = 0;
  ramp_latency_ms = 100;
  min_opp_residency_ms = 10;
}

abbrev pub budget : PowerBudgetConfig naturals
budget = record {
  slow_limit_power_mw = 500;
  fast_limit_power_mw = 1000;
  fast_limit_capacity_mj = 50;
  fast_limit_recover_scale = 1;
}

-- The first cluster is busy, the second is idle and hot.
abbrev input : ℕ → GovernorInput naturals
input burst = record {
  timestamp = 1000;
  targets = (little, cluster (0 ∷ 1 ∷ [])) ∷ (big, cluster (4 ∷ [])) ∷ [];
  raw_loads = (little, 1) ∷ [];
  active_load_sums = (little, 2) ∷ [];
  observed_frequencies = (little, 1000) ∷ [];
  administrator_caps = [];
  thermal_caps = (big, 1500) ∷ [];
  config = governor;
  power_budget = budget;
  margin = 0;
  burst = burst;
  limit_efficiency = true;
  integrate_elapsed_time = true;
}

abbrev pub value_or : {E A : Type 0} → A → Result E A → A
value_or d (ok a) = a
value_or d (err e) = d

abbrev nothing : GovernorTransition naturals
nothing = record {
  limits = [];
  next_state = default_state naturals;
  diagnostics = record {
    elapsed_ms = 0;
    estimated_package_power_mw = 0;
    bucket_remaining_mj = 0;
    selected_package_budget_mw = 0;
    bypassed_power_budget = false;
    shared_ramp_progress = 0;
    targets = [];
  };
}

abbrev transition : ℕ → GovernorTransition naturals
transition burst =
    value_or nothing (transition_governor naturals (default_state naturals) (input burst))

transition_succeeds :
    transition_governor naturals (default_state naturals) (input 0) ≡ ok (transition 0)
unfolding transition_governor default_state prepare_cluster validate opp_at_or_below least get
transition_succeeds = refl

transition_governor-IsCapped_example : All (IsCapped naturals (input 0)) (transition 0).limits
transition_governor-IsCapped_example =
    transition_governor-IsCapped naturals (input 0) (default_state naturals) (transition 0)
      transition_succeeds

transition_governor-Has_example : Has big (transition 0).limits
transition_governor-Has_example =
    transition_governor-Has naturals (input 0) (default_state naturals) (transition 0) big
      transition_succeeds (inr (inl refl))

transition_governor-IsGoverned_example : IsGoverned naturals 100 (transition 0).next_state
transition_governor-IsGoverned_example =
    transition_governor-IsGoverned naturals (input 0) (default_state naturals) (transition 0)
      (default_state-Fits naturals) transition_succeeds

-- The state after one transition, and the burst that follows.
abbrev settled : GovernorState naturals
settled = (transition 0).next_state

abbrev burst_transition : GovernorTransition naturals
burst_transition = value_or nothing (transition_governor naturals settled (input 1))

burst_succeeds : transition_governor naturals settled (input 1) ≡ ok burst_transition
unfolding transition_governor default_state prepare_cluster validate opp_at_or_below least get
burst_succeeds = refl

transition_governor-frozen_example :
    (burst_transition.next_state.bucket ≡ settled.bucket)
    × (burst_transition.next_state.budget_cursor
        ≡ moved_cursor naturals settled burst_transition.next_state)
transition_governor-frozen_example =
    transition_governor-frozen naturals (input 1) settled burst_transition refl burst_succeeds
