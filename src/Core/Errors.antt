-- ===== src/Core/Errors.antt =====
-- `PolicyError` of crates/uperf-core/src/policy.rs. Texts that only a message shows are strings.
use Prim.Native.String.{String}
use uperf_linux_rev.Base.{ℕ, List}
use uperf_linux_rev.Core.Units.{FrequencyLimits}
use uperf_linux_rev.Core.Scene.{ProfileId}
use uperf_linux_rev.Core.Domain.{TargetId}
use uperf_linux_rev.Base.Text.{Text}

-- `ValidationIssue` and `ValidationErrors` of crates/uperf-core/src/config.rs.
pub record ValidationIssue : Type 0 where
  pub path : String
  pub message : String

pub data PolicyError : Type 0 where
  invalid_hardware_limits : FrequencyLimits → PolicyError
  invalid_frequency_model : PolicyError
  opp_outside_hardware_limits : PolicyError
  invalid_frequency_quantum : PolicyError
  no_opp_at_or_below_cap : ℕ → PolicyError
  reversed_request : FrequencyLimits → PolicyError
  invalid_load_input : String → PolicyError
  missing_profile : ProfileId → PolicyError
  missing_thermal_cap : TargetId → PolicyError
  missing_task_profile : Text → PolicyError
  invalid_matcher_regex : Text → PolicyError
  invalid_configuration : List ValidationIssue → PolicyError
  energy_governor : PolicyError
  missing_power_budget : ProfileId → PolicyError
