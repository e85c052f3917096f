-- ===== src/Core/Policy/Stateful.antt =====
-- `PolicyEngine::evaluate_stateful` of crates/uperf-core/src/policy.rs: the plan of the base
-- evaluation with the limits of the energy governor.
use uperf_linux_rev.Base.Maps.{nat_key, contains_key, insert}
use uperf_linux_rev.Base.Text.{text_key}
use uperf_linux_rev.Base.Results.{◌>>=◌}
use uperf_linux_rev.Base.{
  ℕ, Bool, Option, none, some, List, [], ◌∷◌, if◌then◌else◌, Result, ok, err, ok_or,
}
use uperf_linux_rev.Core.Float.{Floats}
use uperf_linux_rev.Core.Domain.{TargetId}
use uperf_linux_rev.Core.Errors.{
  PolicyError, energy_governor, missing_power_budget, missing_profile,
}
use uperf_linux_rev.Core.Scene.{scene_key}
use uperf_linux_rev.Core.Energy.Bucket.{PowerBudgetConfig}
use uperf_linux_rev.Core.Energy.Governor.{GovernorError, GovernorInput, GovernorState}
use uperf_linux_rev.Core.Energy.Transition.{
  GovernorDiagnostics, GovernorTransition, transition_governor,
}
use uperf_linux_rev.Core.Policy.Config.{PolicyConfig, profile_of}
use uperf_linux_rev.Core.Policy.Parameters.{
  EffectiveParameters, effective_parameters, load_view, max_cpu_demand, summed_cpu_demand,
}
use uperf_linux_rev.Core.Policy.Engine.{
  DesiredPlan, Frequencies, ObservedFrequency, PolicyInput, evaluate_base,
}

module _ (floats : Floats) where
  open floats use {F}

  -- The readings that name a current frequency.
  unfoldable pub current_frequencies : List (TargetId × ObservedFrequency) → List (TargetId × ℕ)
  current_frequencies [] = []
  current_frequencies ((id, observed) ∷ rest) =
      let more = current_frequencies rest in
      elim observed.current [ none ↦ more | some f ↦ (id, f) ∷ more ]

  unfoldable pub governor_input :
      PolicyConfig floats
      → PolicyInput floats
      → EffectiveParameters floats
      → PowerBudgetConfig floats
      → Bool
      → GovernorInput floats
  unfolding load_view max_cpu_demand summed_cpu_demand current_frequencies
  governor_input config input parameters budget integrate = record {
    timestamp = input.timestamp;
    targets = input.cpu_targets;
    raw_loads = load_view floats (max_cpu_demand floats) input.cpu_loads input.cpu_targets [];
    active_load_sums =
        load_view floats (summed_cpu_demand floats) input.cpu_loads input.cpu_targets [];
    observed_frequencies = current_frequencies input.observed_frequencies;
    administrator_caps = input.administrator_caps;
    thermal_caps = input.thermal_caps;
    config = config.governor;
    power_budget = budget;
    margin = parameters.margin;
    burst = parameters.burst;
    limit_efficiency = parameters.limit_efficiency;
    integrate_elapsed_time = integrate;
  }

  abbrev pub map_governor_error :
      Result GovernorError (GovernorTransition floats)
      → Result PolicyError (GovernorTransition floats)
  map_governor_error (ok t) = ok t
  map_governor_error (err e) = err energy_governor

  -- The governor's limits join the plan where no override stands.
  unfoldable pub merge_limits :
      PolicyInput floats → Frequencies floats → Frequencies floats → Frequencies floats
  merge_limits input [] frequencies = frequencies
  merge_limits input ((id, limits) ∷ rest) frequencies =
      merge_limits input rest (
        if contains_key id input.manual_overrides
        then frequencies
        else insert id limits frequencies)

  pub record StatefulPolicyEvaluation : Type 0 where
    pub desired : DesiredPlan
    pub next_governor_state : GovernorState floats
    pub governor_diagnostics : Option (GovernorDiagnostics floats)

  -- `evaluate_stateful`.
  unfoldable pub evaluate_stateful :
      PolicyConfig floats
      → PolicyInput floats
      → GovernorState floats
      → Bool
      → Result PolicyError StatefulPolicyEvaluation
  unfolding evaluate_base merge_limits governor_input effective_parameters profile_of
  evaluate_stateful config input state integrate = do
    desired ← evaluate_base floats config input
    profile ←
        ok_or (profile_of floats config desired.effective_profile)
          (missing_profile desired.effective_profile)
    let parameters = effective_parameters floats profile desired.dominant_scene
    budget ← ok_or parameters.power_budget (missing_power_budget desired.effective_profile)
    t ←
        map_governor_error (
          transition_governor floats state
            (governor_input config input parameters budget integrate))
    ok (record {
      desired = record desired { frequencies = merge_limits input t.limits desired.frequencies };
      next_governor_state = t.next_state;
      governor_diagnostics = some t.diagnostics;
    })
