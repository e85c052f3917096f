-- ===== src/Core/Policy/Engine.antt =====
-- Plans for frequencies: `PolicyEngine::evaluate_base` of crates/uperf-core/src/policy.rs.
use uperf_linux_rev.Base.Maps.{nat_key, contains_key, get, insert}
use uperf_linux_rev.Base.Text.{text_key}
use uperf_linux_rev.Base.Results.{◌>>=◌, ◌>>◌}
use uperf_linux_rev.Base.{
  ℕ, Bool, not, ◌&&◌, Option, none, some, List, [], ◌∷◌, if◌then◌else◌, is_some, some_or, Result,
  ok, err, ok_or,
}
use uperf_linux_rev.Core.Float.{Floats}
use uperf_linux_rev.Core.Domain.{ProcessIdentity, ScalarSettingValue, TargetId, TaskPlan}
use uperf_linux_rev.Core.Errors.{PolicyError, missing_profile, missing_thermal_cap}
use uperf_linux_rev.Core.Frequency.{FrequencyPolicy, constrain_frequency_limits, validate}
use uperf_linux_rev.Core.Hints.{HintSet, dominant_at, dominant_at_excluding}
use uperf_linux_rev.Core.Scene.{
  ModeSelection, ProfileId, Scene, boost, resolve_effective_profile, scene_key,
}
use uperf_linux_rev.Core.Units.{FrequencyLimits}
use uperf_linux_rev.Core.Energy.Governor.{CpuTargetPolicy}
use uperf_linux_rev.Core.Policy.Config.{PolicyConfig, profile_of}
use uperf_linux_rev.Core.Policy.Parameters.{effective_parameters}

pub record ObservedFrequency : Type 0 where
  pub limits : FrequencyLimits
  pub current : Option ℕ

pub record DesiredPlan : Type 0 where
  pub generation : ℕ
  pub effective_profile : ProfileId
  pub dominant_scene : Scene
  pub frequencies : List (TargetId × FrequencyLimits)
  pub scalars : List (TargetId × ScalarSettingValue)
  pub tasks : List (ProcessIdentity × TaskPlan)

module _ (floats : Floats) where
  open floats use {F}

  pub record PolicyInput : Type 0 where
    pub generation : ℕ
    -- The parts of `observed` that the engine reads.
    pub timestamp : ℕ
    pub cpu_loads : List (ℕ × F)
    pub observed_frequencies : List (TargetId × ObservedFrequency)
    pub mode : ModeSelection
    pub app_profile : Option ProfileId
    pub hints : HintSet
    pub cpu_targets : List (TargetId × CpuTargetPolicy floats)
    pub manual_target_policies : List (TargetId × FrequencyPolicy)
    pub manual_overrides : List (TargetId × FrequencyLimits)
    pub administrator_caps : List (TargetId × ℕ)
    pub thermal_caps : List (TargetId × ℕ)
    pub thermal_degraded : Bool

  -- `required_thermal_cap`: while the thermal state is degraded a cap has to be there.
  unfoldable pub required_thermal_cap : PolicyInput → TargetId → Result PolicyError (Option ℕ)
  required_thermal_cap input id =
      if input.thermal_degraded && not (is_some (get id input.thermal_caps))
      then err (missing_thermal_cap id)
      else ok (get id input.thermal_caps)

  abbrev pub Frequencies : Type 0
  Frequencies = List (TargetId × FrequencyLimits)

  -- The override of a processor target, under its caps.
  unfoldable pub override_cpu :
      PolicyInput
      → TargetId
      → FrequencyPolicy
      → Option ℕ
      → Option FrequencyLimits
      → Frequencies
      → Result PolicyError Frequencies
  override_cpu input id policy thermal none frequencies = ok frequencies
  override_cpu input id policy thermal (some manual) frequencies = do
    limits ←
        constrain_frequency_limits manual policy.hardware_limits (get id input.administrator_caps)
          thermal policy.available_frequencies policy.hertz_per_unit
    ok (insert id limits frequencies)

  unfoldable pub cpu_step :
      PolicyInput → TargetId → CpuTargetPolicy floats → Frequencies → Result PolicyError Frequencies
  unfolding override_cpu required_thermal_cap
  cpu_step input id target frequencies = do
    thermal ← required_thermal_cap input id
    override_cpu input id target.frequency thermal (get id input.manual_overrides) frequencies

  unfoldable pub cpu_overrides :
      PolicyInput
      → List (TargetId × CpuTargetPolicy floats)
      → Frequencies
      → Result PolicyError Frequencies
  unfolding cpu_step
  cpu_overrides input [] frequencies = ok frequencies
  cpu_overrides input ((id, target) ∷ rest) frequencies = do
    next ← cpu_step input id target frequencies
    cpu_overrides input rest next

  abbrev pub baseline : FrequencyPolicy → Option ObservedFrequency → FrequencyLimits
  baseline target none = target.hardware_limits
  baseline target (some observed) = observed.limits

  -- The limits of a manual-only target: the override, else what was observed, else the hardware
  -- range; under its caps.
  unfoldable pub constrain_manual :
      PolicyInput
      → TargetId
      → FrequencyPolicy
      → Option ℕ
      → Frequencies
      → Result PolicyError Frequencies
  constrain_manual input id target thermal frequencies = do
    validate target
    limits ←
        constrain_frequency_limits
          (some_or (get id input.manual_overrides)
            (baseline target (get id input.observed_frequencies)))
          target.hardware_limits (get id input.administrator_caps) thermal
          target.available_frequencies target.hertz_per_unit
    ok (insert id limits frequencies)

  -- Without an override and without a cap a manual-only target is left alone.
  abbrev pub is_left_alone : PolicyInput → TargetId → Option ℕ → Bool
  is_left_alone input id thermal =
      not (is_some (get id input.manual_overrides))
      && not (is_some thermal)
      && not (is_some (get id input.administrator_caps))

  unfoldable pub manual_step :
      PolicyInput → TargetId → FrequencyPolicy → Frequencies → Result PolicyError Frequencies
  unfolding constrain_manual required_thermal_cap
  manual_step input id target frequencies =
      if contains_key id frequencies
      then ok frequencies
      else required_thermal_cap input id >>= λ thermal.
          if is_left_alone input id thermal
          then ok frequencies
          else constrain_manual input id target thermal frequencies

  unfoldable pub manual_targets :
      PolicyInput → List (TargetId × FrequencyPolicy) → Frequencies → Result PolicyError Frequencies
  unfolding manual_step
  manual_targets input [] frequencies = ok frequencies
  manual_targets input ((id, target) ∷ rest) frequencies = do
    next ← manual_step input id target frequencies
    manual_targets input rest next

  -- The scene that governs: a degraded thermal state takes no boost.
  unfoldable pub governing_scene : PolicyInput → Scene
  unfolding dominant_at dominant_at_excluding
  governing_scene input =
      if input.thermal_degraded
      then dominant_at_excluding input.timestamp (boost ∷ []) input.hints
      else dominant_at input.timestamp input.hints

  -- `evaluate_base`.
  unfoldable pub evaluate_base : PolicyConfig floats → PolicyInput → Result PolicyError DesiredPlan
  unfolding cpu_overrides manual_targets governing_scene effective_parameters profile_of
  evaluate_base config input = do
    let effective = resolve_effective_profile input.mode input.app_profile config.default_profile
    profile ← ok_or (profile_of floats config effective) (missing_profile effective)
    overrides ← cpu_overrides input input.cpu_targets []
    frequencies ← manual_targets input input.manual_target_policies overrides
    ok (record {
      generation = input.generation;
      effective_profile = effective;
      dominant_scene = governing_scene input;
      frequencies = frequencies;
      scalars = (effective_parameters floats profile (governing_scene input)).scalar_values;
      tasks = [];
    })
