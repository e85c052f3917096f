-- ===== src/Core/Energy/Governor.antt =====
-- The governor's state and input, and the first loop of `transition_governor` of
-- crates/uperf-core/src/energy.rs: what each cluster demands, and the power it is taken to draw.
use uperf_linux_rev.Base.Maps.{get, insert}
use uperf_linux_rev.Base.Text.{text_key}
use uperf_linux_rev.Base.Results.{◌>>=◌, ◌>>◌}
use uperf_linux_rev.Base.{
  ℕ, Bool, ◌||◌, Option, none, some, List, [], ◌∷◌, if◌then◌else◌, some_or, Result, ok, err, ok_or,
  length,
}
use uperf_linux_rev.Core.Float.{Floats, finite_unit}
use uperf_linux_rev.Core.Domain.{TargetId, CpuSet}
use uperf_linux_rev.Core.Errors.{PolicyError}
use uperf_linux_rev.Core.Frequency.{FrequencyPolicy, validate, cap_list}
use uperf_linux_rev.Core.Sorting.{least}
use uperf_linux_rev.Core.Units.{FrequencyLimits}
use uperf_linux_rev.Core.Energy.Model.{EnergyModel, EnergyOpp, opp_at_or_below}
use uperf_linux_rev.Core.Energy.Demand.{
  GovernorConfig, DemandState, DemandDiagnostics, default_demand, update_performance,
  reference_normal_demand_performance, reference_concurrency_scale,
}
use uperf_linux_rev.Core.Energy.Bucket.{EnergyBucketState, PowerBudgetConfig, default_bucket}

pub data GovernorError : Type 0 where
  missing_energy_model : TargetId → GovernorError
  no_opp_below_safety_cap : TargetId → GovernorError
  invalid_frequency_policy : TargetId → PolicyError → GovernorError

module _ (floats : Floats) where
  open floats use {F, add, mul, div, lt, of_u64}

  pub record CpuTargetPolicy : Type 0 where
    pub cpus : CpuSet
    pub frequency : FrequencyPolicy
    pub energy_model : Option (EnergyModel floats)

  pub record BudgetedOpp : Type 0 where
    pub floor_hz : ℕ
    pub cap_hz : ℕ

  pub record TargetGovernorState : Type 0 where
    pub demand : DemandState floats
    pub budget_cap_hz : Option ℕ
    pub last_limits : Option FrequencyLimits
    pub last_change_at : Option ℕ

  pub record PreparedTarget : Type 0 where
    pub id : TargetId
    pub target : CpuTargetPolicy
    pub model : EnergyModel floats
    pub safety_cap : ℕ
    pub raw_load : F
    pub active_load_sum : F
    pub demand : DemandDiagnostics floats
    pub maximum_performance : F
    pub effective_demand : F
    pub demanded_performance : F
    pub estimated_power_mw : F

  abbrev pub TargetStates : Type 0
  TargetStates = List (TargetId × TargetGovernorState)

  pub record GovernorState : Type 0 where
    pub targets : TargetStates
    pub bucket : EnergyBucketState floats
    pub previous_timestamp : Option ℕ
    pub shared_ramp_elapsed_ms : ℕ
    pub budget_cursor : Option ℕ
    pub budget_path_len : ℕ

  pub record GovernorInput : Type 0 where
    pub timestamp : ℕ
    pub targets : List (TargetId × CpuTargetPolicy)
    pub raw_loads : List (TargetId × F)
    pub active_load_sums : List (TargetId × F)
    pub observed_frequencies : List (TargetId × ℕ)
    pub administrator_caps : List (TargetId × ℕ)
    pub thermal_caps : List (TargetId × ℕ)
    pub config : GovernorConfig floats
    pub power_budget : PowerBudgetConfig floats
    pub margin : F
    pub burst : F
    pub limit_efficiency : Bool
    pub integrate_elapsed_time : Bool

  unfoldable pub default_target_state : TargetGovernorState
  default_target_state = record {
    demand = default_demand floats;
    budget_cap_hz = none;
    last_limits = none;
    last_change_at = none;
  }

  unfoldable pub default_state : GovernorState
  default_state = record {
    targets = [];
    bucket = default_bucket floats;
    previous_timestamp = none;
    shared_ramp_elapsed_ms = 0;
    budget_cursor = none;
    budget_path_len = 0;
  }

  -- `targets.entry(id).or_default()`, read and updated.
  unfoldable pub entry : TargetId → TargetStates → TargetGovernorState
  unfolding default_target_state
  entry id states = some_or (get id states) default_target_state

  unfoldable pub update_target_state :
      TargetId → (TargetGovernorState → TargetGovernorState) → TargetStates → TargetStates
  unfolding entry
  update_target_state id f states = insert id (f (entry id states)) states

  -- The least of the hardware maximum and the caps that are set.
  unfoldable pub safety_cap_of : ℕ → Option ℕ → Option ℕ → ℕ
  safety_cap_of hardware administrator thermal =
      some_or (least (hardware ∷ cap_list administrator (cap_list thermal []))) hardware

  abbrev pub performance_or : F → Option (EnergyOpp floats) → F
  performance_or d none = d
  performance_or d (some opp) = opp.performance

  abbrev pub opp_of_minimum :
      EnergyModel floats → Option FrequencyLimits → Option (EnergyOpp floats)
  opp_of_minimum model none = none
  opp_of_minimum model (some l) = opp_at_or_below floats model l.min

  abbrev pub minimum_or : ℕ → Option FrequencyLimits → ℕ
  minimum_or d none = d
  minimum_or d (some l) = l.min

  -- The observed load sum, or the highest load on every core.
  abbrev pub active_sum : Option F → F → F → F
  active_sum none raw_load core_count = mul raw_load core_count
  active_sum (some v) raw_load core_count =
      if floats.is_finite v then floats.clamp v floats.zero core_count else mul raw_load core_count

  abbrev pub estimated_power : Option (EnergyOpp floats) → F → F → F
  estimated_power none active_load_sum core_count = floats.zero
  estimated_power (some opp) active_load_sum core_count =
      mul (mul opp.power_mw_per_core active_load_sum)
        (reference_concurrency_scale floats core_count)

  unfoldable pub share : F → F → F
  share demanded maximum = if lt floats.zero maximum then div demanded maximum else floats.zero

  -- The cluster behind its checks: the new demand state, and the prepared target.
  unfoldable pub prepared_target :
      GovernorInput
      → TargetId
      → CpuTargetPolicy
      → EnergyModel floats
      → ℕ
      → EnergyOpp floats
      → TargetGovernorState
      → TargetGovernorState × PreparedTarget
  unfolding finite_unit share
  prepared_target input id target model safety_cap maximum_opp state =
      let raw_load = finite_unit floats (some_or (get id input.raw_loads) floats.zero) in
      let maximum = maximum_opp.performance in
      let previous =
        floats.min (performance_or maximum (opp_of_minimum model state.last_limits)) maximum in
      let (demand_state, demand) =
        update_performance floats state.demand raw_load previous maximum input.config in
      let demanded =
        reference_normal_demand_performance floats (mul maximum demand.selected) maximum
          input.margin in
      let estimate_frequency =
        some_or (get id input.observed_frequencies)
          (minimum_or target.frequency.floor state.last_limits) in
      let core_count = of_u64 (length target.cpus) in
      let active_load_sum = active_sum (get id input.active_load_sums) raw_load core_count in
      (
        record state { demand = demand_state },
        record {
          id = id;
          target = target;
          model = model;
          safety_cap = safety_cap;
          raw_load = raw_load;
          active_load_sum = active_load_sum;
          demand = demand;
          maximum_performance = maximum;
          effective_demand = share demanded maximum;
          demanded_performance = demanded;
          estimated_power_mw =
              estimated_power (opp_at_or_below floats model estimate_frequency) active_load_sum
                core_count;
        },
      )

  unfoldable pub check_policy :
      TargetId → Result PolicyError (Unit {0}) → Result GovernorError (Unit {0})
  check_policy id (ok _) = ok tt
  check_policy id (err e) = err (invalid_frequency_policy id e)

  unfoldable pub safety_cap_for : GovernorInput → TargetId → CpuTargetPolicy → ℕ
  unfolding safety_cap_of
  safety_cap_for input id target =
      safety_cap_of target.frequency.hardware_limits.max (get id input.administrator_caps)
        (get id input.thermal_caps)

  unfoldable pub prepare_cluster :
      GovernorInput
      → TargetId
      → CpuTargetPolicy
      → TargetStates
      → Result GovernorError (TargetGovernorState × PreparedTarget)
  unfolding check_policy safety_cap_for entry
  prepare_cluster input id target states = do
    check_policy id (validate target.frequency)
    model ← ok_or target.energy_model (missing_energy_model id)
    let cap = safety_cap_for input id target
    maximum_opp ← ok_or (opp_at_or_below floats model cap) (no_opp_below_safety_cap id)
    ok (prepared_target input id target model cap maximum_opp (entry id states))

  pub record Preparation : Type 0 where
    pub states : TargetStates
    pub prepared : List PreparedTarget
    pub power_mw : F
    pub any_bypass : Bool

  -- The loop over the targets, from the states, the power and the flag so far.
  unfoldable pub prepare_all :
      GovernorInput
      → List (TargetId × CpuTargetPolicy)
      → TargetStates
      → F
      → Bool
      → Result GovernorError Preparation
  prepare_all input [] states power bypass =
      ok (record { states = states; prepared = []; power_mw = power; any_bypass = bypass })
  prepare_all input ((id, target) ∷ rest) states power bypass = do
    p ← prepare_cluster input id target states
    r ←
        prepare_all input rest (insert id p.0 states) (add power p.1.estimated_power_mw)
          (bypass || p.1.demand.prediction_bypassed_ramp)
    ok (record r { prepared = p.1 ∷ r.prepared })
