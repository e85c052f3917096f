-- ===== src/Core/Energy/Bucket.antt =====
-- The energy bucket and the sampling mode: `EnergyBucketState` and `AdaptiveSampler` of
-- crates/uperf-core/src/energy.rs.
use uperf_linux_rev.Base.{ℕ, Bool, if◌then◌else◌}
use uperf_linux_rev.Core.Energy.Demand.{GovernorConfig}
use uperf_linux_rev.Core.Float.{Floats, finite_unit}

pub data SamplingMode : Type 0 where
  active idle : SamplingMode

module _ (floats : Floats) where
  open floats use {F, sub, mul, lt, of_u64, clamp}

  unfoldable pub next_mode : SamplingMode → F → GovernorConfig floats → SamplingMode
  next_mode idle load config = if lt config.active_load_threshold load then active else idle
  next_mode active load config = if lt load config.idle_load_threshold then idle else active

  -- `AdaptiveSampler::interval_ms`.
  unfoldable pub interval_ms : SamplingMode → GovernorConfig floats → ℕ
  interval_ms active config = config.active_sample_ms
  interval_ms idle config = config.idle_sample_ms

  -- `AdaptiveSampler::update`: the new mode, and the interval until the next sample.
  unfoldable pub update_sampler : SamplingMode → F → GovernorConfig floats → SamplingMode × ℕ
  unfolding next_mode interval_ms
  update_sampler mode maximum_load config =
      let next = next_mode mode (finite_unit floats maximum_load) config in
      (next, interval_ms next config)

  -- `PowerBudgetConfig` of crates/uperf-core/src/config.rs.
  pub record PowerBudgetConfig : Type 0 where
    pub slow_limit_power_mw : ℕ
    pub fast_limit_power_mw : ℕ
    pub fast_limit_capacity_mj : ℕ
    pub fast_limit_recover_scale : F

  pub record EnergyBucketState : Type 0 where
    pub capacity_mj : F
    pub remaining_mj : F

  unfoldable pub default_bucket : EnergyBucketState
  default_bucket = record { capacity_mj = floats.zero; remaining_mj = floats.zero }

  pub record EnergyBucketDiagnostics : Type 0 where
    pub remaining_mj : F
    pub delta_mj : F
    pub selected_limit_power_mw : F

  -- The fast limit while something is left, the slow one otherwise.
  unfoldable pub selected_limit : F → PowerBudgetConfig → F
  selected_limit remaining budget =
      if lt floats.zero remaining
      then of_u64 budget.fast_limit_power_mw
      else of_u64 budget.slow_limit_power_mw

  -- A larger capacity starts with a full bucket, a smaller one only clamps what was left.
  unfoldable pub resize : EnergyBucketState → F → EnergyBucketState
  resize b capacity = record {
    capacity_mj = capacity;
    remaining_mj =
        if lt b.capacity_mj capacity
        then capacity
        else clamp b.remaining_mj (floats.neg capacity) capacity;
  }

  -- Recovery is scaled, discharge is not.
  unfoldable pub energy_delta : F → ℕ → PowerBudgetConfig → F
  energy_delta estimated_power_mw actual_dt_ms budget =
      let delta =
        mul (sub estimated_power_mw (of_u64 budget.slow_limit_power_mw))
          (floats.seconds actual_dt_ms) in
      if lt delta floats.zero then mul delta budget.fast_limit_recover_scale else delta

  abbrev pub diagnosed :
      EnergyBucketState → F → PowerBudgetConfig → EnergyBucketState × EnergyBucketDiagnostics
  diagnosed b delta budget = (
    b,
    record {
      remaining_mj = b.remaining_mj;
      delta_mj = delta;
      selected_limit_power_mw = selected_limit b.remaining_mj budget;
    },
  )

  abbrev pub discharged : EnergyBucketState → F → F → EnergyBucketState
  discharged b capacity delta = record b {
    remaining_mj = clamp (sub b.remaining_mj delta) (floats.neg capacity) capacity;
  }

  -- `EnergyBucketState::update`.
  unfoldable pub update_bucket :
      EnergyBucketState
      → F
      → ℕ
      → PowerBudgetConfig
      → Bool
      → EnergyBucketState × EnergyBucketDiagnostics
  unfolding resize energy_delta selected_limit
  update_bucket b estimated_power_mw actual_dt_ms budget integrate =
      let capacity = of_u64 budget.fast_limit_capacity_mj in
      let delta = energy_delta estimated_power_mw actual_dt_ms budget in
      if integrate
      then diagnosed (discharged (resize b capacity) capacity delta) delta budget
      else diagnosed (resize b capacity) floats.zero budget

  unfoldable pub diagnostics_without_update :
      EnergyBucketState → PowerBudgetConfig → EnergyBucketDiagnostics
  unfolding selected_limit
  diagnostics_without_update b budget = (diagnosed b floats.zero budget).1
