-- ===== src/Core/Energy/Transition.antt =====
-- `transition_governor` of crates/uperf-core/src/energy.rs: all clusters as one package.
use uperf_linux_rev.Base.Maps.{insert}
use uperf_linux_rev.Base.Text.{text_key}
use uperf_linux_rev.Base.Results.{◌>>=◌}
use uperf_linux_rev.Base.{
  ℕ, Bool, false, ◌||◌, Option, none, some, List, [], ◌∷◌, if◌then◌else◌, Result, ok, length,
}
use uperf_linux_rev.Core.Float.{Floats}
use uperf_linux_rev.Core.Domain.{TargetId}
use uperf_linux_rev.Core.Units.{FrequencyLimits, duration_since, same_limits}
use uperf_linux_rev.Core.Energy.Bucket.{
  EnergyBucketState, EnergyBucketDiagnostics, diagnostics_without_update, update_bucket,
}
use uperf_linux_rev.Core.Energy.Budget.{
  BudgetStep, adjust_reference_budget_cap, apply_burst, models_of, reference_budget_path, sync_path,
}
use uperf_linux_rev.Core.Energy.Governor.{
  BudgetedOpp, GovernorError, GovernorInput, GovernorState, Preparation, PreparedTarget,
  TargetGovernorState, TargetStates, prepare_all, update_target_state,
}
use uperf_linux_rev.Core.Energy.Select.{
  apply_reference_efficiency_limits, budgeted_opps, high_cost_increase, ramp_elapsed, ramp_progress,
  selected_plans,
}

module _ (floats : Floats) where
  open floats use {F, lt}

  pub record TargetGovernorDiagnostics : Type 0 where
    pub raw_load : F
    pub active_load_sum : F
    pub ema_load : F
    pub predicted_load : F
    pub selected_load : F
    pub effective_demand : F
    pub prediction_bypassed_ramp : Bool
    pub estimated_power_mw : F
    pub requested_floor_hz : ℕ
    pub selected_floor_hz : ℕ
    pub selected_cap_hz : ℕ

  pub record GovernorDiagnostics : Type 0 where
    pub elapsed_ms : ℕ
    pub estimated_package_power_mw : F
    pub bucket_remaining_mj : F
    pub selected_package_budget_mw : F
    pub bypassed_power_budget : Bool
    pub shared_ramp_progress : F
    pub targets : List (TargetId × TargetGovernorDiagnostics)

  pub record GovernorTransition : Type 0 where
    pub limits : List (TargetId × FrequencyLimits)
    pub next_state : GovernorState floats
    pub diagnostics : GovernorDiagnostics

  abbrev same_last : Option FrequencyLimits → FrequencyLimits → Bool
  same_last none l = false
  same_last (some previous) l = same_limits previous l

  -- The limits of one target enter its state; a change is dated.
  abbrev record_limits :
      ℕ → FrequencyLimits → TargetGovernorState floats → TargetGovernorState floats
  record_limits now l s = record s {
    last_change_at = if same_last s.last_limits l then s.last_change_at else some now;
    last_limits = some l;
  }

  abbrev pub limits_of_plan : BudgetedOpp floats → FrequencyLimits
  limits_of_plan plan = record { min = plan.floor_hz; max = plan.cap_hz }

  unfoldable pub target_diagnostics :
      PreparedTarget floats → BudgetedOpp floats → BudgetedOpp floats → TargetGovernorDiagnostics
  target_diagnostics p selected requested = record {
    raw_load = p.raw_load;
    active_load_sum = p.active_load_sum;
    ema_load = p.demand.ema;
    predicted_load = p.demand.predicted;
    selected_load = p.demand.selected;
    effective_demand = p.effective_demand;
    prediction_bypassed_ramp = p.demand.prediction_bypassed_ramp;
    estimated_power_mw = p.estimated_power_mw;
    requested_floor_hz = requested.floor_hz;
    selected_floor_hz = selected.floor_hz;
    selected_cap_hz = selected.cap_hz;
  }

  -- The last loop, over the prepared targets with their plans: states, limits and diagnostics.
  unfoldable pub finish_states :
      ℕ
      → List (PreparedTarget floats)
      → List (BudgetedOpp floats)
      → TargetStates floats
      → TargetStates floats
  unfolding update_target_state
  finish_states now [] plans states = states
  finish_states now (p ∷ ps) [] states = states
  finish_states now (p ∷ ps) (plan ∷ plans) states =
      finish_states now ps plans
        (update_target_state floats p.id (record_limits now (limits_of_plan plan)) states)

  unfoldable pub finish_limits :
      List (PreparedTarget floats)
      → List (BudgetedOpp floats)
      → List (TargetId × FrequencyLimits)
      → List (TargetId × FrequencyLimits)
  finish_limits [] plans limits = limits
  finish_limits (p ∷ ps) [] limits = limits
  finish_limits (p ∷ ps) (plan ∷ plans) limits =
      finish_limits ps plans (insert p.id (limits_of_plan plan) limits)

  unfoldable pub finish_diagnostics :
      List (PreparedTarget floats)
      → List (BudgetedOpp floats)
      → List (BudgetedOpp floats)
      → List (TargetId × TargetGovernorDiagnostics)
      → List (TargetId × TargetGovernorDiagnostics)
  unfolding target_diagnostics
  finish_diagnostics [] plans requested out = out
  finish_diagnostics (p ∷ ps) [] requested out = out
  finish_diagnostics (p ∷ ps) (plan ∷ plans) [] out = out
  finish_diagnostics (p ∷ ps) (plan ∷ plans) (wish ∷ wishes) out =
      finish_diagnostics ps plans wishes (insert p.id (target_diagnostics p plan wish) out)

  abbrev pub elapsed_since : ℕ → Option ℕ → ℕ
  elapsed_since now none = 0
  elapsed_since now (some previous) = duration_since now previous

  -- The bucket and the package cap: a burst freezes both.
  unfoldable pub charge :
      Bool
      → GovernorInput floats
      → ℕ
      → F
      → EnergyBucketState floats
      → EnergyBucketState floats × EnergyBucketDiagnostics floats
  unfolding update_bucket diagnostics_without_update
  charge bypassed input elapsed_ms power bucket =
      if bypassed
      then (bucket, diagnostics_without_update floats bucket input.power_budget)
      else update_bucket floats bucket power elapsed_ms input.power_budget
          input.integrate_elapsed_time

  unfoldable pub adjust_unless :
      Bool
      → GovernorState floats
      → List (PreparedTarget floats)
      → List (BudgetStep floats)
      → F
      → F
      → GovernorState floats
  unfolding adjust_reference_budget_cap
  adjust_unless bypassed state prepared path power budget =
      if bypassed
      then state
      else adjust_reference_budget_cap floats state prepared path power budget

  -- The state after the package budget, before the limits are chosen.
  pub record Budgeting : Type 0 where
    pub state : GovernorState floats
    pub bucket : EnergyBucketDiagnostics floats
    pub budget_mw : F

  unfoldable pub budget_package :
      GovernorInput floats → ℕ → F → List (PreparedTarget floats) → GovernorState floats → Budgeting
  unfolding charge adjust_unless sync_path reference_budget_path
  budget_package input elapsed_ms power prepared state =
      let bypassed = lt floats.zero input.burst in
      let path = reference_budget_path floats prepared in
      let synced = sync_path floats (length path) prepared state in
      let (bucket, shown) = charge bypassed input elapsed_ms power synced.bucket in
      let budget = if bypassed then floats.infinity else shown.selected_limit_power_mw in
      record {
        state =
            adjust_unless bypassed (record synced { bucket = bucket }) prepared path power budget;
        bucket = shown;
        budget_mw = budget;
      }

  -- The plans behind ramp, residency and efficiency, from the budgeted state.
  unfoldable pub choose_plans :
      GovernorInput floats
      → Bool
      → F
      → List (PreparedTarget floats)
      → GovernorState floats
      → List (BudgetedOpp floats)
      → List (BudgetedOpp floats)
  unfolding selected_plans apply_reference_efficiency_limits
  choose_plans input bypassed_ramp progress prepared state budgeted =
      let plans =
        selected_plans floats input bypassed_ramp progress state.targets prepared budgeted in
      if input.limit_efficiency
      then apply_reference_efficiency_limits floats (models_of floats prepared) plans
      else plans

  -- The result from the state with its ramp time and the plans.
  abbrev concluded :
      GovernorInput floats
      → ℕ
      → F
      → F
      → List (PreparedTarget floats)
      → Budgeting
      → GovernorState floats
      → List (BudgetedOpp floats)
      → List (BudgetedOpp floats)
      → GovernorTransition
  concluded input elapsed_ms power progress prepared b state budgeted plans = record {
    limits = finish_limits prepared plans [];
    next_state = record state {
      targets = finish_states input.timestamp prepared plans state.targets;
    };
    diagnostics = record {
      elapsed_ms = elapsed_ms;
      estimated_package_power_mw = power;
      bucket_remaining_mj = b.bucket.remaining_mj;
      selected_package_budget_mw = b.budget_mw;
      bypassed_power_budget = lt floats.zero input.burst;
      shared_ramp_progress = progress;
      targets = finish_diagnostics prepared plans budgeted [];
    };
  }

  unfoldable pub govern_package :
      GovernorInput floats
      → ℕ
      → Bool
      → F
      → List (PreparedTarget floats)
      → Budgeting
      → GovernorTransition
  unfolding finish_limits finish_states finish_diagnostics choose_plans high_cost_increase
      ramp_elapsed ramp_progress
  govern_package input elapsed_ms any_bypass power prepared b =
      let bypassed_power = lt floats.zero input.burst in
      let bypassed_ramp = bypassed_power || any_bypass in
      let budgeted = budgeted_opps floats bypassed_power b.state.targets prepared in
      let ramp =
        ramp_elapsed bypassed_ramp (high_cost_increase floats b.state.targets prepared budgeted)
          b.state.shared_ramp_elapsed_ms elapsed_ms input.config.ramp_latency_ms in
      let state = record b.state { shared_ramp_elapsed_ms = ramp } in
      let progress = ramp_progress floats ramp input.config.ramp_latency_ms in
      concluded input elapsed_ms power progress prepared b state budgeted
        (choose_plans input bypassed_ramp progress prepared state budgeted)

  unfoldable pub govern_prepared :
      GovernorState floats → GovernorInput floats → Preparation floats → GovernorTransition
  unfolding govern_package budget_package apply_burst
  govern_prepared state input r =
      let elapsed_ms = elapsed_since input.timestamp state.previous_timestamp in
      let prepared = apply_burst floats input r.prepared in
      let ready = record state { previous_timestamp = some input.timestamp; targets = r.states } in
      govern_package input elapsed_ms r.any_bypass r.power_mw prepared
        (budget_package input elapsed_ms r.power_mw prepared ready)

  unfoldable pub transition_governor :
      GovernorState floats → GovernorInput floats → Result GovernorError GovernorTransition
  unfolding govern_prepared prepare_all
  transition_governor state input = do
    r ← prepare_all floats input input.targets state.targets floats.zero false
    ok (govern_prepared state input r)
