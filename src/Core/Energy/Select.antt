-- ===== src/Core/Energy/Select.antt =====
-- From budgets to limits: the ramp, the residency and the efficiency ceiling of
-- crates/uperf-core/src/energy.rs.
use uperf_linux_rev.Base.Text.{text_key}
use uperf_linux_rev.Base.Words.{saturating_add}
use uperf_linux_rev.Base.{
  ℕ, min, max, Bool, false, not, ◌&&◌, ◌||◌, Option, none, some, List, [], ◌∷◌, map, ltb, leb, ◌==◌,
  if◌then◌else◌, some_or, find,
}
use uperf_linux_rev.Core.Float.{Floats}
use uperf_linux_rev.Core.Units.{FrequencyLimits, duration_since}
use uperf_linux_rev.Core.Energy.Model.{
  EnergyModel, EnergyOpp, cost_mw_per_performance, first_opp, first_opp_meeting_performance,
  highest_at_most, last_opp, opp_at_or_below, or_else,
}
use uperf_linux_rev.Core.Energy.Budget.{get_elem?, modify, performance_order}
use uperf_linux_rev.Core.Energy.Governor.{
  BudgetedOpp, GovernorInput, PreparedTarget, TargetGovernorState, TargetStates, entry, minimum_or,
}

abbrev pub frequency_of_option : {A : Type 0} → ℕ → (A → ℕ) → Option A → ℕ
frequency_of_option d f none = d
frequency_of_option d f (some a) = f a

-- The time of the shared ramp: full where it is bypassed, and never above the latency.
unfoldable pub ramp_elapsed : Bool → Bool → ℕ → ℕ → ℕ → ℕ
ramp_elapsed bypassed increase so_far elapsed_ms latency =
    if bypassed
    then latency
    else if increase
    then min (saturating_add so_far elapsed_ms) latency
    else 0

abbrev pub dwells : ℕ → ℕ → Option ℕ → Bool
dwells now residency none = false
dwells now residency (some changed_at) = ltb (duration_since now changed_at) residency

module _ (floats : Floats) where
  open floats use {F, sub, div, lt, le}

  abbrev frequency : EnergyOpp floats → ℕ
  frequency o = o.frequency_hz

  -- `take_while(..).filter(..).last()`.
  abbrev below_ramp : EnergyModel floats → F → F → F → EnergyOpp floats → Bool
  below_ramp model sweet_power power_span progress o =
      leb o.frequency_hz model.sweet_frequency_hz
      || le (div (sub o.power_mw_per_core sweet_power) power_span) progress

  unfoldable pub last_ramped :
      (EnergyOpp floats → Bool)
      → ℕ
      → Option (EnergyOpp floats)
      → List (EnergyOpp floats)
      → Option (EnergyOpp floats)
  last_ramped keeps limit found [] = found
  last_ramped keeps limit found (o ∷ os) =
      let rest = last_ramped keeps limit (if keeps o then some o else found) os in
      if leb o.frequency_hz limit then rest else found

  -- The body between the sweet point and the highest control point at or below the cap.
  unfoldable pub ramp_between :
      EnergyModel floats → ℕ → ℕ → F → Option (EnergyOpp floats) → Option (EnergyOpp floats) → ℕ
  unfolding last_ramped
  ramp_between model requested cap progress none maximum = min requested cap
  ramp_between model requested cap progress (some sweet) none = min requested cap
  ramp_between model requested cap progress (some sweet) (some maximum) =
      let power_span = sub maximum.power_mw_per_core sweet.power_mw_per_core in
      if le power_span floats.epsilon
      then min requested cap
      else frequency_of_option (min sweet.frequency_hz cap) frequency (
          last_ramped (below_ramp model sweet.power_mw_per_core power_span progress)
            (min requested cap) none model.control_opps)

  unfoldable pub ramp_limited_floor : EnergyModel floats → ℕ → ℕ → F → ℕ
  unfolding ramp_between highest_at_most
  ramp_limited_floor model requested cap progress =
      ramp_between model requested cap progress
        (or_else floats (highest_at_most floats model.sweet_frequency_hz model.control_opps)
          (first_opp floats model.control_opps))
        (or_else floats (highest_at_most floats cap model.control_opps)
          (last_opp floats model.control_opps))

  -- The floor and the cap before ramp and residency.
  unfoldable pub budgeted_opp :
      Bool → TargetStates floats → PreparedTarget floats → BudgetedOpp floats
  unfolding entry
  budgeted_opp bypassed states p =
      let demand_floor =
        frequency_of_option p.target.frequency.floor frequency
          (first_opp_meeting_performance floats p.model p.demanded_performance) in
      let feedback_cap = some_or (entry floats p.id states).budget_cap_hz p.safety_cap in
      let cap = if bypassed then p.safety_cap else min feedback_cap p.safety_cap in
      record { floor_hz = min demand_floor cap; cap_hz = cap }

  abbrev pub budgeted_opps :
      Bool → TargetStates floats → List (PreparedTarget floats) → List (BudgetedOpp floats)
  budgeted_opps bypassed states = map (budgeted_opp bypassed states)

  -- A cluster that rises above its sweet point.
  abbrev rises : TargetStates floats → PreparedTarget floats → BudgetedOpp floats → Bool
  rises states p plan =
      ltb p.model.sweet_frequency_hz plan.floor_hz
      && ltb (minimum_or floats p.target.frequency.floor (entry floats p.id states).last_limits)
          plan.floor_hz

  unfoldable pub high_cost_increase :
      TargetStates floats → List (PreparedTarget floats) → List (BudgetedOpp floats) → Bool
  unfolding entry
  high_cost_increase states [] plans = false
  high_cost_increase states (p ∷ ps) [] = false
  high_cost_increase states (p ∷ ps) (plan ∷ plans) =
      rises states p plan || high_cost_increase states ps plans

  unfoldable pub ramp_progress : ℕ → ℕ → F
  ramp_progress elapsed latency =
      floats.clamp
        (if latency == 0 then floats.one else div (floats.of_u64 elapsed) (floats.of_u64 latency))
        floats.zero floats.one

  abbrev caps_below : ℕ → Option FrequencyLimits → Bool
  caps_below cap none = false
  caps_below cap (some previous) = ltb cap previous.max

  abbrev rises_above : ℕ → Option FrequencyLimits → Bool
  rises_above floor none = false
  rises_above floor (some previous) = ltb previous.min floor

  -- Within the residency an upward change is put off, unless a cap fell or the ramp is bypassed.
  unfoldable pub holds_back :
      GovernorInput floats → Bool → TargetGovernorState floats → ℕ → ℕ → Bool
  holds_back input bypassed state cap floor =
      dwells input.timestamp input.config.min_opp_residency_ms state.last_change_at
      && rises_above floor state.last_limits
      && not (caps_below cap state.last_limits)
      && not bypassed

  abbrev held_floor : ℕ → ℕ → Option FrequencyLimits → ℕ
  held_floor floor cap none = floor
  held_floor floor cap (some previous) = min previous.min cap

  unfoldable pub ramped_floor : Bool → F → PreparedTarget floats → BudgetedOpp floats → ℕ
  unfolding ramp_limited_floor
  ramped_floor bypassed progress p plan =
      if bypassed || leb plan.floor_hz p.model.sweet_frequency_hz
      then plan.floor_hz
      else ramp_limited_floor p.model plan.floor_hz plan.cap_hz progress

  unfoldable pub selected_plan :
      GovernorInput floats
      → Bool
      → F
      → TargetStates floats
      → PreparedTarget floats
      → BudgetedOpp floats
      → BudgetedOpp floats
  unfolding ramped_floor holds_back entry
  selected_plan input bypassed progress states p plan =
      let state = entry floats p.id states in
      let floor = ramped_floor bypassed progress p plan in
      let held =
        if holds_back input bypassed state plan.cap_hz floor
        then held_floor floor plan.cap_hz state.last_limits
        else floor in
      record { floor_hz = min held plan.cap_hz; cap_hz = plan.cap_hz }

  unfoldable pub selected_plans :
      GovernorInput floats
      → Bool
      → F
      → TargetStates floats
      → List (PreparedTarget floats)
      → List (BudgetedOpp floats)
      → List (BudgetedOpp floats)
  unfolding selected_plan
  selected_plans input bypassed progress states [] plans = []
  selected_plans input bypassed progress states (p ∷ ps) [] = []
  selected_plans input bypassed progress states (p ∷ ps) (plan ∷ plans) =
      selected_plan input bypassed progress states p plan
      ∷ selected_plans input bypassed progress states ps plans

  -- The first control point that is strictly dearer, or the last one.
  unfoldable pub efficiency_cap : EnergyModel floats → F → Option ℕ
  unfolding cost_mw_per_performance
  efficiency_cap low high_cost =
      elim (or_else floats
        (find (λ o. lt high_cost (cost_mw_per_performance floats o)) low.control_opps)
        (last_opp floats low.control_opps)) [
          | none ↦ none
          | some o ↦ some (max o.frequency_hz low.plain_frequency_hz)
        ]

  abbrev pub lower_to : ℕ → BudgetedOpp floats → BudgetedOpp floats
  lower_to cap plan = record {
    floor_hz = min plan.floor_hz (min plan.cap_hz cap);
    cap_hz = min plan.cap_hz cap;
  }

  abbrev pub lower_if : Option ℕ → ℕ → List (BudgetedOpp floats) → List (BudgetedOpp floats)
  lower_if none index plans = plans
  lower_if (some cap) index plans = modify (lower_to cap) index plans

  -- The higher cluster's operating point at its floor.
  unfoldable pub high_opp :
      Option (EnergyModel floats) → Option (BudgetedOpp floats) → Option (EnergyOpp floats)
  high_opp (some model) (some plan) =
      or_else floats (opp_at_or_below floats model plan.floor_hz) (first_opp floats model.opps)
  high_opp (some model) none = none
  high_opp none plan = none

  abbrev cap_against : Option (EnergyModel floats) → Option (EnergyOpp floats) → Option ℕ
  cap_against (some low) (some opp) = efficiency_cap low (cost_mw_per_performance floats opp)
  cap_against (some low) none = none
  cap_against none opp = none

  unfoldable pub limit_pair :
      List (EnergyModel floats) → ℕ → ℕ → List (BudgetedOpp floats) → List (BudgetedOpp floats)
  unfolding efficiency_cap high_opp
  limit_pair models low high plans =
      lower_if
        (cap_against (get_elem? models low)
          (high_opp (get_elem? models high) (get_elem? plans high)))
        low plans

  -- `order.windows(2).rev()`: the pairs from the highest down.
  unfoldable pub limit_pairs :
      List (EnergyModel floats) → List ℕ → List (BudgetedOpp floats) → List (BudgetedOpp floats)
  unfolding limit_pair
  limit_pairs models [] plans = plans
  limit_pairs models (low ∷ []) plans = plans
  limit_pairs models (low ∷ high ∷ order) plans =
      limit_pair models low high (limit_pairs models (high ∷ order) plans)

  unfoldable pub apply_reference_efficiency_limits :
      List (EnergyModel floats) → List (BudgetedOpp floats) → List (BudgetedOpp floats)
  unfolding limit_pairs performance_order
  apply_reference_efficiency_limits models plans =
      limit_pairs models (performance_order floats models) plans
