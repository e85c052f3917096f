-- ===== src/Core/Energy/Caps.antt =====
-- What the governor promises whatever it predicts: ordered limits under every cap.
use uperf_linux_rev.Core.Energy.Budget.{apply_burst, performance_order, models_of, modify}
use uperf_linux_rev.Base.Maps.{get, All-insert}
use uperf_linux_rev.Base.Text.{text_key}
use uperf_linux_rev.Base.Results.{bind-ok}
use uperf_linux_rev.Base.{
  ℕ, zero, suc, ◌≤◌, ◌≡◌, subst, Bool, false, ◌||◌, Option, none, some, List, [], ◌∷◌, arith, ok,
  All, In, ok-injective, if-cases,
}
use uperf_linux_rev.Core.Float.{Floats}
use uperf_linux_rev.Core.Domain.{TargetId}
use uperf_linux_rev.Core.Units.{FrequencyLimits}
use uperf_linux_rev.Core.Sorting.{least}
use uperf_linux_rev.Core.Energy.Model.{EnergyModel}
use uperf_linux_rev.Core.Energy.Governor.{
  Preparation, BudgetedOpp, CpuTargetPolicy, GovernorInput, GovernorState, PreparedTarget,
  TargetStates, prepare_all, safety_cap_for, safety_cap_of,
}
use uperf_linux_rev.Core.Energy.Select.{
  ramp_elapsed, ramp_progress, high_cost_increase, lower_to, apply_reference_efficiency_limits,
  budgeted_opp, budgeted_opps, limit_pair, limit_pairs, lower_if, selected_plan, selected_plans,
}
use uperf_linux_rev.Core.Energy.Transition.{
  Budgeting, elapsed_since, budget_package, GovernorTransition, choose_plans, finish_limits,
  govern_package, govern_prepared, limits_of_plan, transition_governor,
}
use uperf_linux_rev.Core.Energy.Prepared.{
  IsPrepared, prepare_all-IsPrepared, apply_burst-IsPrepared,
}

-- A cap that is set binds.
abbrev pub Under : Option ℕ → ℕ → Type 0
Under none f = Unit {0}
Under (some c) f = f ≤ c

module _ (floats : Floats) (input : GovernorInput floats) where
  -- A limit of a target of the input.
  pub record IsCapped (entry : TargetId × FrequencyLimits) : Type 0 where
    pub target : CpuTargetPolicy floats
    pub listed : In (entry.0, target) input.targets
    pub ordered : entry.1.min ≤ entry.1.max
    pub below_hardware : entry.1.max ≤ target.frequency.hardware_limits.max
    pub below_administrator : Under (get entry.0 input.administrator_caps) entry.1.max
    pub below_thermal : Under (get entry.0 input.thermal_caps) entry.1.max

  -- A plan is ordered and under its cluster's cap; the plans match the clusters one to one.
  abbrev pub IsPlan : PreparedTarget floats → BudgetedOpp floats → Type 0
  IsPlan p plan = (plan.floor_hz ≤ plan.cap_hz) × (plan.cap_hz ≤ p.safety_cap)

  abbrev pub ArePlans : List (PreparedTarget floats) → List (BudgetedOpp floats) → Type 0
  ArePlans [] [] = Unit {0}
  ArePlans [] (q ∷ qs) = ⊥
  ArePlans (p ∷ ps) [] = ⊥
  ArePlans (p ∷ ps) (q ∷ qs) = IsPlan p q × ArePlans ps qs

  pub budgeted_opps-ArePlans :
      (bypassed : Bool) (states : TargetStates floats) (ps : List (PreparedTarget floats))
      → ArePlans ps (budgeted_opps floats bypassed states ps)
  unfolding budgeted_opp
  budgeted_opps-ArePlans bypassed states [] = tt
  budgeted_opps-ArePlans bypassed states (p ∷ ps) =
      (ground arith, budgeted_opps-ArePlans bypassed states ps)

  selected_plans-ArePlans :
      (bypassed : Bool) (progress : floats.F) (states : TargetStates floats)
      (ps : List (PreparedTarget floats)) (qs : List (BudgetedOpp floats))
      → ArePlans ps qs
      → ArePlans ps (selected_plans floats input bypassed progress states ps qs)
  unfolding selected_plans selected_plan
  selected_plans-ArePlans bypassed progress states [] [] h = tt
  selected_plans-ArePlans bypassed progress states [] (q ∷ qs) h = elim h [ ]
  selected_plans-ArePlans bypassed progress states (p ∷ ps) [] h = elim h [ ]
  selected_plans-ArePlans bypassed progress states (p ∷ ps) (q ∷ qs) h =
      ((omega arith, h.0.1), selected_plans-ArePlans bypassed progress states ps qs h.1)

  lower_to-ArePlans :
      (cap i : ℕ) (ps : List (PreparedTarget floats)) (qs : List (BudgetedOpp floats))
      → ArePlans ps qs
      → ArePlans ps (modify (lower_to floats cap) i qs)
  lower_to-ArePlans cap i [] [] h = tt
  lower_to-ArePlans cap i [] (q ∷ qs) h = elim h [ ]
  lower_to-ArePlans cap i (p ∷ ps) [] h = elim h [ ]
  lower_to-ArePlans cap zero (p ∷ ps) (q ∷ qs) h = ((omega arith, omega arith), h.1)
  lower_to-ArePlans cap (suc i) (p ∷ ps) (q ∷ qs) h = (h.0, lower_to-ArePlans cap i ps qs h.1)

  lower_if-ArePlans :
      (cap : Option ℕ) (i : ℕ) (ps : List (PreparedTarget floats)) (qs : List (BudgetedOpp floats))
      → ArePlans ps qs
      → ArePlans ps (lower_if floats cap i qs)
  lower_if-ArePlans none i ps qs h = h
  lower_if-ArePlans (some cap) i ps qs h = lower_to-ArePlans cap i ps qs h

  limit_pairs-ArePlans :
      (models : List (EnergyModel floats)) (order : List ℕ) (ps : List (PreparedTarget floats))
      (qs : List (BudgetedOpp floats))
      → ArePlans ps qs
      → ArePlans ps (limit_pairs floats models order qs)
  unfolding limit_pairs limit_pair
  limit_pairs-ArePlans models [] ps qs h = h
  limit_pairs-ArePlans models (low ∷ []) ps qs h = h
  limit_pairs-ArePlans models (low ∷ high ∷ order) ps qs h =
      lower_if-ArePlans _ low ps _ (limit_pairs-ArePlans models (high ∷ order) ps qs h)

  efficiency-ArePlans :
      (models : List (EnergyModel floats)) (ps : List (PreparedTarget floats))
      (qs : List (BudgetedOpp floats))
      → ArePlans ps qs
      → ArePlans ps (apply_reference_efficiency_limits floats models qs)
  unfolding apply_reference_efficiency_limits
  efficiency-ArePlans models ps qs h =
      limit_pairs-ArePlans models (performance_order floats models) ps qs h

  pub choose_plans-ArePlans :
      (bypassed : Bool) (progress : floats.F) (ps : List (PreparedTarget floats))
      (state : GovernorState floats) (qs : List (BudgetedOpp floats))
      → ArePlans ps qs
      → ArePlans ps (choose_plans floats input bypassed progress ps state qs)
  unfolding choose_plans
  choose_plans-ArePlans bypassed progress ps state qs h =
      let selected = selected_plans-ArePlans bypassed progress state.targets ps qs h in
      if-cases (ArePlans ps) input.limit_efficiency _ _
        (λ _.
          efficiency-ArePlans (models_of floats ps) ps
            (selected_plans floats input bypassed progress state.targets ps qs) selected)
        (λ _. selected)

  safety_cap_of-least :
      (hardware : ℕ) (administrator thermal : Option ℕ)
      → (safety_cap_of floats hardware administrator thermal ≤ hardware)
        × Under administrator (safety_cap_of floats hardware administrator thermal)
        × Under thermal (safety_cap_of floats hardware administrator thermal)
  unfolding safety_cap_of least
  safety_cap_of-least hardware none none = (omega arith, tt, tt)
  safety_cap_of-least hardware (some a) none = (omega arith, omega arith, tt)
  safety_cap_of-least hardware none (some t) = (omega arith, tt, omega arith)
  safety_cap_of-least hardware (some a) (some t) = (omega arith, omega arith, omega arith)

  Under-le : (c : Option ℕ) (f g : ℕ) → f ≤ g → Under c g → Under c f
  Under-le none f g h u = tt
  Under-le (some c) f g h u = omega arith

  plan-IsCapped :
      (p : PreparedTarget floats) (q : BudgetedOpp floats)
      → IsPrepared floats input p
      → IsPlan p q
      → IsCapped (p.id, limits_of_plan floats q)
  unfolding safety_cap_for
  plan-IsCapped p q h plan =
      let bound : q.cap_hz ≤ safety_cap_for floats input p.id p.target =
        subst (λ (c : ℕ). q.cap_hz ≤ c) h.capped plan.1 in
      let (below, admin, thermal) =
        safety_cap_of-least p.target.frequency.hardware_limits.max
          (get p.id input.administrator_caps) (get p.id input.thermal_caps) in
      record {
        target = p.target;
        listed = h.listed;
        ordered = plan.0;
        below_hardware = omega arith;
        below_administrator = Under-le _ _ _ bound admin;
        below_thermal = Under-le _ _ _ bound thermal;
      }

  finish_limits-IsCapped :
      (ps : List (PreparedTarget floats)) (qs : List (BudgetedOpp floats))
      (limits : List (TargetId × FrequencyLimits))
      → All (IsPrepared floats input) ps
      → ArePlans ps qs
      → All IsCapped limits
      → All IsCapped (finish_limits floats ps qs limits)
  unfolding finish_limits
  finish_limits-IsCapped [] [] limits h k a = a
  finish_limits-IsCapped [] (q ∷ qs) limits h k a = elim k [ ]
  finish_limits-IsCapped (p ∷ ps) [] limits h k a = elim k [ ]
  finish_limits-IsCapped (p ∷ ps) (q ∷ qs) limits h k a =
      finish_limits-IsCapped ps qs _ h.1 k.1
        (All-insert IsCapped p.id (limits_of_plan floats q) limits (plan-IsCapped p q h.0 k.0) a)

  chosen-IsCapped :
      (waived bypassed : Bool) (progress : floats.F) (states : TargetStates floats)
      (state : GovernorState floats) (ps : List (PreparedTarget floats))
      → All (IsPrepared floats input) ps
      → All IsCapped (
          finish_limits floats ps
            (choose_plans floats input bypassed progress ps state
              (budgeted_opps floats waived states ps))
            [])
  chosen-IsCapped waived bypassed progress states state ps h =
      let wishes = budgeted_opps floats waived states ps in
      finish_limits-IsCapped ps (choose_plans floats input bypassed progress ps state wishes) [] h
        (choose_plans-ArePlans bypassed progress ps state wishes
          (budgeted_opps-ArePlans waived states ps))
        tt

  govern_package-IsCapped :
      (elapsed : ℕ) (bypass : Bool) (power : floats.F) (ps : List (PreparedTarget floats))
      (b : Budgeting floats)
      → All (IsPrepared floats input) ps
      → All IsCapped (govern_package floats input elapsed bypass power ps b).limits
  unfolding govern_package
  govern_package-IsCapped elapsed bypass power ps b h =
      let waived = floats.lt floats.zero input.burst in
      let wishes = budgeted_opps floats waived b.state.targets ps in
      let ramp =
        ramp_elapsed (waived || bypass) (high_cost_increase floats b.state.targets ps wishes)
          b.state.shared_ramp_elapsed_ms elapsed input.config.ramp_latency_ms in
      chosen-IsCapped waived (waived || bypass)
        (ramp_progress floats ramp input.config.ramp_latency_ms) b.state.targets
        (record b.state { shared_ramp_elapsed_ms = ramp }) ps h

  govern_prepared-IsCapped :
      (state : GovernorState floats) (r : Preparation floats)
      → All (IsPrepared floats input) r.prepared
      → All IsCapped (govern_prepared floats state input r).limits
  unfolding govern_prepared
  govern_prepared-IsCapped state r h =
      let ps = apply_burst floats input r.prepared in
      let elapsed = elapsed_since floats input.timestamp state.previous_timestamp in
      govern_package-IsCapped elapsed r.any_bypass r.power_mw ps
        (budget_package floats input elapsed r.power_mw ps
          (record state { previous_timestamp = some input.timestamp; targets = r.states }))
        (apply_burst-IsPrepared floats input r.prepared h)

  -- Whatever the loads, the models, the burst and the state: each limit that the governor returns
  -- belongs to a target of the input, is ordered, and is under the target's hardware maximum, the
  -- administrator's cap and the thermal cap.
  pub transition_governor-IsCapped :
      (state : GovernorState floats) (t : GovernorTransition floats)
      → transition_governor floats state input ≡ ok t
      → All IsCapped t.limits
  unfolding transition_governor
  transition_governor-IsCapped state t h =
      let (r, prepared, e) =
        bind-ok (prepare_all floats input input.targets state.targets floats.zero false) _ h in
      subst (λ (x : GovernorTransition floats). All IsCapped x.limits) (ok-injective e)
        (govern_prepared-IsCapped state r (
          prepare_all-IsPrepared floats input input.targets state.targets floats.zero false r
            (λ x m. m) prepared))
