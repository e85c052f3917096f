-- ===== src/Core/Energy/Coverage.antt =====
-- Every cluster that the governor is asked about gets limits.
use uperf_linux_rev.Base.Maps.{get, insert, get-insert, keys}
use uperf_linux_rev.Base.Text.{text_key, same_text_iff}
use uperf_linux_rev.Base.Results.{bind-ok}
use uperf_linux_rev.Base.{
  ℕ, zero, suc, ◌≡◌, refl, sym, ap, ◌∙◌, subst, ◌⊎◌, inl, inr, Bool, true, false, ◌||◌, some, List,
  [], ◌∷◌, map, Bool-cases, is_some, ok, ok_or, In, ok-injective, if-cases,
}
use uperf_linux_rev.Core.Float.{Floats}
use uperf_linux_rev.Core.Domain.{TargetId}
use uperf_linux_rev.Core.Units.{FrequencyLimits}
use uperf_linux_rev.Core.Energy.Budget.{
  apply_burst, burst_demand, burst_each, modify, models_of, performance_order, skip_first,
}
use uperf_linux_rev.Core.Energy.Governor.{
  BudgetedOpp, CpuTargetPolicy, GovernorInput, GovernorState, Preparation, PreparedTarget,
  TargetGovernorState, TargetStates, check_policy, missing_energy_model, no_opp_below_safety_cap,
  prepare_all, prepare_cluster, prepared_target, safety_cap_for,
}
use uperf_linux_rev.Core.Energy.Model.{opp_at_or_below}
use uperf_linux_rev.Core.Energy.Select.{
  budgeted_opps, high_cost_increase, ramp_elapsed, ramp_progress,
}
use uperf_linux_rev.Core.Energy.Transition.{
  GovernorTransition, Budgeting, budget_package, choose_plans, elapsed_since, finish_limits,
  govern_package, govern_prepared, limits_of_plan, transition_governor,
}
use uperf_linux_rev.Core.Energy.Caps.{ArePlans, budgeted_opps-ArePlans, choose_plans-ArePlans}
use uperf_linux_rev.Core.Frequency.{validate}

-- The map has the key.
abbrev pub Has : {V : Type 0} → TargetId → List (TargetId × V) → Type 0
Has id m = is_some (get id m) ≡ true

Has-insert :
    {V : Type 0} (k id : TargetId) (v : V) (m : List (TargetId × V))
    → (id ≡ k) ⊎ Has id m
    → Has id (insert k v m)
Has-insert k id v m h = rw (get-insert k id v m) (elim (Bool-cases (text_key.same k id)) [
  | inl same ↦ rw same
  | inr other ↦ rw other (elim h [
    | inl e ↦ absurd (differs (text_key.same k id) other ((same_text_iff k id).1 (sym e)))
    | inr there ↦ there
  ])
])
  where
    differs : (b : Bool) → b ≡ false → b ≡ true → ⊥
    differs b f t = cc

module _ (floats : Floats) (input : GovernorInput floats) where
  abbrev ids : List (PreparedTarget floats) → List TargetId
  ids = map λ p. p.id

  prepare_cluster-id :
      (id : TargetId) (target : CpuTargetPolicy floats) (states : TargetStates floats)
      (out : TargetGovernorState floats × PreparedTarget floats)
      → prepare_cluster floats input id target states ≡ ok out
      → out.1.id ≡ id
  unfolding prepare_cluster prepared_target
  prepare_cluster-id id target states out h =
      let (_, _, h₁) = bind-ok (check_policy floats id (validate target.frequency)) _ h in
      let (model, _, h₂) = bind-ok (ok_or target.energy_model (missing_energy_model id)) _ h₁ in
      let cap = safety_cap_for floats input id target in
      let (_, _, h₃) =
        bind-ok (ok_or (opp_at_or_below floats model cap) (no_opp_below_safety_cap id)) _ h₂ in
      ap (λ (x : TargetGovernorState floats × PreparedTarget floats). x.1.id)
        (sym (ok-injective h₃))

  prepare_all-ids :
      (ts : List (TargetId × CpuTargetPolicy floats)) (states : TargetStates floats)
      (power : floats.F) (bypass : Bool) (r : Preparation floats)
      → prepare_all floats input ts states power bypass ≡ ok r
      → ids r.prepared ≡ keys ts
  unfolding prepare_all
  prepare_all-ids [] states power bypass r h =
      ap (λ (x : Preparation floats). ids x.prepared) (sym (ok-injective h))
  prepare_all-ids ((id, target) ∷ ts) states power bypass r h =
      let (out, one, h₁) = bind-ok (prepare_cluster floats input id target states) _ h in
      let more = floats.add power out.1.estimated_power_mw in
      let flag = bypass || out.1.demand.prediction_bypassed_ramp in
      let (rest, later, h₂) =
        bind-ok (prepare_all floats input ts (insert id out.0 states) more flag) _ h₁ in
      let whole = ap (λ (x : Preparation floats). ids x.prepared) (sym (ok-injective h₂)) in
      let first = prepare_cluster-id id target states out one in
      let others = prepare_all-ids ts (insert id out.0 states) more flag rest later in
      whole ∙ λ i. first i ∷ others i

  modify-ids :
      (i : ℕ) (ps : List (PreparedTarget floats))
      → ids (modify (burst_demand floats input) i ps) ≡ ids ps
  unfolding burst_demand
  modify-ids i [] = refl
  modify-ids zero (p ∷ ps) = refl
  modify-ids (suc i) (p ∷ ps) = ap (λ (l : List TargetId). p.id ∷ l) (modify-ids i ps)

  burst_each-ids :
      (is : List ℕ) (ps : List (PreparedTarget floats))
      → ids (burst_each floats input is ps) ≡ ids ps
  unfolding burst_each
  burst_each-ids [] ps = refl
  burst_each-ids (i ∷ is) ps =
      burst_each-ids is (modify (burst_demand floats input) i ps) ∙ modify-ids i ps

  apply_burst-ids : (ps : List (PreparedTarget floats)) → ids (apply_burst floats input ps) ≡ ids ps
  unfolding apply_burst
  apply_burst-ids ps =
      if-cases (λ (l : List (PreparedTarget floats)). ids l ≡ ids ps)
        (floats.lt floats.zero input.burst) _ ps
        (λ _. burst_each-ids (skip_first (performance_order floats (models_of floats ps))) ps)
        (λ _. refl)

  finish_limits-Has :
      (ps : List (PreparedTarget floats)) (qs : List (BudgetedOpp floats))
      (limits : List (TargetId × FrequencyLimits)) (id : TargetId)
      → ArePlans floats input ps qs
      → In id (ids ps) ⊎ Has id limits
      → Has id (finish_limits floats ps qs limits)
  unfolding finish_limits
  finish_limits-Has [] [] limits id k (inl m) = absurd m
  finish_limits-Has [] [] limits id k (inr there) = there
  finish_limits-Has [] (q ∷ qs) limits id k m = absurd k
  finish_limits-Has (p ∷ ps) [] limits id k m = absurd k
  finish_limits-Has (p ∷ ps) (q ∷ qs) limits id k (inl (inl e)) =
      finish_limits-Has ps qs _ id k.1
        (inr (Has-insert p.id id (limits_of_plan floats q) limits (inl e)))
  finish_limits-Has (p ∷ ps) (q ∷ qs) limits id k (inl (inr m)) =
      finish_limits-Has ps qs _ id k.1 (inl m)
  finish_limits-Has (p ∷ ps) (q ∷ qs) limits id k (inr there) =
      finish_limits-Has ps qs _ id k.1
        (inr (Has-insert p.id id (limits_of_plan floats q) limits (inr there)))

  govern_package-Has :
      (elapsed : ℕ) (bypass : Bool) (power : floats.F) (ps : List (PreparedTarget floats))
      (b : Budgeting floats) (id : TargetId)
      → In id (ids ps)
      → Has id (govern_package floats input elapsed bypass power ps b).limits
  unfolding govern_package
  govern_package-Has elapsed bypass power ps b id m =
      let waived = floats.lt floats.zero input.burst in
      let wishes = budgeted_opps floats waived b.state.targets ps in
      let ramp =
        ramp_elapsed (waived || bypass) (high_cost_increase floats b.state.targets ps wishes)
          b.state.shared_ramp_elapsed_ms elapsed input.config.ramp_latency_ms in
      let state = record b.state { shared_ramp_elapsed_ms = ramp } in
      let progress = ramp_progress floats ramp input.config.ramp_latency_ms in
      finish_limits-Has ps (choose_plans floats input (waived || bypass) progress ps state wishes)
        [] id
        (choose_plans-ArePlans floats input (waived || bypass) progress ps state wishes
          (budgeted_opps-ArePlans floats input waived b.state.targets ps))
        (inl m)

  -- A transition that succeeds returns limits for every target of the input.
  pub transition_governor-Has :
      (state : GovernorState floats) (t : GovernorTransition floats) (id : TargetId)
      → transition_governor floats state input ≡ ok t
      → In id (keys input.targets)
      → Has id t.limits
  unfolding transition_governor govern_prepared
  transition_governor-Has state t id h m =
      let (r, prepared, e) =
        bind-ok (prepare_all floats input input.targets state.targets floats.zero false) _ h in
      let ps = apply_burst floats input r.prepared in
      let same =
        apply_burst-ids r.prepared
        ∙ prepare_all-ids input.targets state.targets floats.zero false r prepared in
      let elapsed = elapsed_since floats input.timestamp state.previous_timestamp in
      subst (λ (x : GovernorTransition floats). Has id x.limits) (ok-injective e)
        (govern_package-Has elapsed r.any_bypass r.power_mw ps
          (budget_package floats input elapsed r.power_mw ps
            (record state { previous_timestamp = some input.timestamp; targets = r.states }))
          id (subst (λ (l : List TargetId). In id l) (sym same) m))
