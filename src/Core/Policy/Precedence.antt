-- ===== src/Core/Policy/Precedence.antt =====
-- What takes precedence in a plan: a degraded thermal state over boosts, and overrides over the
-- governor.
use uperf_linux_rev.Base.Maps.{contains_key, get, insert, get-insert_there, values}
use uperf_linux_rev.Base.Text.{same_text_iff, text_key}
use uperf_linux_rev.Base.Results.{bind-ok}
use uperf_linux_rev.Base.{
  ℕ, ◌≡◌, refl, sym, ap, ◌∙◌, subst, ◌≢◌, inl, inr, Bool, true, false, not, ◌&&◌, List, [], ◌∷◌,
  arith, if◌then◌else◌, Bool-cases, is_some, ok, ok_or, All, In-keep, ok-injective, if-cases,
  if-true,
}
use uperf_linux_rev.Core.Float.{Floats}
use uperf_linux_rev.Core.Domain.{TargetId}
use uperf_linux_rev.Core.Errors.{missing_power_budget, missing_profile}
use uperf_linux_rev.Core.Hints.{HintSet, counts, dominant_at_excluding}
use uperf_linux_rev.Core.Hints.Dominance.{dominant_at_excluding-Dominates}
use uperf_linux_rev.Core.Scene.{Scene, boost, resolve_effective_profile, same_scene, same_scene_iff}
use uperf_linux_rev.Core.Energy.Governor.{CpuTargetPolicy, GovernorState}
use uperf_linux_rev.Core.Energy.Transition.{transition_governor}
use uperf_linux_rev.Core.Policy.Config.{PolicyConfig, profile_of}
use uperf_linux_rev.Core.Policy.Parameters.{effective_parameters}
use uperf_linux_rev.Core.Policy.Engine.{
  DesiredPlan, Frequencies, PolicyInput, cpu_overrides, cpu_step, evaluate_base, governing_scene,
  manual_targets, required_thermal_cap,
}
use uperf_linux_rev.Core.Policy.Stateful.{
  StatefulPolicyEvaluation, evaluate_stateful, governor_input, map_governor_error, merge_limits,
}
use uperf_linux_rev.Core.Policy.Safety.{required_thermal_cap-ok}

boost_excluded : (s : Scene) → same_scene boost s ≡ false → s ≢ boost
boost_excluded s h e = let same = (same_scene_iff boost s).1 (sym e) in cc (h, same)

idle-ne-boost : ◌≢◌ {A = Scene} Scene.idle Scene.boost
idle-ne-boost e = cc

-- With boost excluded the dominant scene is not boost.
dominant-ne-boost : (now : ℕ) (s : HintSet) → dominant_at_excluding now (boost ∷ []) s ≢ boost
dominant-ne-boost now s = elim (dominant_at_excluding-Dominates now (boost ∷ []) s).attained [
  | inl (_, e) ↦ subst (λ (x : Scene). x ≢ boost) (sym e) idle-ne-boost
  | inr (h, m, e) ↦
      let counted = (In-keep (counts now (boost ∷ [])) (values s) h m).1 in
      subst (λ (x : Scene). x ≢ boost) e (boost_excluded h.scene (ground (arith, counted)))
]

module _ (floats : Floats) (input : PolicyInput floats) where
  cap_of_known :
      (id : TargetId)
      → input.thermal_degraded ≡ true
      → (input.thermal_degraded && not (is_some (get id input.thermal_caps))) ≡ false
      → is_some (get id input.thermal_caps) ≡ true
  cap_of_known id degraded known = ground (arith, degraded, known)

  cpu_overrides-known :
      (ts : List (TargetId × CpuTargetPolicy floats)) (frequencies next : Frequencies floats)
      → input.thermal_degraded ≡ true
      → cpu_overrides floats input ts frequencies ≡ ok next
      → All (λ x. is_some (get x.0 input.thermal_caps) ≡ true) ts
  unfolding cpu_overrides cpu_step
  cpu_overrides-known [] frequencies next degraded h = tt
  cpu_overrides-known ((id, t) ∷ ts) frequencies next degraded h =
      let (f, first, h₁) = bind-ok (cpu_step floats input id t frequencies) _ h in
      let (thermal, known, _) = bind-ok (required_thermal_cap floats input id) _ first in
      (
        cap_of_known id degraded (required_thermal_cap-ok floats input id thermal known).1,
        cpu_overrides-known ts f next degraded h₁,
      )

  governing_scene-ne-boost : input.thermal_degraded ≡ true → governing_scene floats input ≢ boost
  unfolding governing_scene
  governing_scene-ne-boost degraded =
      subst (λ (x : Scene). x ≢ boost) (sym (if-true _ _ _ degraded))
        (dominant-ne-boost input.timestamp input.hints)

  -- While the thermal state is degraded, a base plan is made only where every processor target has
  -- a thermal cap, and its scene is not a boost.
  pub evaluate_base-degraded :
      (config : PolicyConfig floats) (plan : DesiredPlan)
      → input.thermal_degraded ≡ true
      → evaluate_base floats config input ≡ ok plan
      → All (λ x. is_some (get x.0 input.thermal_caps) ≡ true) input.cpu_targets
        × (plan.dominant_scene ≢ boost)
  unfolding evaluate_base
  evaluate_base-degraded config plan degraded h =
      let effective =
        resolve_effective_profile input.mode input.app_profile config.default_profile in
      let (profile, _, h₁) =
        bind-ok (ok_or (profile_of floats config effective) (missing_profile effective)) _ h in
      let (overrides, cpus, h₂) = bind-ok (cpu_overrides floats input input.cpu_targets []) _ h₁ in
      let (_, _, h₃) =
        bind-ok (manual_targets floats input input.manual_target_policies overrides) _ h₂ in
      (
        cpu_overrides-known input.cpu_targets [] overrides degraded cpus,
        subst (λ (d : DesiredPlan). d.dominant_scene ≢ boost) (ok-injective h₃)
            (governing_scene-ne-boost degraded),
      )

  merge_limits-overridden :
      (limits frequencies : Frequencies floats) (id : TargetId)
      → contains_key id input.manual_overrides ≡ true
      → get id (merge_limits floats input limits frequencies) ≡ get id frequencies
  unfolding merge_limits
  merge_limits-overridden [] frequencies id there = refl
  merge_limits-overridden ((k, l) ∷ rest) frequencies id there =
      merge_limits-overridden rest
        (if contains_key k input.manual_overrides then frequencies else insert k l frequencies) id
        there
      ∙ if-cases (λ (m : Frequencies floats). get id m ≡ get id frequencies)
          (contains_key k input.manual_overrides) frequencies (insert k l frequencies) (λ _. refl)
          (λ free. elim (Bool-cases (text_key.same k id)) [
            | inl same ↦
                let e = (same_text_iff k id).0 same in
                absurd (
                  clash _
                    (subst (λ (x : TargetId). contains_key x input.manual_overrides ≡ false) e free)
                    there)
            | inr other ↦ get-insert_there k id l frequencies other
          ])
    where
      clash : (b : Bool) → b ≡ false → b ≡ true → ⊥
      clash b f t = cc

  -- Where a target has an override, the evaluation with the governor gives it exactly what the base
  -- evaluation gives it, nothing included.
  pub evaluate_stateful-overridden :
      (config : PolicyConfig floats) (state : GovernorState floats) (integrate : Bool)
      (base : DesiredPlan) (out : StatefulPolicyEvaluation floats) (id : TargetId)
      → contains_key id input.manual_overrides ≡ true
      → evaluate_base floats config input ≡ ok base
      → evaluate_stateful floats config input state integrate ≡ ok out
      → get id out.desired.frequencies ≡ get id base.frequencies
  unfolding evaluate_stateful
  evaluate_stateful-overridden config state integrate base out id there first h =
      let (desired, again, h₁) = bind-ok (evaluate_base floats config input) _ h in
      let (profile, _, h₂) =
        bind-ok
          (ok_or (profile_of floats config desired.effective_profile)
            (missing_profile desired.effective_profile))
          _ h₁ in
      let parameters = effective_parameters floats profile desired.dominant_scene in
      let (budget, _, h₃) =
        bind-ok (ok_or parameters.power_budget (missing_power_budget desired.effective_profile)) _
          h₂ in
      let (t, _, h₄) =
        bind-ok
          (map_governor_error floats (
            transition_governor floats state
              (governor_input floats config input parameters budget integrate)))
          _ h₃ in
      let same : desired ≡ base = ok-injective (sym again ∙ first) in
      ap (λ (o : StatefulPolicyEvaluation floats). get id o.desired.frequencies)
        (sym (ok-injective h₄))
      ∙ merge_limits-overridden t.limits desired.frequencies id there
      ∙ ap (λ (d : DesiredPlan). get id d.frequencies) same
