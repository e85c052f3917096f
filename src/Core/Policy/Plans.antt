-- ===== src/Core/Policy/Plans.antt =====
-- The plans as a whole: `evaluate_base` and `evaluate_stateful` of crates/uperf-core/src/policy.rs.
use uperf_linux_rev.Base.Maps.{contains_key, insert, All-insert}
use uperf_linux_rev.Base.Text.{text_key}
use uperf_linux_rev.Base.Words.{u64_max}
use uperf_linux_rev.Base.Results.{bind-ok}
use uperf_linux_rev.Base.{
  ℕ, ◌≤◌, ◌≡◌, refl, sym, ap, subst, inl, inr, Bool, Option, none, some, List, [], ◌∷◌, arith,
  if◌then◌else◌, Result, ok, err, ok_or, All, In, ok-injective, ok-ne-err, if-cases,
}
use uperf_linux_rev.Core.Float.{Floats}
use uperf_linux_rev.Core.Domain.{TargetId}
use uperf_linux_rev.Core.Errors.{missing_power_budget, missing_profile}
use uperf_linux_rev.Core.Frequency.{FrequencyPolicy}
use uperf_linux_rev.Core.Frequency.Constrain.{Binds}
use uperf_linux_rev.Core.Units.{FrequencyLimits}
use uperf_linux_rev.Core.Scene.{resolve_effective_profile}
use uperf_linux_rev.Core.Energy.Bucket.{PowerBudgetConfig}
use uperf_linux_rev.Core.Energy.Caps.{IsCapped, Under, transition_governor-IsCapped}
use uperf_linux_rev.Core.Energy.Governor.{GovernorError, GovernorState}
use uperf_linux_rev.Core.Energy.Transition.{GovernorTransition, transition_governor}
use uperf_linux_rev.Core.Policy.Config.{PolicyConfig, profile_of}
use uperf_linux_rev.Core.Policy.Parameters.{EffectiveParameters, effective_parameters}
use uperf_linux_rev.Core.Policy.Engine.{
  DesiredPlan, Frequencies, PolicyInput, cpu_overrides, evaluate_base, manual_step, manual_targets,
}
use uperf_linux_rev.Core.Policy.Stateful.{
  StatefulPolicyEvaluation, evaluate_stateful, governor_input, map_governor_error, merge_limits,
}
use uperf_linux_rev.Core.Policy.Safety.{
  IsAllowed, cpu_overrides-IsAllowed, manual_step-IsAllowed, of_cpu, of_manual,
}

module _ (floats : Floats) (input : PolicyInput floats) where
  -- The largest hardware frequencies fit a u64, as the type of the source says.
  pub record AreWords : Type 0 where
    pub cpus : All (λ x. x.1.frequency.hardware_limits.max ≤ u64_max) input.cpu_targets
    pub manuals : All (λ x. x.1.hardware_limits.max ≤ u64_max) input.manual_target_policies

  manual_targets-IsAllowed :
      (ps : List (TargetId × FrequencyPolicy)) (frequencies next : Frequencies floats)
      → ((x : TargetId × FrequencyPolicy) → In x ps → In x input.manual_target_policies)
      → All (λ x. x.1.hardware_limits.max ≤ u64_max) ps
      → All (IsAllowed floats input) frequencies
      → manual_targets floats input ps frequencies ≡ ok next
      → All (IsAllowed floats input) next
  unfolding manual_targets
  manual_targets-IsAllowed [] frequencies next sub words a h =
      subst (All (IsAllowed floats input)) (ok-injective h) a
  manual_targets-IsAllowed ((id, p) ∷ ps) frequencies next sub words a h =
      let (f, first, h₁) = bind-ok (manual_step floats input id p frequencies) _ h in
      manual_targets-IsAllowed ps f next (λ x m. sub x (inr m)) words.1
        (manual_step-IsAllowed floats input id p frequencies f
          (of_manual p (sub (id, p) (inl refl)) refl) words.0 a first)
        h₁

  -- Where the hardware ranges fit a u64, every limit of a base plan is that of a target of the
  -- input: ordered, inside its hardware range, and under the administrator's and the thermal cap
  -- down to the lower hardware bound.
  pub evaluate_base-IsAllowed :
      (config : PolicyConfig floats) (plan : DesiredPlan)
      → AreWords
      → evaluate_base floats config input ≡ ok plan
      → All (IsAllowed floats input) plan.frequencies
  unfolding evaluate_base
  evaluate_base-IsAllowed config plan words h =
      let effective =
        resolve_effective_profile input.mode input.app_profile config.default_profile in
      let (profile, _, h₁) =
        bind-ok (ok_or (profile_of floats config effective) (missing_profile effective)) _ h in
      let (overrides, cpus, h₂) = bind-ok (cpu_overrides floats input input.cpu_targets []) _ h₁ in
      let (frequencies, manuals, h₃) =
        bind-ok (manual_targets floats input input.manual_target_policies overrides) _ h₂ in
      subst (λ (d : DesiredPlan). All (IsAllowed floats input) d.frequencies) (ok-injective h₃)
        (manual_targets-IsAllowed input.manual_target_policies overrides frequencies (λ x m. m)
          words.manuals
          (cpu_overrides-IsAllowed floats input input.cpu_targets [] overrides (λ x m. m) words.cpus
            tt cpus)
          manuals)

  Under-Binds : (c : Option ℕ) (lo f : ℕ) → Under c f → Binds c lo f
  Under-Binds none lo f h = tt
  Under-Binds (some c) lo f h = omega arith

  -- A limit of the governor is allowed too: the governor never goes below its caps.
  capped-IsAllowed :
      (config : PolicyConfig floats) (parameters : EffectiveParameters floats)
      (budget : PowerBudgetConfig floats) (integrate : Bool) (e : TargetId × FrequencyLimits)
      → IsCapped floats (governor_input floats config input parameters budget integrate) e
      → IsAllowed floats input e
  unfolding governor_input
  capped-IsAllowed config parameters budget integrate e c = record {
    hardware = c.target.frequency.hardware_limits;
    of_target = of_cpu c.target c.listed refl;
    ordered = c.ordered;
    below_hardware = c.below_hardware;
    below_administrator = Under-Binds _ _ _ c.below_administrator;
    below_thermal = Under-Binds _ _ _ c.below_thermal;
  }

  merge_limits-All :
      (P : TargetId × FrequencyLimits → Type 0) (limits frequencies : Frequencies floats)
      → All P limits
      → All P frequencies
      → All P (merge_limits floats input limits frequencies)
  unfolding merge_limits
  merge_limits-All P [] frequencies h a = a
  merge_limits-All P ((id, l) ∷ rest) frequencies h a =
      merge_limits-All P rest
        (if contains_key id input.manual_overrides then frequencies else insert id l frequencies)
        h.1
        (if-cases (All P) (contains_key id input.manual_overrides) frequencies
          (insert id l frequencies) (λ _. a) (λ _. All-insert P id l frequencies h.0 a))

  All-map :
      {A : Type 0} (P Q : A → Type 0) (xs : List A) → ((x : A) → P x → Q x) → All P xs → All Q xs
  All-map P Q [] f h = tt
  All-map P Q (x ∷ xs) f h = (f x h.0, All-map P Q xs f h.1)

  map_governor_error-ok :
      (r : Result GovernorError (GovernorTransition floats)) (t : GovernorTransition floats)
      → map_governor_error floats r ≡ ok t
      → r ≡ ok t
  map_governor_error-ok (ok a) t h = ap (λ x. ok x) (ok-injective h)
  map_governor_error-ok (err e) t h = absurd (ok-ne-err (sym h))

  -- Where the hardware ranges fit a u64, every limit of the plan that the engine and the governor
  -- make together is that of a target of the input: ordered, not above its hardware range, and
  -- under the administrator's and the thermal cap, each of which binds down to the lower hardware
  -- bound and not below it.
  pub evaluate_stateful-IsAllowed :
      (config : PolicyConfig floats) (state : GovernorState floats) (integrate : Bool)
      (out : StatefulPolicyEvaluation floats)
      → AreWords
      → evaluate_stateful floats config input state integrate ≡ ok out
      → All (IsAllowed floats input) out.desired.frequencies
  unfolding evaluate_stateful
  evaluate_stateful-IsAllowed config state integrate out words h =
      let (desired, base, h₁) = bind-ok (evaluate_base floats config input) _ h in
      let (profile, _, h₂) =
        bind-ok
          (ok_or (profile_of floats config desired.effective_profile)
            (missing_profile desired.effective_profile))
          _ h₁ in
      let parameters = effective_parameters floats profile desired.dominant_scene in
      let (budget, _, h₃) =
        bind-ok (ok_or parameters.power_budget (missing_power_budget desired.effective_profile)) _
          h₂ in
      let call =
        transition_governor floats state
          (governor_input floats config input parameters budget integrate) in
      let (t, moved, h₄) = bind-ok (map_governor_error floats call) _ h₃ in
      let capped =
        transition_governor-IsCapped floats
          (governor_input floats config input parameters budget integrate) state t
          (map_governor_error-ok call t moved) in
      subst
        (λ (o : StatefulPolicyEvaluation floats).
          All (IsAllowed floats input) o.desired.frequencies)
        (ok-injective h₄)
        (merge_limits-All (IsAllowed floats input) t.limits desired.frequencies
          (All-map _ _ t.limits (capped-IsAllowed config parameters budget integrate) capped)
          (evaluate_base-IsAllowed config desired words base))
