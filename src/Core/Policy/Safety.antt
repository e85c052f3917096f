-- ===== src/Core/Policy/Safety.antt =====
-- Every limit of a plan is allowed: `evaluate_base` and `evaluate_stateful` of
-- crates/uperf-core/src/policy.rs.
use uperf_linux_rev.Base.Maps.{contains_key, get, All-insert}
use uperf_linux_rev.Base.Text.{text_key}
use uperf_linux_rev.Base.Words.{u64_max}
use uperf_linux_rev.Base.Results.{bind-ok}
use uperf_linux_rev.Base.{
  ℕ, ◌≤◌, ◌≡◌, refl, sym, ◌∙◌, subst, inl, inr, false, not, ◌&&◌, Option, none, some, List, [], ◌∷◌,
  Bool-cases, is_some, some_or, ok, All, In, ok_of_guard, ok-injective, if-true, if-false,
}
use uperf_linux_rev.Core.Float.{Floats}
use uperf_linux_rev.Core.Domain.{TargetId}
use uperf_linux_rev.Core.Errors.{missing_thermal_cap}
use uperf_linux_rev.Core.Frequency.{FrequencyPolicy, constrain_frequency_limits, validate}
use uperf_linux_rev.Core.Frequency.Constrain.{Binds, constrain_frequency_limits-IsConstrained}
use uperf_linux_rev.Core.Units.{FrequencyLimits}
use uperf_linux_rev.Core.Energy.Governor.{CpuTargetPolicy}
use uperf_linux_rev.Core.Policy.Engine.{
  Frequencies, PolicyInput, constrain_manual, cpu_overrides, cpu_step, is_left_alone, manual_step,
  override_cpu, required_thermal_cap, baseline,
}

module _ (floats : Floats) (input : PolicyInput floats) where
  -- A hardware range of a target with this id.
  pub data IsRange (id : TargetId) (hardware : FrequencyLimits) : Type 0 where
    of_cpu :
        (t : CpuTargetPolicy floats)
        → In (id, t) input.cpu_targets
        → t.frequency.hardware_limits ≡ hardware
        → IsRange id hardware
    of_manual :
        (p : FrequencyPolicy)
        → In (id, p) input.manual_target_policies
        → p.hardware_limits ≡ hardware
        → IsRange id hardware

  -- Limits of a target of the input: ordered, not above its hardware range, and under both caps
  -- down to its lower hardware bound.
  pub record IsAllowed (entry : TargetId × FrequencyLimits) : Type 0 where
    pub hardware : FrequencyLimits
    pub of_target : IsRange entry.0 hardware
    pub ordered : entry.1.min ≤ entry.1.max
    pub below_hardware : entry.1.max ≤ hardware.max
    pub below_administrator : Binds (get entry.0 input.administrator_caps) hardware.min entry.1.max
    pub below_thermal : Binds (get entry.0 input.thermal_caps) hardware.min entry.1.max

  pub required_thermal_cap-ok :
      (id : TargetId) (thermal : Option ℕ)
      → required_thermal_cap floats input id ≡ ok thermal
      → (thermal ≡ get id input.thermal_caps)
        × ((input.thermal_degraded && not (is_some (get id input.thermal_caps))) ≡ false)
  unfolding required_thermal_cap
  required_thermal_cap-ok id thermal h =
      let (known, h₁) =
        ok_of_guard (input.thermal_degraded && not (is_some (get id input.thermal_caps)))
          (missing_thermal_cap id) _ h in
      (sym (ok-injective h₁), known)

  constrained-IsAllowed :
      (id : TargetId) (requested : FrequencyLimits) (p : FrequencyPolicy) (l : FrequencyLimits)
      (thermal : Option ℕ)
      → IsRange id p.hardware_limits
      → p.hardware_limits.max ≤ u64_max
      → thermal ≡ get id input.thermal_caps
      → constrain_frequency_limits requested p.hardware_limits
          (get id input.administrator_caps)
          thermal
          p.available_frequencies
          p.hertz_per_unit
        ≡ ok l
      → IsAllowed (id, l)
  constrained-IsAllowed id requested p l thermal range word same h =
      let c =
        constrain_frequency_limits-IsConstrained requested p.hardware_limits
          (get id input.administrator_caps) thermal p.available_frequencies p.hertz_per_unit l word
          h in
      record {
        hardware = p.hardware_limits;
        of_target = range;
        ordered = c.ordered;
        below_hardware = c.below_hardware;
        below_administrator = c.below_admin;
        below_thermal =
            subst (λ (t : Option ℕ). Binds t p.hardware_limits.min l.max) same c.below_thermal;
      }

  override_cpu-IsAllowed :
      (id : TargetId) (p : FrequencyPolicy) (thermal : Option ℕ) (manual : Option FrequencyLimits)
      (frequencies next : Frequencies floats)
      → IsRange id p.hardware_limits
      → p.hardware_limits.max ≤ u64_max
      → thermal ≡ get id input.thermal_caps
      → All IsAllowed frequencies
      → override_cpu floats input id p thermal manual frequencies ≡ ok next
      → All IsAllowed next
  unfolding override_cpu
  override_cpu-IsAllowed id p thermal none frequencies next range word same a h =
      subst (All IsAllowed) (ok-injective h) a
  override_cpu-IsAllowed id p thermal (some manual) frequencies next range word same a h =
      let (l, constrained, h₁) =
        bind-ok
          (constrain_frequency_limits manual p.hardware_limits (get id input.administrator_caps)
            thermal p.available_frequencies p.hertz_per_unit)
          _ h in
      subst (All IsAllowed) (ok-injective h₁) (
        All-insert IsAllowed id l frequencies
          (constrained-IsAllowed id manual p l thermal range word same constrained) a)

  pub cpu_overrides-IsAllowed :
      (ts : List (TargetId × CpuTargetPolicy floats)) (frequencies next : Frequencies floats)
      → ((x : TargetId × CpuTargetPolicy floats) → In x ts → In x input.cpu_targets)
      → All (λ x. x.1.frequency.hardware_limits.max ≤ u64_max) ts
      → All IsAllowed frequencies
      → cpu_overrides floats input ts frequencies ≡ ok next
      → All IsAllowed next
  unfolding cpu_overrides cpu_step
  cpu_overrides-IsAllowed [] frequencies next sub words a h =
      subst (All IsAllowed) (ok-injective h) a
  cpu_overrides-IsAllowed ((id, t) ∷ ts) frequencies next sub words a h =
      let (f, first, h₁) = bind-ok (cpu_step floats input id t frequencies) _ h in
      let (thermal, known, h₂) = bind-ok (required_thermal_cap floats input id) _ first in
      cpu_overrides-IsAllowed ts f next (λ x m. sub x (inr m)) words.1
        (override_cpu-IsAllowed id t.frequency thermal (get id input.manual_overrides) frequencies f
          (of_cpu t (sub (id, t) (inl refl)) refl) words.0
          (required_thermal_cap-ok id thermal known).0 a h₂)
        h₁

  constrain_manual-IsAllowed :
      (id : TargetId) (p : FrequencyPolicy) (thermal : Option ℕ)
      (frequencies next : Frequencies floats)
      → IsRange id p.hardware_limits
      → p.hardware_limits.max ≤ u64_max
      → thermal ≡ get id input.thermal_caps
      → All IsAllowed frequencies
      → constrain_manual floats input id p thermal frequencies ≡ ok next
      → All IsAllowed next
  unfolding constrain_manual
  constrain_manual-IsAllowed id p thermal frequencies next range word same a h =
      let (_, _, h₁) = bind-ok (validate p) _ h in
      let requested =
        some_or (get id input.manual_overrides)
          (baseline floats p (get id input.observed_frequencies)) in
      let (l, constrained, h₂) =
        bind-ok
          (constrain_frequency_limits requested p.hardware_limits (get id input.administrator_caps)
            thermal p.available_frequencies p.hertz_per_unit)
          _ h₁ in
      subst (All IsAllowed) (ok-injective h₂) (
        All-insert IsAllowed id l frequencies
          (constrained-IsAllowed id requested p l thermal range word same constrained) a)

  pub manual_step-IsAllowed :
      (id : TargetId) (p : FrequencyPolicy) (frequencies next : Frequencies floats)
      → IsRange id p.hardware_limits
      → p.hardware_limits.max ≤ u64_max
      → All IsAllowed frequencies
      → manual_step floats input id p frequencies ≡ ok next
      → All IsAllowed next
  unfolding manual_step
  manual_step-IsAllowed id p frequencies next range word a h =
      elim (Bool-cases (contains_key id frequencies)) [
        | inl there ↦ subst (All IsAllowed) (ok-injective (sym (if-true _ _ _ there) ∙ h)) a
        | inr new ↦
            let (thermal, known, h₁) =
              bind-ok (required_thermal_cap floats input id) _ (sym (if-false _ _ _ new) ∙ h) in
            elim (Bool-cases (is_left_alone floats input id thermal)) [
              | inl alone ↦ subst (All IsAllowed) (ok-injective (sym (if-true _ _ _ alone) ∙ h₁)) a
              | inr governed ↦
                  constrain_manual-IsAllowed id p thermal frequencies next range word
                    (required_thermal_cap-ok id thermal known).0 a
                    (sym (if-false _ _ _ governed) ∙ h₁)
            ]
      ]
