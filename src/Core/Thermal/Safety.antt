-- ===== src/Core/Thermal/Safety.antt =====
-- `ThermalGuard::update` of crates/uperf-core/src/policy.rs: trust in a reading, and when the
-- state changes.
use uperf_linux_rev.Core.Thermal.{
  is_untrusted, settle, ThermalState, severity, degraded, ThermalGuard, candidate_state,
  recovery_threshold, accept, update,
}
use uperf_linux_rev.Base.{
  ℕ, ◌-◌, ◌≤◌, ◌<◌, ◌≡◌, refl, ◌≢◌, ◌⊎◌, inl, inr, none, some, arith, Bool-cases, Option-cases,
}
use uperf_linux_rev.Base.Int.{ℤ, ◌<ℤ◌, sub_i64}
use uperf_linux_rev.Core.Units.{ThermalReading, healthy}

-- A reading that may steer the guard: healthy, not from the future, not stale, with its
-- temperature.
pub record IsTrusted (g : ThermalGuard) (now : ℕ) (r : ThermalReading) (temperature : ℤ)
    : Type 0 where
  pub health : r.health ≡ healthy
  pub past : r.sampled_at ≤ now
  pub fresh : now - r.sampled_at ≤ g.thresholds.stale_after_ms
  pub present : r.temperature ≡ some temperature

-- A reading that is unhealthy, from the future, too old or without a temperature degrades the
-- guard and drops what was pending, whatever the state was.
pub update-fails_closed :
    (g : ThermalGuard) (now : ℕ) (r : ThermalReading)
    → ((r.health ≢ healthy)
        ⊎ (now < r.sampled_at)
        ⊎ (g.thresholds.stale_after_ms < now - r.sampled_at)
        ⊎ (r.temperature ≡ none))
    → ((update g now r).state ≡ degraded) × ((update g now r).pending ≡ none)
unfolding update
update-fails_closed g now r h = ground arith

pub update-trusted :
    (g : ThermalGuard) (now : ℕ) (r : ThermalReading) (temperature : ℤ)
    → IsTrusted g now r temperature
    → update g now r ≡ accept g now (candidate_state g temperature)
unfolding update
update-trusted g now r temperature t = ground arith

-- The states between which hysteresis acts.
abbrev pub Cooled : ThermalGuard → ℤ → Type 0
Cooled g temperature =
    (threshold : ℤ) × (recovery_threshold g.state g.thresholds ≡ some threshold)
    × (temperature <ℤ sub_i64 threshold g.thresholds.hysteresis)

candidate-Cooled :
    (g : ThermalGuard) (temperature : ℤ)
    → severity (candidate_state g temperature) < severity g.state
    → g.state ≢ degraded
    → Cooled g temperature
candidate-Cooled g temperature below sound = go g.state g refl below sound
  where
    go :
        (s : ThermalState) (k : ThermalGuard)
        → k.state ≡ s
        → severity (candidate_state k temperature) < severity k.state
        → k.state ≢ degraded
        → Cooled k temperature
    go ThermalState.normal k e below sound = absurd (unfold candidate_state in ground arith)
    go ThermalState.warning k e below sound =
        (k.thresholds.warning, ground arith, unfold candidate_state in ground arith)
    go ThermalState.throttled k e below sound =
        (k.thresholds.throttled, ground arith, unfold candidate_state in ground arith)
    go ThermalState.critical k e below sound =
        (k.thresholds.critical, ground arith, unfold candidate_state in ground arith)
    go ThermalState.degraded k e below sound = absurd (sound e)

-- `update` either degrades the guard or accepts the candidate of a trusted reading.
pub update_cases {ℓ} :
    (P : ThermalGuard → Type ℓ) (g : ThermalGuard) (now : ℕ) (r : ThermalReading)
    → P (settle g degraded)
    → ((t : ℤ) → IsTrusted g now r t → P (accept g now (candidate_state g t)))
    → P (update g now r)
unfolding update
update_cases P g now r failed trusted = elim (Bool-cases (is_untrusted g now r)) [
  | inl bad ↦ rw (bad, update) failed
  | inr good ↦ elim (Option-cases r.temperature) [
    | inl e ↦ rw (good, e, update) failed
    | inr (t, e) ↦
        let proof = trusted t (record {
          health = ground (arith, good);
          past = ground (arith, good);
          fresh = ground (arith, good);
          present = e;
        }) in
        rw (good, e, update) proof
  ]
]

accept_state :
    (g : ThermalGuard) (now : ℕ) (c : ThermalState)
    → ((accept g now c).state ≡ c) ⊎ ((accept g now c).state ≡ g.state)
unfolding accept
accept_state g now c = ground arith

not_above : (s : ThermalState) → ¬ (4 < severity s)
not_above s h = ground arith

-- A guard whose state is not the degraded one leaves it for a milder one only on a trusted reading
-- that has fallen below that state's own threshold by more than the hysteresis.
pub update-recovers :
    (g : ThermalGuard) (now : ℕ) (r : ThermalReading)
    → g.state ≢ degraded
    → severity (update g now r).state < severity g.state
    → (temperature : ℤ) × IsTrusted g now r temperature × Cooled g temperature
update-recovers g now r sound =
    update_cases
      (λ k.
        severity k.state < severity g.state
        → (temperature : ℤ) × IsTrusted g now r temperature × Cooled g temperature)
      g now r (λ below. absurd (not_above g.state (omega arith)))
      (λ t trust below. (
        t,
        trust,
        candidate-Cooled g t (ground (arith, accept_state g now (candidate_state g t))) sound,
      ))
