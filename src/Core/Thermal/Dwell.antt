-- ===== src/Core/Thermal/Dwell.antt =====
-- `ThermalGuard::update` of crates/uperf-core/src/policy.rs: what is pending, and the dwell.
use uperf_linux_rev.Base.Int.{ℤ}
use uperf_linux_rev.Base.{
  ℕ, ◌+◌, ◌-◌, ◌≤◌, ◌<◌, ◌≡◌, refl, ap, ◌∙◌, ◌≢◌, ◌⊎◌, inl, inr, Option, none, some, List, [], ◌∷◌,
  arith, ◌==◌, ==_iff, Bool-cases,
}
use uperf_linux_rev.Core.Units.{ThermalReading}
use uperf_linux_rev.Core.Thermal.{
  ThermalState, critical, degraded, severity, ThermalGuard, ThermalThresholds, classify_temperature,
  candidate_state, accept, update, new,
}
use uperf_linux_rev.Core.Thermal.Safety.{update_cases, IsTrusted, update-trusted}

severity-injective : (a b : ThermalState) → severity a ≡ severity b → a ≡ b
severity-injective a b e = ground arith

classify-ne-degraded : (t : ℤ) (k : ThermalThresholds) → classify_temperature t k ≢ degraded
unfolding classify_temperature
classify-ne-degraded t k e = ground arith

candidate-ne-degraded : (g : ThermalGuard) (t : ℤ) → candidate_state g t ≢ degraded
unfolding candidate_state
candidate-ne-degraded g t e = ground (arith, classify-ne-degraded t g.thresholds)

-- What waits is a state other than the present one, neither critical nor degraded, since a time
-- that has passed.
abbrev pub Waits : ThermalState → ℕ → Option (ThermalState × ℕ) → Type 0
Waits state now none = Unit {0}
Waits state now (some (waiting, since)) =
    (waiting ≢ state) × (waiting ≢ critical) × (waiting ≢ degraded) × (since ≤ now)

accept-Waits :
    (g : ThermalGuard) (now : ℕ) (c : ThermalState) (p : Option (ThermalState × ℕ))
    → g.pending ≡ p
    → c ≢ degraded
    → Waits g.state now p
    → Waits (accept g now c).state now (accept g now c).pending
unfolding accept
accept-Waits g now c none e sound w =
    ground (arith, severity-injective c g.state, severity-injective c critical)
accept-Waits g now c (some (x, since)) e sound w =
    ground (arith, severity-injective c g.state, severity-injective c critical)

Waits-later :
    (s : ThermalState) (now t : ℕ) (p : Option (ThermalState × ℕ))
    → now ≤ t
    → Waits s now p
    → Waits s t p
Waits-later s now t none le w = tt
Waits-later s now t (some (x, since)) le w = (w.0, w.1, w.2, omega (arith, w.3))

update-Waits :
    (g : ThermalGuard) (now : ℕ) (r : ThermalReading)
    → Waits g.state now g.pending
    → Waits (update g now r).state now (update g now r).pending
update-Waits g now r w =
    update_cases (λ k. Waits k.state now k.pending) g now r tt
      (λ t _. accept-Waits g now _ g.pending refl (candidate-ne-degraded g t) w)

-- Readings in the order of their arrival.
unfoldable pub run : ThermalGuard → List (ℕ × ThermalReading) → ThermalGuard
run g [] = g
run g ((now, r) ∷ rest) = run (update g now r) rest

abbrev pub IsChronological : ℕ → List (ℕ × ThermalReading) → Type 0
IsChronological start [] = Unit {0}
IsChronological start ((now, r) ∷ rest) = (start ≤ now) × IsChronological now rest

abbrev pub end_time : ℕ → List (ℕ × ThermalReading) → ℕ
end_time start [] = start
end_time start ((now, r) ∷ rest) = end_time now rest

run-Waits :
    (g : ThermalGuard) (start : ℕ) (readings : List (ℕ × ThermalReading))
    → IsChronological start readings
    → Waits g.state start g.pending
    → Waits (run g readings).state (end_time start readings) (run g readings).pending
unfolding run
run-Waits g start [] c w = w
run-Waits g start ((now, r) ∷ rest) c w =
    run-Waits (update g now r) now rest c.1
      (update-Waits g now r (Waits-later g.state start now g.pending c.0 w))

-- From a new guard and any readings on a clock that does not run backwards, a pending state is
-- never the present one, the critical or the degraded one, and it waits since a time that has
-- passed.
pub run-new-Waits :
    (t : ThermalThresholds) (start : ℕ) (readings : List (ℕ × ThermalReading))
    → IsChronological start readings
    → Waits (run (new t) readings).state (end_time start readings) (run (new t) readings).pending
unfolding new
run-new-Waits t start readings c = run-Waits (new t) start readings c tt

accept-dwells :
    (g : ThermalGuard) (now : ℕ) (c : ThermalState)
    → (accept g now c).state ≢ g.state
    → (accept g now c).state ≢ critical
    → (g.thresholds.dwell_ms ≡ 0)
      ⊎ ((since : ℕ) × (g.pending ≡ some ((accept g now c).state, since))
          × (g.thresholds.dwell_ms ≤ now - since))
accept-dwells g now c = go g.pending refl
  where
    go :
        (p : Option (ThermalState × ℕ))
        → g.pending ≡ p
        → (accept g now c).state ≢ g.state
        → (accept g now c).state ≢ critical
        → (g.thresholds.dwell_ms ≡ 0)
          ⊎ ((since : ℕ) × (g.pending ≡ some ((accept g now c).state, since))
              × (g.thresholds.dwell_ms ≤ now - since))
    go none e changed calm = inl (unfold accept in ground arith)
    go (some (waiting, since)) e changed calm = elim (Bool-cases (g.thresholds.dwell_ms == 0)) [
      | inl z ↦ inl ((==_iff _ _).0 z)
      | inr z ↦ inr (
        since,
        unfold accept in ground (arith, severity-injective waiting c),
        unfold accept in ground (arith, severity-injective waiting c),
      )
    ]

-- A state other than critical and degraded is entered only by a reading that asks for it after the
-- same state has been pending for `dwell_ms`, unless no dwell is configured.
pub update-dwells :
    (g : ThermalGuard) (now : ℕ) (r : ThermalReading)
    → (update g now r).state ≢ g.state
    → (update g now r).state ≢ critical
    → (update g now r).state ≢ degraded
    → (g.thresholds.dwell_ms ≡ 0)
      ⊎ ((since : ℕ) × (g.pending ≡ some ((update g now r).state, since))
          × (g.thresholds.dwell_ms ≤ now - since))
update-dwells g now r =
    update_cases
      (λ k.
        k.state ≢ g.state
        → k.state ≢ critical
        → k.state ≢ degraded
        → (g.thresholds.dwell_ms ≡ 0)
          ⊎ ((since : ℕ) × (g.pending ≡ some (k.state, since))
              × (g.thresholds.dwell_ms ≤ now - since)))
      g now r (λ _ _ sound. absurd (sound refl))
      (λ t _ changed calm _. accept-dwells g now (candidate_state g t) changed calm)

accept-waits :
    (g : ThermalGuard) (now : ℕ) (c : ThermalState)
    → 0 < g.thresholds.dwell_ms
    → g.pending ≡ none
    → c ≢ g.state
    → c ≢ critical
    → accept g now c ≡ record g { pending = some (c, now) }
unfolding accept
accept-waits g now c dwell idle other calm =
    ground (arith, severity-injective c g.state, severity-injective c critical)

accept-ripe :
    (g : ThermalGuard) (now : ℕ) (x c : ThermalState) (since : ℕ)
    → g.pending ≡ some (c, since)
    → x ≡ c
    → g.thresholds.dwell_ms ≤ now - since
    → c ≢ critical
    → (accept g now x).state ≡ c
unfolding accept
accept-ripe g now x c since waiting same ripe calm =
    ground (arith, severity-injective c g.state, severity-injective c critical)

candidate-pending :
    (g : ThermalGuard) (t : ℤ) (p : Option (ThermalState × ℕ))
    → candidate_state (record g { pending = p }) t ≡ candidate_state g t
unfolding candidate_state
candidate-pending g t p = refl

-- With a positive dwell and nothing pending: a state, neither the present one nor critical, that
-- two trusted readings ask for, `dwell_ms` or more apart, is the state after the second. The
-- guard does not stay behind for longer than the dwell and one sample.
pub update-settles :
    (g : ThermalGuard) (now later : ℕ) (first second : ThermalReading) (a b : ℤ) (c : ThermalState)
    → 0 < g.thresholds.dwell_ms
    → now + g.thresholds.dwell_ms ≤ later
    → g.pending ≡ none
    → IsTrusted g now first a
    → IsTrusted g later second b
    → c ≢ g.state
    → c ≢ critical
    → candidate_state g a ≡ c
    → candidate_state g b ≡ c
    → (update (update g now first) later second).state ≡ c
update-settles g now later first second a b c dwell apart idle t u other calm e f =
    let middle = record g { pending = some (c, now) } in
    let step : update g now first ≡ middle =
      update-trusted g now first a t
      ∙ ap (λ (s : ThermalState). accept g now s) e
      ∙ accept-waits g now c dwell idle other calm in
    let trust : IsTrusted middle later second b = record {
      health = u.health;
      past = u.past;
      fresh = u.fresh;
      present = u.present;
    } in
    rw step (
      rw (update-trusted middle later second b trust) (
        accept-ripe middle later (candidate_state middle b) c now refl
          (candidate-pending g b (some (c, now)) ∙ f) (omega arith) calm))
