-- ===== src/Core/Load/Hysteresis.antt =====
-- `HeavyLoadDetector::update` of crates/uperf-core/src/policy.rs.
use uperf_linux_rev.Base.{
  ℕ, ◌-◌, ◌≤◌, ◌↔◌, ◌≡◌, ◌≢◌, refl, subst, true, false, none, some, arith, if◌then◌else◌, some_or,
  ok, ok-injective,
}
use uperf_linux_rev.Core.Float.{Floats}
use uperf_linux_rev.Base.Results.{bind-ok}
use uperf_linux_rev.Core.Load.{
  validate_non_negative_finite, HeavyLoadState, idle, heavy, HeavyLoadDetector, LoadConfig, judge,
  update, next_ema,
}

module _ (floats : Floats) where
  -- What a step does to the detector, in terms of the new average.
  pub record IsStep (d e : HeavyLoadDetector floats) (sample : floats.F) (elapsed now : ℕ)
      (config : LoadConfig floats) : Type 0 where
    pub average : floats.F
    pub averaged : next_ema floats d.ema sample elapsed config.ema_time_constant_ms ≡ ok average
    pub kept : e.ema ≡ some average
    pub enters : d.state ≡ idle → (e.state ≡ heavy) ↔ (floats.ge average config.heavy_enter ≡ true)
    pub stays_idle : d.state ≡ idle → floats.ge average config.heavy_enter ≡ false → e.state ≡ idle
    pub leaves :
        d.state ≡ heavy
        → (e.state ≡ idle) ↔ (
            (floats.le average config.heavy_exit ≡ true)
            × (config.heavy_dwell_ms ≤ now - some_or d.below_exit_since now))
    pub timer :
        d.state ≡ heavy
        → e.state ≡ heavy
        → e.below_exit_since ≡ (
            if floats.le average config.heavy_exit
            then some (some_or d.below_exit_since now)
            else none)
    pub cleared : d.state ≢ e.state → e.below_exit_since ≡ none

  judge-IsStep :
      (s : HeavyLoadState) (d : HeavyLoadDetector floats) (sample : floats.F) (elapsed now : ℕ)
      (average : floats.F) (config : LoadConfig floats)
      → next_ema floats d.ema sample elapsed config.ema_time_constant_ms ≡ ok average
      → d.state ≡ s
      → IsStep d
          (judge floats s (record d { ema = some average }) now average config)
          sample
          elapsed
          now
          config
  unfolding judge
  judge-IsStep idle d sample elapsed now average config averaged e = record {
    average = average;
    averaged = averaged;
    kept = ground arith;
    enters = λ _. (λ h. ground arith, λ h. ground arith);
    stays_idle = λ _ h. ground arith;
    leaves = λ h. absurd (ground arith);
    timer = λ h. absurd (ground arith);
    cleared = λ h. ground arith;
  }
  judge-IsStep heavy d sample elapsed now average config averaged e = record {
    average = average;
    averaged = averaged;
    kept = ground arith;
    enters = λ h. absurd (ground arith);
    stays_idle = λ h. absurd (ground arith);
    leaves = λ _. (λ h. ground arith, λ h. ground arith);
    timer = λ _ h. ground arith;
    cleared = λ h. ground arith;
  }

  -- A sample that succeeds keeps the average that `next_ema` computes from the old one: an idle
  -- detector turns heavy exactly when that average reaches the entry threshold; a heavy one turns
  -- idle exactly when it is at or below the exit threshold and has been for `heavy_dwell_ms`; while
  -- the detector stays heavy the timer keeps its first time at or below the exit, or is cleared
  -- above it; and a change of state clears it.
  pub update-IsStep :
      (d e : HeavyLoadDetector floats) (sample : floats.F) (elapsed now : ℕ)
      (config : LoadConfig floats)
      → update floats d sample elapsed now config ≡ ok e
      → IsStep d e sample elapsed now config
  unfolding update
  update-IsStep d e sample elapsed now config h =
      let (_, _, h₁) = bind-ok (validate_non_negative_finite floats "sample" sample) _ h in
      let (_, _, h₂) =
        bind-ok (validate_non_negative_finite floats "enter" config.heavy_enter) _ h₁ in
      let (_, _, h₃) =
        bind-ok (validate_non_negative_finite floats "exit" config.heavy_exit) _ h₂ in
      let (average, averaged, done) =
        bind-ok (next_ema floats d.ema sample elapsed config.ema_time_constant_ms) _ h₃ in
      subst (λ k. IsStep d k sample elapsed now config) (ok-injective done)
        (judge-IsStep d.state d sample elapsed now average config averaged refl)
