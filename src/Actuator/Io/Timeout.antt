-- ===== src/Actuator/Io/Timeout.antt =====
-- The timeout of `wait_for_limits` in crates/uperf-actuator/src/lib.rs, under the laws of a
-- monotonic clock and of a sleep.
use uperf_linux_rev.Actuator.Errors.{readback_unsettled}
use uperf_linux_rev.Base.Text.{Text, text_key}
use uperf_linux_rev.Base.{
  ℕ, zero, suc, ◌+◌, ◌-◌, ◌*◌, ◌≤◌, ◌<◌, min, ◌≡◌, sym, ◌≢◌, Option, none, some, arith, leb, Result,
  ok, err, ok-injective, ok-ne-err, elim-cases,
}
use uperf_linux_rev.Actuator.Errors.{ActuatorError, invalid_readback, transaction}
use uperf_linux_rev.Actuator.Io.{
  judge_reading, or_torn, parse_hertz, poll, poll_interval, read_limits, settle_polls,
  settle_timeout, wait_loop,
}
use uperf_linux_rev.Actuator.Machine.{
  Action, Machine, Platform, fail, lift, pure, read_clock, read_string, sleep, ◌>>=◌, ◌>>◌,
}
use uperf_linux_rev.Actuator.Machine.Rules.{IsPreorder, Respects, Respects-bind, Respects-lift}
use uperf_linux_rev.Actuator.Target.{FrequencyTarget}
use uperf_linux_rev.Core.Units.{FrequencyLimits, same_limits}

-- What `Instant::now` and `thread::sleep` promise: the clock shows a time that no call sets back,
-- and a sleep lasts at least as long as it was asked to.
pub record IsClock {W : Type 0} (os : Platform W) (time : W → ℕ) : Type 0 where
  pub shows : (w : W) → (os.now w).0 ≡ time w
  pub now_keeps : (w : W) → time w ≤ time (os.now w).1
  pub read_keeps : (path : Text) (w : W) → time w ≤ time (os.read_string path w).1
  pub sleeps : (ns : ℕ) (w : W) → time w + ns ≤ time (os.sleep ns w)

module _ {W : Type 0} (os : Platform W) (time : W → ℕ) (clock : IsClock os time) where
  Later : Machine W → Machine W → Type 0
  Later m n = time m.world ≤ time n.world

  later : IsPreorder Later
  unfolding Later
  later = record { self = λ m. omega arith; chain = λ a b c h k. omega (arith, h, k) }

  read_string-Later : (path : Text) → Respects Later (read_string os path)
  unfolding Later read_string
  read_string-Later path = record { at = λ m. clock.read_keeps path m.world }

  given :
      {A B : Type 0} (r : Result ActuatorError A) (f : A → Action W B)
      → ((x : A) → Respects Later (f x))
      → Respects Later (lift r >>= f)
  given r f h = Respects-bind later (lift r) f (Respects-lift later r) h

  read_limits-Later : (t : FrequencyTarget) → Respects Later (read_limits os t)
  unfolding read_limits
  read_limits-Later t = Respects-bind later _ _ (read_string-Later t.min_path) λ lo.
      given (parse_hertz t.min_path lo t.hertz_per_unit) _ λ minimum.
        Respects-bind later _ _ (read_string-Later t.max_path) λ hi.
          given (parse_hertz t.max_path hi t.hertz_per_unit) _
            λ maximum. Respects-lift later (or_torn t minimum maximum)

  still :
      (m n : Machine W) (deadline fuel : ℕ)
      → deadline + poll_interval ≤ time m.world + suc fuel * poll_interval
      → Later m n
      → deadline ≤ time n.world + fuel * poll_interval
  unfolding Later
  still m n deadline fuel enough kept = omega (arith, enough, kept)

  some-ne-none : {A : Type 0} (a : A) → some a ≢ none
  some-ne-none a h = cc

  -- The loop has not run out of fuel.
  abbrev pub IsEnough : Result ActuatorError (Option FrequencyLimits) → Type 0
  IsEnough r = r ≢ ok none

  module _ (t : FrequencyTarget) (requested : FrequencyLimits) (deadline left : ℕ)
      (rest : Action W (Option FrequencyLimits))
      (rest_enough : (m : Machine W)
        → 1 ≤ left
        → deadline + poll_interval ≤ time m.world + left * poll_interval
        → IsEnough (rest m).0) where
    slept :
        (now : ℕ) (m : Machine W)
        → now ≤ time m.world
        → now < deadline
        → deadline ≤ now + left * poll_interval
        → IsEnough ((sleep os (min poll_interval (deadline - now)) >> rest) m).0
    unfolding sleep
    slept now m h k enough =
        let nap = min poll_interval (deadline - now) in
        let later_time = clock.sleeps nap m.world in
        rest_enough _ (omega (arith, k, enough)) (omega (arith, h, k, enough, later_time))

    poll-IsEnough :
        (now : ℕ) (m : Machine W)
        → now ≤ time m.world
        → deadline ≤ now + left * poll_interval
        → IsEnough (poll os t deadline rest now m).0
    unfolding poll
    poll-IsEnough now m h enough =
        elim-cases (λ (a : Action W (Option FrequencyLimits)). IsEnough (a m).0) (leb deadline now)
          (fail (transaction t.id readback_unsettled))
          (sleep os (min poll_interval (deadline - now)) >> rest) (λ over e. ok-ne-err (sym e))
          (λ early. slept now m h (ground (arith, early)) enough)

    clock-IsEnough :
        (m : Machine W)
        → deadline ≤ time m.world + left * poll_interval
        → IsEnough ((read_clock os >>= λ now. poll os t deadline rest now) m).0
    unfolding read_clock
    clock-IsEnough m enough =
        let shown = clock.shows m.world in
        let kept = clock.now_keeps m.world in
        poll-IsEnough (os.now m.world).0 _ (omega (arith, shown, kept))
          (omega (arith, shown, enough))

    judge-IsEnough :
        (r : Result ActuatorError FrequencyLimits) (m : Machine W)
        → deadline ≤ time m.world + left * poll_interval
        → IsEnough (judge_reading os t requested deadline rest r m).0
    unfolding judge_reading
    judge-IsEnough (ok actual) m enough =
        elim-cases (λ (a : Action W (Option FrequencyLimits)). IsEnough (a m).0)
          (same_limits actual requested) (pure (some actual))
          (read_clock os >>= λ now. poll os t deadline rest now)
          (λ same e. some-ne-none actual (ok-injective e)) (λ other. clock-IsEnough m enough)
    judge-IsEnough (err (invalid_readback path value)) m enough = clock-IsEnough m enough
    judge-IsEnough (err e) m enough = λ h. ok-ne-err (sym h)

  wait_loop-IsEnough :
      (t : FrequencyTarget) (requested : FrequencyLimits) (deadline fuel : ℕ) (m : Machine W)
      → 1 ≤ fuel
      → deadline + poll_interval ≤ time m.world + fuel * poll_interval
      → IsEnough (wait_loop os fuel t requested deadline m).0
  unfolding wait_loop
  wait_loop-IsEnough t requested deadline zero m h enough = absurd (omega (arith, h))
  wait_loop-IsEnough t requested deadline (suc fuel) m h enough =
      judge-IsEnough t requested deadline fuel (wait_loop os fuel t requested deadline)
        (wait_loop-IsEnough t requested deadline fuel) (read_limits os t m).0 (read_limits os t m).1
        (still m (read_limits os t m).1 deadline fuel enough ((read_limits-Later t).at m))

  -- Under a monotonic clock the wait ends by itself: from any moment, the polls that the timeout
  -- leaves time for and one more reach a result, so that the fuel of the loop never runs out.
  pub wait_loop-ends :
      (t : FrequencyTarget) (requested : FrequencyLimits) (m : Machine W) (start : ℕ)
      → start ≤ time m.world
      → (wait_loop os settle_polls t requested (start + settle_timeout) m).0 ≢ ok none
  wait_loop-ends t requested m start h =
      wait_loop-IsEnough t requested (start + settle_timeout) settle_polls m (omega arith)
        (omega (arith, h))
