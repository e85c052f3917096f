-- ===== src/Actuator/Io/Frame.antt =====
-- What the frequency reads and writes of crates/uperf-actuator/src/lib.rs leave alone: one lemma
-- for each function, over a relation between the machine before and after.
use uperf_linux_rev.Actuator.Io.{
  poll_interval, all_restored, sleep, read_clock, write_string, read_string, same_limits, lift,
  PreparedFrequencyMutation, parse_hertz, encode_frequency, or_torn, read_limits, write_if,
  write_ordered, narrow, reset_frequency_request, poll, judge_reading, wait_loop, settled,
  wait_for_limits, apply_requested_limits, restore_frequency_request, note_failure, rollback_loop,
  rollback_frequency_requests, settle_polls, settle_timeout,
}
use uperf_linux_rev.Base.Text.{Text}
use uperf_linux_rev.Base.{
  ℕ, zero, suc, ◌+◌, ◌-◌, min, Bool, true, false, not, Option, none, some, List, [], ◌∷◌, ltb, leb,
  ◌==◌, Result, ok, err, All,
}
use uperf_linux_rev.Core.Units.{FrequencyLimits}
use uperf_linux_rev.Actuator.Errors.{ActuatorError, invalid_readback}
use uperf_linux_rev.Actuator.Target.{FrequencyTarget, validate_limits}
use uperf_linux_rev.Actuator.Machine.{Platform, Machine, Action, ◌>>=◌}
use uperf_linux_rev.Actuator.Machine.Rules.{
  Respects, IsPreorder, Respects-pure, Respects-fail, Respects-lift, Respects-attempt,
  Respects-bind,
}

-- What the device actions need of a relation: the platform calls respect it, a write only to an
-- allowed path.
pub record IsFrame {W : Type 0} (os : Platform W) (R : Machine W → Machine W → Type 0)
    (Allowed : Text → Type 0) : Type 0 where
  pub order : IsPreorder R
  pub reading : (path : Text) → Respects R (read_string os path)
  pub writing : (path value : Text) → Allowed path → Respects R (write_string os path value)
  pub clock : Respects R (read_clock os)
  pub napping : (ns : ℕ) → Respects R (sleep os ns)

-- The two files of a target.
abbrev pub Reaches : (Text → Type 0) → FrequencyTarget → Type 0
Reaches Allowed t = Allowed t.min_path × Allowed t.max_path

module _ {W : Type 0} {os : Platform W} {R : Machine W → Machine W → Type 0}
    {Allowed : Text → Type 0} (frame : IsFrame os R Allowed) where
  after :
      {A B : Type 0} (a : Action W A) (f : A → Action W B)
      → Respects R a
      → ((x : A) → Respects R (f x))
      → Respects R (a >>= f)
  after = Respects-bind frame.order

  given :
      {A B : Type 0} (r : Result ActuatorError A) (f : A → Action W B)
      → ((x : A) → Respects R (f x))
      → Respects R (lift r >>= f)
  given r f h = after (lift r) f (Respects-lift frame.order r) h

  either_way :
      {A : Type 0} (b : Bool) (x y : Action W A)
      → Respects R x
      → Respects R y
      → Respects R (elim b [ true ↦ x | false ↦ y ])
  either_way true x y h k = h
  either_way false x y h k = k

  pub read_limits-Respects : (t : FrequencyTarget) → Respects R (read_limits os t)
  unfolding read_limits
  read_limits-Respects t = after _ _ (frame.reading t.min_path) λ lo.
      given (parse_hertz t.min_path lo t.hertz_per_unit) _ λ minimum.
        after _ _ (frame.reading t.max_path) λ hi.
          given (parse_hertz t.max_path hi t.hertz_per_unit) _
            λ maximum. Respects-lift frame.order (or_torn t minimum maximum)

  write_if-Respects :
      (b : Bool) (path value : Text) → Allowed path → Respects R (write_if os b path value)
  write_if-Respects true path value h = frame.writing path value h
  write_if-Respects false path value h = Respects-pure frame.order tt

  pub write_ordered-Respects :
      (t : FrequencyTarget) (current desired : FrequencyLimits)
      → Reaches Allowed t
      → Respects R (write_ordered os t current desired)
  unfolding write_ordered
  write_ordered-Respects t current desired (lo, hi) =
      let moves_min = not (desired.min == current.min) in
      let moves_max = not (desired.max == current.max) in
      given (encode_frequency t desired.min) _ λ minimum.
        given (encode_frequency t desired.max) _ λ maximum.
          either_way (ltb desired.max current.min) _ _
            (after _ _ (write_if-Respects moves_min t.min_path minimum lo)
              λ _. write_if-Respects moves_max t.max_path maximum hi)
            (after _ _ (write_if-Respects moves_max t.max_path maximum hi)
              λ _. write_if-Respects moves_min t.min_path minimum lo)

  narrow-Respects :
      (b : Bool) (t : FrequencyTarget) (path : Text) (value : ℕ)
      → Allowed path
      → Respects R (narrow os b t path value)
  narrow-Respects true t path value h =
      given (encode_frequency t value) _ λ encoded. frame.writing path encoded h
  narrow-Respects false t path value h = Respects-pure frame.order tt

  pub reset-Respects :
      (t : FrequencyTarget) (desired : FrequencyLimits)
      → Reaches Allowed t
      → Respects R (reset_frequency_request os t desired)
  unfolding reset_frequency_request
  reset-Respects t desired (lo, hi) = given (encode_frequency t t.hardware_min) _ λ minimum.
      given (encode_frequency t t.hardware_max) _ λ maximum.
        after _ _ (frame.writing t.min_path minimum lo) λ _.
          after _ _ (frame.writing t.max_path maximum hi) λ _.
            after _ _
              (narrow-Respects (not (desired.max == t.hardware_max)) t t.max_path desired.max hi)
              λ _. narrow-Respects (not (desired.min == t.hardware_min)) t t.min_path desired.min lo

  module _ (t : FrequencyTarget) (requested : FrequencyLimits) (deadline : ℕ)
      (rest : Action W (Option FrequencyLimits)) (goes_on : Respects R rest) where
    poll-Respects : (now : ℕ) → Respects R (poll os t deadline rest now)
    unfolding poll
    poll-Respects now =
        either_way (leb deadline now) _ _ (Respects-fail frame.order _)
          (after _ _ (frame.napping (min poll_interval (deadline - now))) λ _. goes_on)

    judge-Respects :
        (r : Result ActuatorError FrequencyLimits)
        → Respects R (judge_reading os t requested deadline rest r)
    unfolding judge_reading
    judge-Respects (ok actual) =
        either_way (same_limits actual requested) _ _ (Respects-pure frame.order (some actual))
          (after _ _ frame.clock poll-Respects)
    judge-Respects (err (invalid_readback path value)) = after _ _ frame.clock poll-Respects
    judge-Respects (err e) = Respects-fail frame.order e

  wait_loop-Respects :
      (fuel : ℕ) (t : FrequencyTarget) (requested : FrequencyLimits) (deadline : ℕ)
      → Respects R (wait_loop os fuel t requested deadline)
  unfolding wait_loop
  wait_loop-Respects zero t requested deadline = Respects-pure frame.order none
  wait_loop-Respects (suc fuel) t requested deadline =
      after _ _ (Respects-attempt frame.order (read_limits os t) (read_limits-Respects t)) (
        judge-Respects t requested deadline (wait_loop os fuel t requested deadline)
          (wait_loop-Respects fuel t requested deadline))

  pub wait_for_limits-Respects :
      (t : FrequencyTarget) (requested : FrequencyLimits)
      → Respects R (wait_for_limits os t requested)
  unfolding wait_for_limits
  wait_for_limits-Respects t requested = after _ _ frame.clock λ start.
      after _ _ (wait_loop-Respects settle_polls t requested (start + settle_timeout))
        λ r. Respects-lift frame.order (settled os t r)

  pub apply_requested-Respects :
      (t : FrequencyTarget) (current desired : FrequencyLimits)
      → Reaches Allowed t
      → Respects R (apply_requested_limits os t current desired)
  unfolding apply_requested_limits
  apply_requested-Respects t current desired h = given (validate_limits t current) _ λ _.
      given (validate_limits t desired) _ λ _.
        after _ _ (write_ordered-Respects t current desired h)
          λ _. wait_for_limits-Respects t desired

  pub restore-Respects :
      (t : FrequencyTarget) (desired : FrequencyLimits)
      → Reaches Allowed t
      → Respects R (restore_frequency_request os t desired)
  unfolding restore_frequency_request
  restore-Respects t desired h =
      given (validate_limits t desired) _
        λ _. after _ _ (reset-Respects t desired h) λ _. wait_for_limits-Respects t desired

  pub rollback_loop-Respects :
      (ps : List PreparedFrequencyMutation) (failures : List Text)
      → All (λ p. Reaches Allowed p.target) ps
      → Respects R (rollback_loop os ps failures)
  unfolding rollback_loop
  rollback_loop-Respects [] failures h = Respects-pure frame.order failures
  rollback_loop-Respects (p ∷ ps) failures (h, hs) =
      after _ _ (Respects-attempt frame.order _ (restore-Respects p.target p.previous_request h))
        λ r. rollback_loop-Respects ps (note_failure os p.target.id r failures) hs

  pub rollback-Respects :
      (ps : List PreparedFrequencyMutation)
      → All (λ p. Reaches Allowed p.target) ps
      → Respects R (rollback_frequency_requests os ps)
  unfolding rollback_frequency_requests
  rollback-Respects ps h =
      after _ _ (rollback_loop-Respects ps [] h)
        λ failures. Respects-lift frame.order (all_restored os failures)
