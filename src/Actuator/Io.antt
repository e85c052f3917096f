-- ===== src/Actuator/Io.antt =====
-- Reading and writing one frequency target: `parse_hertz`, `read_limits`, `encode_frequency`,
-- `write_ordered`, `reset_frequency_request`, `wait_for_limits`, `apply_requested_limits`,
-- `restore_frequency_request` and `rollback_frequency_requests` of crates/uperf-
-- actuator/src/lib.rs.
pub mod Frame
pub mod Steps
pub mod Ordered
pub mod Settle
pub mod Timeout
pub mod Applied
pub mod Rollback
pub mod Roundtrip
use uperf_linux_rev.Base.Words.{checked_mul, checked_div}
use uperf_linux_rev.Base.Text.{Text, trim, parse_u64, print_u64}
use uperf_linux_rev.Base.{
  ℕ, zero, suc, ◌+◌, ◌-◌, min, Bool, true, false, not, Option, none, some, List, [], ◌∷◌, ◌++◌, ltb,
  leb, ◌==◌, Result, ok, err, ok_or,
}
use uperf_linux_rev.Core.Units.{FrequencyLimits, same_limits, new_limits}
use uperf_linux_rev.Actuator.Errors.{
  ActuatorError, invalid_readback, invalid_target, transaction, rollback, readback_unsettled,
}
use uperf_linux_rev.Actuator.Target.{FrequencyTarget, validate_limits}
use uperf_linux_rev.Actuator.Machine.{
  Platform, Action, pure, fail, lift, attempt, ◌>>=◌, ◌>>◌, read_string, write_string, read_clock,
  sleep,
}

unfoldable pub parse_hertz : Text → Text → ℕ → Result ActuatorError ℕ
parse_hertz path value hertz_per_unit = elim (parse_u64 (trim value)) [
  | none ↦ err (invalid_readback path value)
  | some raw ↦ ok_or (checked_mul raw hertz_per_unit) (invalid_readback path value)
]

unfoldable pub encode_frequency : FrequencyTarget → ℕ → Result ActuatorError Text
encode_frequency t frequency = elim (checked_div frequency t.hertz_per_unit) [
  | none ↦ err (invalid_target t.id)
  | some value ↦ ok (print_u64 value)
]

abbrev pub or_torn : FrequencyTarget → ℕ → ℕ → Result ActuatorError FrequencyLimits
or_torn t lo hi = elim (new_limits lo hi) [
  | ok l ↦ ok l
  | err e ↦ err (invalid_readback t.min_path [])
]

-- `FREQUENCY_SETTLE_TIMEOUT` and `FREQUENCY_SETTLE_POLL_INTERVAL`, in nanoseconds.
abbrev pub settle_timeout : ℕ
settle_timeout = 50000000

abbrev pub poll_interval : ℕ
poll_interval = 2000000

-- The polls that the timeout leaves time for, and one more to notice that it is over.
abbrev pub settle_polls : ℕ
settle_polls = 26

pub record PreparedFrequencyMutation : Type 0 where
  pub target : FrequencyTarget
  pub before_effective : FrequencyLimits
  pub previous_request : FrequencyLimits
  pub desired_request : FrequencyLimits
  pub needs_write : Bool

module _ {W : Type 0} (os : Platform W) where
  unfoldable pub read_limits : FrequencyTarget → Action W FrequencyLimits
  read_limits t = do
    lo ← read_string os t.min_path
    minimum ← lift (parse_hertz t.min_path lo t.hertz_per_unit)
    hi ← read_string os t.max_path
    maximum ← lift (parse_hertz t.max_path hi t.hertz_per_unit)
    lift (or_torn t minimum maximum)

  -- A write that is skipped where the bound stays.
  abbrev pub write_if : Bool → Text → Text → Action W (Unit {0})
  write_if true path value = write_string os path value
  write_if false path value = pure tt

  unfoldable pub write_ordered :
      FrequencyTarget → FrequencyLimits → FrequencyLimits → Action W (Unit {0})
  write_ordered t current desired = do
    minimum ← lift (encode_frequency t desired.min)
    maximum ← lift (encode_frequency t desired.max)
    elim (ltb desired.max current.min) [
      | true ↦ do
        write_if (not (desired.min == current.min)) t.min_path minimum
        write_if (not (desired.max == current.max)) t.max_path maximum
      | false ↦ do
        write_if (not (desired.max == current.max)) t.max_path maximum
        write_if (not (desired.min == current.min)) t.min_path minimum
    ]

  -- A bound that differs from the hardware's is encoded only then.
  abbrev pub narrow : Bool → FrequencyTarget → Text → ℕ → Action W (Unit {0})
  narrow true t path value = do
    encoded ← lift (encode_frequency t value)
    write_string os path encoded
  narrow false t path value = pure tt

  unfoldable pub reset_frequency_request : FrequencyTarget → FrequencyLimits → Action W (Unit {0})
  reset_frequency_request t desired = do
    hardware_minimum ← lift (encode_frequency t t.hardware_min)
    hardware_maximum ← lift (encode_frequency t t.hardware_max)
    write_string os t.min_path hardware_minimum
    write_string os t.max_path hardware_maximum
    narrow (not (desired.max == t.hardware_max)) t t.max_path desired.max
    narrow (not (desired.min == t.hardware_min)) t t.min_path desired.min

  -- After the deadline the wait fails; before it, it sleeps and goes on with `rest`.
  unfoldable pub poll :
      FrequencyTarget
      → ℕ
      → Action W (Option FrequencyLimits)
      → ℕ
      → Action W (Option FrequencyLimits)
  poll t deadline rest now = elim (leb deadline now) [
    | true ↦ fail (transaction t.id readback_unsettled)
    | false ↦ do sleep os (min poll_interval (deadline - now)); rest
  ]

  unfoldable pub judge_reading :
      FrequencyTarget
      → FrequencyLimits
      → ℕ
      → Action W (Option FrequencyLimits)
      → Result ActuatorError FrequencyLimits
      → Action W (Option FrequencyLimits)
  judge_reading t requested deadline rest (ok actual) = elim (same_limits actual requested) [
    | true ↦ pure (some actual)
    | false ↦ do now ← read_clock os; poll t deadline rest now
  ]
  judge_reading t requested deadline rest (err (invalid_readback path value)) = do
    now ← read_clock os
    poll t deadline rest now
  judge_reading t requested deadline rest (err e) = fail e

  -- The loop of `wait_for_limits`; `none` means that the fuel ran out.
  unfoldable pub wait_loop :
      ℕ → FrequencyTarget → FrequencyLimits → ℕ → Action W (Option FrequencyLimits)
  wait_loop zero t requested deadline = pure none
  wait_loop (suc fuel) t requested deadline = do
    reading ← attempt (read_limits t)
    judge_reading t requested deadline (wait_loop fuel t requested deadline) reading

  abbrev pub settled :
      FrequencyTarget → Option FrequencyLimits → Result ActuatorError FrequencyLimits
  settled t none = err (transaction t.id readback_unsettled)
  settled t (some actual) = ok actual

  unfoldable pub wait_for_limits : FrequencyTarget → FrequencyLimits → Action W FrequencyLimits
  wait_for_limits t requested = do
    start ← read_clock os
    result ← wait_loop settle_polls t requested (start + settle_timeout)
    lift (settled t result)

  unfoldable pub apply_requested_limits :
      FrequencyTarget → FrequencyLimits → FrequencyLimits → Action W FrequencyLimits
  apply_requested_limits t current desired = do
    lift (validate_limits t current)
    lift (validate_limits t desired)
    write_ordered t current desired
    wait_for_limits t desired

  unfoldable pub restore_frequency_request :
      FrequencyTarget → FrequencyLimits → Action W FrequencyLimits
  restore_frequency_request t desired = do
    lift (validate_limits t desired)
    reset_frequency_request t desired
    wait_for_limits t desired

  abbrev pub note_failure {ℓ} : {A : Type ℓ} → Text → Result ActuatorError A → List Text → List Text
  note_failure id (ok a) failures = failures
  note_failure id (err e) failures = failures ++ id ∷ []

  -- The attempted mutations, latest first; the ones that could not be restored.
  unfoldable pub rollback_loop : List PreparedFrequencyMutation → List Text → Action W (List Text)
  rollback_loop [] failures = pure failures
  rollback_loop (p ∷ ps) failures = do
    result ← attempt (restore_frequency_request p.target p.previous_request)
    rollback_loop ps (note_failure p.target.id result failures)

  abbrev pub all_restored : List Text → Result ActuatorError (Unit {0})
  all_restored [] = ok tt
  all_restored (id ∷ ids) = err (rollback (id ∷ ids))

  unfoldable pub rollback_frequency_requests : List PreparedFrequencyMutation → Action W (Unit {0})
  rollback_frequency_requests attempted = do
    failures ← rollback_loop attempted []
    lift (all_restored failures)
