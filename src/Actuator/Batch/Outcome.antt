-- ===== src/Actuator/Batch/Outcome.antt =====
-- The ways in which `apply_batch` of crates/uperf-actuator/src/lib.rs can end.
use uperf_linux_rev.Base.{◌≡◌, some, Result, ok, err}
use uperf_linux_rev.Actuator.Batch.{Applied, TargetRegistry}
use uperf_linux_rev.Actuator.Batch.Durable.{IsCovered, IsSynced, durable}
use uperf_linux_rev.Actuator.Batch.Entries.{IsJournalFor}
use uperf_linux_rev.Actuator.Batch.Prepare.{Quiet}
use uperf_linux_rev.Actuator.Errors.{ActuatorError, Reason, degraded}
use uperf_linux_rev.Actuator.Machine.{Machine, read_only_degraded}

-- The end of a call. `before` is the machine before it, with the entries in order and all its
-- writes covered.
pub data Outcome {W : Type 0} (registry : TargetRegistry) (before : Machine W)
    : Result ActuatorError Applied × Machine W → Type 0 where
  -- Refused, or nothing to do: only the world moved.
  untouched :
      (r : Result ActuatorError Applied) (n : Machine W)
      → Quiet before n
      → Outcome registry before (r, n)
  -- Done: the disk holds the new journal.
  committed :
      (a : Applied) (n : Machine W)
      → n.state.mode ≡ before.state.mode
      → n.state.recovery_required ≡ before.state.recovery_required
      → IsJournalFor registry n.state.journal
      → durable n.trace ≡ some n.state.journal
      → IsCovered n.trace
      → Outcome registry before (ok a, n)
  -- Undone: the state is the one before, and the disk agrees with it.
  reverted :
      (e : ActuatorError) (n : Machine W)
      → n.state ≡ before.state
      → IsSynced n.trace before.state.journal
      → IsCovered n.trace
      → Outcome registry before (err e, n)
  -- Given up: read only from now on.
  gave_up :
      (reason : Reason) (n : Machine W)
      → n.state.mode ≡ read_only_degraded reason
      → n.state.recovery_required ≡ before.state.recovery_required
      → IsJournalFor registry n.state.journal
      → IsCovered n.trace
      → Outcome registry before (err (degraded reason), n)
