-- ===== src/Actuator/Errors.antt =====
-- `PlatformError` of crates/uperf-platform/src/lib.rs and `ActuatorError` of
-- crates/uperf-actuator/src/lib.rs. Of a message the model keeps what it is about, and which of the
-- code's messages it is, and not the text.
use uperf_linux_rev.Base.Text.{Text}
use uperf_linux_rev.Base.{ℕ, List}
use uperf_linux_rev.Actuator.Values.{ProcessIdentity}

pub data PlatformError : Type 0 where
  io : Text → PlatformError
  invalid_data : Text → PlatformError
  access_denied : Text → PlatformError
  unsupported : PlatformError
  disappeared : Text → PlatformError

-- Which message an error carries.
pub data Reason : Type 0 where
  journal_unreadable journal_identity : Reason
  cannot_persist_before cannot_persist_after rollback_failed journal_update_failed : Reason
  cannot_persist_intent cannot_persist_operation restore_failed : Reason
  target_missing constrained_claim paths_changed identity_changed : Reason
  cannot_discard recovery_failed cannot_remove backend_missing : Reason
  startup_recovery : Reason
  unowned_range readback_unsettled : Reason
  write_failed : Reason

pub data ActuatorError : Type 0 where
  invalid_target : Text → ActuatorError
  duplicate_target : Text → ActuatorError
  unknown_target : Text → ActuatorError
  ownership_required : Text → ActuatorError
  duplicate_request : Text → ActuatorError
  invalid_limits : Text → ℕ → ℕ → ActuatorError
  invalid_scalar_value : Text → ActuatorError
  invalid_readback : Text → Text → ActuatorError
  scalar_ownership_lost : Text → ActuatorError
  platform : PlatformError → ActuatorError
  invalid_journal : ActuatorError
  degraded : Reason → ActuatorError
  recovery_required : ActuatorError
  transaction : Text → Reason → ActuatorError
  rollback : List Text → ActuatorError
  task_backend_unavailable : ActuatorError
  systemd_backend_unavailable : ActuatorError
  process_identity_changed : ProcessIdentity → ActuatorError
  unit_instance_changed : Text → ActuatorError
  lock_poisoned : ActuatorError
