-- ===== src/Actuator/Batch/Told.antt =====
-- What the end of `apply_batch` in crates/uperf-actuator/src/lib.rs tells about the files.
use uperf_linux_rev.Base.Text.{Text, text_key}
use uperf_linux_rev.Base.{◌≡◌, In, ◌⊎◌, List, Result, ok, err, All}
use uperf_linux_rev.Actuator.Batch.{FrequencyRequest, TargetRegistry}
use uperf_linux_rev.Actuator.Batch.Claim.{IsPrevious}
use uperf_linux_rev.Actuator.Batch.Files.{IsReady}
use uperf_linux_rev.Actuator.Errors.{ActuatorError, Reason}
use uperf_linux_rev.Actuator.Io.{PreparedFrequencyMutation}
use uperf_linux_rev.Actuator.Io.Rollback.{AreGivenBack, IsFileOfAny}
use uperf_linux_rev.Actuator.Io.Steps.{Anywhere, HasShown, Nowhere, Steps, Steps-widen}
use uperf_linux_rev.Actuator.Machine.{Machine, Platform, read_only_degraded}

abbrev pub IsDegraded : {W : Type 0} → Machine W → Type 0
IsDegraded m = (reason : Reason) × (m.state.mode ≡ read_only_degraded reason)

module _ {W : Type 0} (os : Platform W) where
  -- The mutation for a request was attempted, or there was nothing to write: the journal had its
  -- range as the one last asked for, or the files showed it already.
  abbrev pub IsAnswered :
      TargetRegistry → List PreparedFrequencyMutation → Machine W → FrequencyRequest → Type 0
  IsAnswered registry attempted before r =
      (p : PreparedFrequencyMutation) × IsReady os registry before r p
      × (In p attempted
          ⊎ ((p.desired_request ≡ p.previous_request) ⊎ (p.desired_request ≡ p.before_effective)))

  -- The call wrote files of the attempted targets only, each of these then showed the range that it
  -- was to get, and every request was answered.
  pub record AreSettled (registry : TargetRegistry) (requests : List FrequencyRequest)
      (before n : Machine W) : Type 0 where
    pub attempted : List PreparedFrequencyMutation
    pub path : Steps os (IsFileOfAny attempted) before n
    pub shown :
        All (λ p. HasShown os Anywhere Anywhere p.target p.desired_request before n) attempted
    pub answered : All (IsAnswered registry attempted before) requests

  -- The call wrote files of the attempted targets only, and each of these was given back: its files
  -- showed the range that the journal had for it before the call, and later only files of targets
  -- that were given back after it were written.
  pub record AreUndone (before n : Machine W) : Type 0 where
    pub attempted : List PreparedFrequencyMutation
    pub path : Steps os (IsFileOfAny attempted) before n
    pub previous : All (IsPrevious before.state.journal) attempted
    pub back : AreGivenBack os attempted before n

  -- What the end of a batch tells about the files.
  abbrev pub Tells :
      {A : Type 0}
      → TargetRegistry
      → List FrequencyRequest
      → Machine W
      → Result ActuatorError A × Machine W
      → Type 0
  Tells registry requests before (ok a, n) = AreSettled registry requests before n
  Tells registry requests before (err e, n) = IsDegraded n ⊎ AreUndone before n

  pub anywhere : {P : Text → Type 0} (m n : Machine W) → Steps os P m n → Steps os Anywhere m n
  anywhere m n h = Steps-widen os (λ path p. tt) m n h

  pub nowhere : {P : Text → Type 0} (m n : Machine W) → Steps os Nowhere m n → Steps os P m n
  nowhere m n h = Steps-widen os (λ path never. absurd never) m n h
