-- ===== src/Actuator/Batch/Undoing.antt =====
-- The files in the two ways in which `apply_batch` of crates/uperf-actuator/src/lib.rs takes its
-- writes back.
use uperf_linux_rev.Base.Text.{Text, text_key}
use uperf_linux_rev.Base.{refl, inl, inr, List, Result, ok, err, All, elim-cases}
use uperf_linux_rev.Actuator.Batch.{
  Applied, FrequencyRequest, TargetRegistry, persist_or_remove, undo_batch, undo_unstored,
}
use uperf_linux_rev.Actuator.Batch.Claim.{IsPrevious}
use uperf_linux_rev.Actuator.Errors.{
  ActuatorError, Reason, cannot_persist_after, cannot_persist_operation, journal_update_failed,
  rollback_failed, transaction, write_failed,
}
use uperf_linux_rev.Actuator.Io.{PreparedFrequencyMutation, rollback_frequency_requests}
use uperf_linux_rev.Actuator.Io.Frame.{rollback-Respects}
use uperf_linux_rev.Actuator.Io.Rollback.{
  AreGivenBack, AreGivenBack-earlier, AreGivenBack-later, IsFileOfAny, own_files,
  rollback-AreGivenBack,
}
use uperf_linux_rev.Actuator.Io.Steps.{
  EndsAt, Nowhere, Steps, Steps-chain, Steps-frame, ends_badly, ends_well, moves, removes, start,
  stores,
}
use uperf_linux_rev.Actuator.Journal.{Journal, is_empty}
use uperf_linux_rev.Actuator.Machine.{
  Action, Machine, Platform, attempt, degrade, fail, persist_journal, pure, remove_durable,
  set_journal, ◌>>=◌, ◌>>◌,
}
use uperf_linux_rev.Actuator.Batch.Told.{AreUndone, Tells, anywhere, nowhere}

module _ {W : Type 0} (os : Platform W) where
  abbrev verdict : Result ActuatorError (Unit {0}) → Action W (Unit {0})
  verdict r = elim r [ ok _ ↦ pure tt | err e ↦ degrade cannot_persist_operation ]

  -- What follows the update of the journal.
  abbrev conclude : Action W Applied → Result ActuatorError (Unit {0}) → Action W Applied
  conclude finish r = elim r [ err e ↦ degrade journal_update_failed | ok _ ↦ finish ]

  persist_or_remove-Steps : (m : Machine W) → Steps os Nowhere m (persist_or_remove os m).1
  unfolding persist_or_remove degrade
  persist_or_remove-Steps m =
      elim-cases (λ (a : Action W (Unit {0})). Steps os Nowhere m (verdict (a m).0 (a m).1).1)
        (is_empty m.state.journal) (remove_durable os) (persist_journal os m.state.journal)
        (λ empty. after (remove_durable os m).0 _ (removes m start))
        (λ full. after (persist_journal os m.state.journal m).0 _ (stores m.state.journal m start))
    where
      after :
          (r : Result ActuatorError (Unit {0})) (n : Machine W)
          → Steps os Nowhere m n
          → Steps os Nowhere m (verdict r n).1
      after (ok u) n h = h
      after (err e) n h = moves _ n h

  module _ (registry : TargetRegistry) (requests : List FrequencyRequest) (before : Machine W)
      (journal : Journal) (attempted : List PreparedFrequencyMutation)
      (previous : All (IsPrevious before.state.journal) attempted) where
    abbrev Ends : Result ActuatorError Applied × Machine W → Type 0
    Ends out = Tells os registry requests before out

    degrade-Ends : (reason : Reason) (n : Machine W) → Ends (degrade {A = Applied} reason n)
    unfolding degrade
    degrade-Ends reason n = inl (reason, refl)

    abbrev restore_journal : Action W Applied → Result ActuatorError (Unit {0}) → Action W Applied
    restore_journal finish r = elim r [
      | err e ↦ degrade rollback_failed
      | ok _ ↦ do
        set_journal journal
        result ← attempt (persist_or_remove os)
        conclude finish result
    ]

    module _ (finish : Action W Applied)
        (finished : (n : Machine W) → AreUndone os before n → Ends (finish n)) where
      concluded :
          (r : Result ActuatorError (Unit {0})) (n : Machine W)
          → AreUndone os before n
          → Ends (conclude finish r n)
      concluded (err e) n h = degrade-Ends journal_update_failed n
      concluded (ok u) n h = finished n h

      restored :
          (k : Machine W) (out : Result ActuatorError (Unit {0}) × Machine W)
          → Steps os (IsFileOfAny attempted) before k
          → Steps os (IsFileOfAny attempted) k out.1
          → EndsAt (λ u n. AreGivenBack os attempted k n) out
          → Ends (restore_journal finish out.0 out.1)
      restored k _ h g (ends_badly e n) = degrade-Ends rollback_failed n
      restored k _ h g (ends_well u n back) =
          let set = record n { state = record n.state { journal = journal } } in
          let tail = Steps-chain os n set _ (moves _ n start) (persist_or_remove-Steps set) in
          concluded (persist_or_remove os set).0 _ (record {
            attempted = attempted;
            path = Steps-chain os before n _ (Steps-chain os before k n h g) (nowhere os n _ tail);
            previous = previous;
            back =
                AreGivenBack-later os attempted before n _
                  (AreGivenBack-earlier os attempted before k n (anywhere os before k h) back) tail;
          })

      rolled_back :
          (k : Machine W)
          → Steps os (IsFileOfAny attempted) before k
          → Ends (
              restore_journal finish
                (rollback_frequency_requests os attempted k).0
                (rollback_frequency_requests os attempted k).1)
      rolled_back k h =
          restored k (rollback_frequency_requests os attempted k) h
            ((rollback-Respects (Steps-frame os) attempted (own_files os attempted)).at k)
            (rollback-AreGivenBack os attempted k)

    pub undo_batch-Tells :
        (failed : Text) (k : Machine W)
        → Steps os (IsFileOfAny attempted) before k
        → Ends (undo_batch os journal attempted failed k)
    unfolding undo_batch
    undo_batch-Tells failed k h =
        rolled_back (fail (transaction failed write_failed)) (λ n undone. inr undone) k h

    pub undo_unstored-Tells :
        (k : Machine W)
        → Steps os (IsFileOfAny attempted) before k
        → Ends (undo_unstored os journal attempted k)
    unfolding undo_unstored
    undo_unstored-Tells k h =
        rolled_back (degrade cannot_persist_after) (λ n undone. degrade-Ends cannot_persist_after n)
          k h
