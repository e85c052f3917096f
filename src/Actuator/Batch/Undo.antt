-- ===== src/Actuator/Batch/Undo.antt =====
-- The two ways in which `apply_batch` of crates/uperf-actuator/src/lib.rs takes its writes back.
use uperf_linux_rev.Actuator.Batch.{rollback_failed}
use uperf_linux_rev.Actuator.Batch.{journal_update_failed}
use uperf_linux_rev.Actuator.Batch.{cannot_persist_after}
use uperf_linux_rev.Base.Text.{Text, text_key}
use uperf_linux_rev.Base.{◌≡◌, refl, sym, ap, ◌∙◌, subst, some, List, Result, ok, err, All}
use uperf_linux_rev.Actuator.Batch.{
  Applied, TargetRegistry, persist_or_remove, undo_batch, undo_unstored,
}
use uperf_linux_rev.Actuator.Batch.Durable.{
  ClaimsPath, IsCovered, IsSynced, IsCovered-append, durable,
}
use uperf_linux_rev.Actuator.Batch.Entries.{IsJournalFor}
use uperf_linux_rev.Actuator.Batch.Outcome.{Outcome, gave_up, reverted}
use uperf_linux_rev.Actuator.Batch.Stores.{
  IsUpdated, not_updated, persist_or_remove-IsUpdated, updated,
}
use uperf_linux_rev.Actuator.Batch.Works.{Works, Works-frame}
use uperf_linux_rev.Actuator.Errors.{ActuatorError, Reason, transaction, write_failed}
use uperf_linux_rev.Actuator.Io.{PreparedFrequencyMutation, rollback_frequency_requests}
use uperf_linux_rev.Actuator.Io.Frame.{Reaches, rollback-Respects}
use uperf_linux_rev.Actuator.Journal.{Journal}
use uperf_linux_rev.Actuator.Machine.{
  Action, Machine, Platform, RuntimeState, attempt, degrade, fail, set_journal, ◌>>=◌, ◌>>◌,
}

-- Between the two stores: `held` is on the disk and answers for every write.
pub record Midway {W : Type 0} (registry : TargetRegistry) (held : Journal) (before n : Machine W)
    : Type 0 where
  pub mode : n.state.mode ≡ before.state.mode
  pub required : n.state.recovery_required ≡ before.state.recovery_required
  pub journal : IsJournalFor registry n.state.journal
  pub disk : durable n.trace ≡ some held
  pub covered : IsCovered n.trace

pub Midway-Works :
    {W : Type 0} (registry : TargetRegistry) (held : Journal) (before n k : Machine W)
    → Midway registry held before n
    → Works registry held n k
    → Midway registry held before k
Midway-Works registry held before n k half w =
    let (more, grown, claims) = w.writes in
    let after = IsCovered-append held more n.trace claims half.disk half.covered in
    record {
      mode = w.mode ∙ half.mode;
      required = w.required ∙ half.required;
      journal = w.journal half.journal;
      disk = ap durable grown ∙ after.0;
      covered = subst IsCovered (sym grown) after.1;
    }

module _ {W : Type 0} (os : Platform W) (registry : TargetRegistry) (held : Journal)
    (before : Machine W) (ordered : IsJournalFor registry before.state.journal) where
  -- Degrading ends the call as given up.
  pub degrade-Outcome :
      (reason : Reason) (n : Machine W)
      → n.state.recovery_required ≡ before.state.recovery_required
      → IsJournalFor registry n.state.journal
      → IsCovered n.trace
      → Outcome registry before (degrade reason n)
  unfolding degrade
  degrade-Outcome reason n required journal covered = gave_up reason _ refl required journal covered

  -- What follows the update of the journal.
  abbrev conclude : Action W Applied → Result ActuatorError (Unit {0}) → Action W Applied
  conclude finish r = elim r [ err e ↦ degrade journal_update_failed | ok _ ↦ finish ]

  module _ (finish : Action W Applied)
      (finished : (n : Machine W)
        → n.state ≡ before.state
        → IsSynced n.trace before.state.journal
        → IsCovered n.trace
        → Outcome registry before (finish n)) where
    conclude-Outcome :
        (k : Machine W) (out : Result ActuatorError (Unit {0}) × Machine W)
        → k.state ≡ before.state
        → IsCovered k.trace
        → IsUpdated k out
        → Outcome registry before (conclude finish out.0 out.1)
    conclude-Outcome k _ same covered (updated n kept synced keeps) =
        finished n (kept ∙ same)
          (subst (λ (s : RuntimeState). IsSynced n.trace s.journal) same synced) (keeps covered)
    conclude-Outcome k _ same covered (not_updated e n journal required trace) =
        let back = journal ∙ ap (λ (s : RuntimeState). s.journal) same in
        degrade-Outcome journal_update_failed n
          (required ∙ ap (λ (s : RuntimeState). s.recovery_required) same)
          (subst (IsJournalFor registry) (sym back) ordered) (subst IsCovered (sym trace) covered)

    -- What follows the rollback.
    abbrev restore_journal : Result ActuatorError (Unit {0}) → Action W Applied
    restore_journal r = elim r [
      | err e ↦ degrade rollback_failed
      | ok _ ↦ do
        set_journal before.state.journal
        result ← attempt (persist_or_remove os)
        conclude finish result
    ]

    restored :
        (n : Machine W) (r : Result ActuatorError (Unit {0}))
        → Midway registry held before n
        → Outcome registry before (restore_journal r n)
    restored n (err e) half =
        degrade-Outcome rollback_failed n half.required half.journal half.covered
    restored n (ok a) half =
        let k = record n { state = record n.state { journal = before.state.journal } } in
        let same : k.state ≡ before.state = λ i. record {
          mode = half.mode i;
          journal = before.state.journal;
          recovery_required = half.required i;
        } in
        conclude-Outcome k _ same half.covered (persist_or_remove-IsUpdated os k)

    rolled_back :
        (attempted : List PreparedFrequencyMutation) (n : Machine W)
        → All (λ p. Reaches (ClaimsPath held) p.target) attempted
        → Midway registry held before n
        → Outcome registry before (
            restore_journal
              (rollback_frequency_requests os attempted n).0
              (rollback_frequency_requests os attempted n).1)
    rolled_back attempted n reach half = restored _ _ (
        Midway-Works registry held before n _ half
          ((rollback-Respects (Works-frame registry held os) attempted reach).at n))

  pub undo_batch-Outcome :
      (attempted : List PreparedFrequencyMutation) (failed : Text) (n : Machine W)
      → All (λ p. Reaches (ClaimsPath held) p.target) attempted
      → Midway registry held before n
      → Outcome registry before (undo_batch os before.state.journal attempted failed n)
  unfolding undo_batch
  undo_batch-Outcome attempted failed n reach half =
      rolled_back (fail (transaction failed write_failed))
        (λ k same synced covered. reverted _ k same synced covered) attempted n reach half

  pub undo_unstored-Outcome :
      (attempted : List PreparedFrequencyMutation) (n : Machine W)
      → All (λ p. Reaches (ClaimsPath held) p.target) attempted
      → Midway registry held before n
      → Outcome registry before (undo_unstored os before.state.journal attempted n)
  unfolding undo_unstored
  undo_unstored-Outcome attempted n reach half =
      rolled_back (degrade cannot_persist_after)
        (λ k same synced covered.
          degrade-Outcome cannot_persist_after k
            (ap (λ (s : RuntimeState). s.recovery_required) same)
            (subst (λ (s : RuntimeState). IsJournalFor registry s.journal) (sym same) ordered)
            covered)
        attempted n reach half
