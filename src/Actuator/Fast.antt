-- ===== src/Actuator/Fast.antt =====
-- The high-rate transaction on targets that are already claimed: `apply_owned_batch_fast` of
-- crates/uperf-actuator/src/lib.rs.
pub mod Owned
pub mod Steps
pub mod Transact
pub mod Safety
pub mod Synced
use uperf_linux_rev.Actuator.Errors.{
  rollback_failed, ActuatorError, duplicate_request, ownership_required, transaction,
  unknown_target, write_failed,
}
use uperf_linux_rev.Actuator.Batch.{
  record_effective, Applied, FrequencyRequest, Progress, TargetRegistry, bump, moving,
  nothing_to_write, reached, seen_before,
}
use uperf_linux_rev.Base.Maps.{get, insert}
use uperf_linux_rev.Base.Text.{Text, text_key}
use uperf_linux_rev.Base.{
  ℕ, true, false, not, ◌||◌, Option, none, some, List, [], ◌∷◌, Result, ok, err, ok_or,
}
use uperf_linux_rev.Actuator.Io.{
  PreparedFrequencyMutation, apply_requested_limits, read_limits, rollback_frequency_requests,
}
use uperf_linux_rev.Actuator.Journal.{Journal, JournalEntry}
use uperf_linux_rev.Actuator.Machine.{
  Action, Platform, attempt, degrade, ensure_mutation_ready, fail, get_state, lift, pure,
  set_journal, ◌>>=◌, ◌>>◌,
}
use uperf_linux_rev.Actuator.Target.{FrequencyTarget, snap_limits}
use uperf_linux_rev.Core.Units.{FrequencyLimits, same_limits}

-- The entry of a target changed by `f`, or the error for a target that is not owned.
abbrev pub change_entry :
    Text
    → (JournalEntry → JournalEntry)
    → Journal
    → Option JournalEntry
    → Result ActuatorError Journal
change_entry id f j none = err (ownership_required id)
change_entry id f j (some e) = ok (record j { entries = insert id (f e) j.entries })

-- The entries to put back after a failure.
abbrev pub keep_entry :
    Text
    → Option JournalEntry
    → Result ActuatorError (List (Text × JournalEntry))
    → Result ActuatorError (List (Text × JournalEntry))
keep_entry id none rest = err (ownership_required id)
keep_entry id (some e) (err x) = err x
keep_entry id (some e) (ok es) = ok ((id, e) ∷ es)

unfoldable pub entries_before :
    List PreparedFrequencyMutation → Journal → Result ActuatorError (List (Text × JournalEntry))
entries_before [] j = ok []
entries_before (p ∷ ps) j =
    let rest = entries_before ps j in
    elim p.needs_write [
      | true ↦ keep_entry p.target.id (get p.target.id j.entries) rest
      | false ↦ rest
    ]

unfoldable pub put_back :
    List (Text × JournalEntry) → List (Text × JournalEntry) → List (Text × JournalEntry)
put_back [] entries = entries
put_back ((id, e) ∷ es) entries = put_back es (insert id e entries)

unfoldable pub owned_mutation :
    FrequencyTarget → JournalEntry → FrequencyLimits → FrequencyLimits → PreparedFrequencyMutation
owned_mutation t entry desired before = record {
  target = t;
  before_effective = before;
  previous_request = entry.desired;
  desired_request = desired;
  needs_write = not (same_limits entry.desired desired) || not (same_limits before desired);
}

module _ {W : Type 0} (os : Platform W) where
  unfoldable pub prepare_owned :
      TargetRegistry → FrequencyRequest → Action W PreparedFrequencyMutation
  prepare_owned registry r = do
    t ← lift (ok_or (get r.target registry) (unknown_target r.target))
    s ← get_state
    entry ← lift (ok_or (get t.id s.journal.entries) (ownership_required t.id))
    desired ← lift (snap_limits t r.limits)
    before ← read_limits os t
    pure (owned_mutation t entry desired before)

  unfoldable pub prepare_all_owned :
      TargetRegistry → List FrequencyRequest → List Text → Action W (List PreparedFrequencyMutation)
  prepare_all_owned registry [] seen = pure []
  prepare_all_owned registry (r ∷ rs) seen =
      let rest = prepare_all_owned registry rs (r.target ∷ seen) in
      elim (seen_before seen r.target) [
        | true ↦ fail (duplicate_request r.target)
        | false ↦ do p ← prepare_owned registry r; ps ← rest; pure (p ∷ ps)
      ]

  -- `entries.get_mut(id).ok_or(..)?`, and the change.
  unfoldable pub update_owned : Text → (JournalEntry → JournalEntry) → Action W (Unit {0})
  update_owned id f = do
    s ← get_state
    j ← lift (change_entry id f s.journal (get id s.journal.entries))
    set_journal j

  unfoldable pub move_owned : List PreparedFrequencyMutation → Action W (Unit {0})
  move_owned [] = pure tt
  move_owned (p ∷ ps) = elim p.needs_write [
    | true ↦ do
      update_owned p.target.id (λ e. moving e p.before_effective p.desired_request)
      move_owned ps
    | false ↦ move_owned ps
  ]

  -- The write loop: the kernel's present range is the one to start from.
  unfoldable pub write_owned :
      List PreparedFrequencyMutation → Applied → List PreparedFrequencyMutation → Action W Progress
  write_owned [] applied attempted =
      pure (record { applied = applied; attempted = attempted; failure = none })
  write_owned (p ∷ ps) applied attempted = elim p.needs_write [
    | false ↦ write_owned ps (insert p.target.id p.before_effective applied) attempted
    | true ↦ do
      result ← attempt (apply_requested_limits os p.target p.before_effective p.desired_request)
      elim result [
        | ok actual ↦ do
          update_owned p.target.id (λ e. reached e actual)
          write_owned ps (insert p.target.id actual applied) (p ∷ attempted)
        | err e ↦
            pure
              (record { applied = applied; attempted = p ∷ attempted; failure = some p.target.id })
      ]
  ]

  abbrev pub put_journal_back : ℕ → List (Text × JournalEntry) → Journal → Journal
  put_journal_back generation saved j = record j {
    generation = generation;
    entries = put_back saved j.entries;
  }

  unfoldable pub finish_owned : ℕ → List (Text × JournalEntry) → Progress → Action W Applied
  finish_owned generation saved progress = elim progress.failure [
    | none ↦ pure progress.applied
    | some failed ↦ do
      undone ← attempt (rollback_frequency_requests os progress.attempted)
      elim undone [
        | err e ↦ degrade rollback_failed
        | ok _ ↦ do
          s ← get_state
          set_journal (put_journal_back generation saved s.journal)
          fail (transaction failed write_failed)
      ]
  ]

  unfoldable pub transact_owned :
      List PreparedFrequencyMutation → ℕ → List (Text × JournalEntry) → Action W Applied
  transact_owned prepared generation saved = do
    s ← get_state
    set_journal (bump s.journal)
    move_owned prepared
    progress ← write_owned prepared [] []
    finish_owned generation saved progress

  unfoldable pub commit_owned : List PreparedFrequencyMutation → Action W Applied
  commit_owned prepared = elim (nothing_to_write prepared) [
    | true ↦ pure (record_effective prepared [])
    | false ↦ do
      s ← get_state
      saved ← lift (entries_before prepared s.journal)
      transact_owned prepared s.journal.generation saved
  ]

  unfoldable pub apply_owned_batch_fast : TargetRegistry → List FrequencyRequest → Action W Applied
  apply_owned_batch_fast registry requests = do
    s ← get_state
    lift (ensure_mutation_ready s)
    prepared ← prepare_all_owned registry requests []
    commit_owned prepared
