-- ===== src/Actuator/Batch.antt =====
-- The frequency transaction that claims targets: `apply_batch` and `persist_or_remove_locked` of
-- crates/uperf-actuator/src/lib.rs.
pub mod Durable
pub mod Entries
pub mod Prepare
pub mod Works
pub mod Stores
pub mod Outcome
pub mod Undo
pub mod Commit
pub mod Claim
pub mod Files
pub mod Told
pub mod Writing
pub mod Undoing
pub mod Whole
pub mod Safety
pub mod Registry
use uperf_linux_rev.Base.Maps.{get, insert}
use uperf_linux_rev.Base.Text.{Text, text_key, same_text}
use uperf_linux_rev.Base.Words.{saturating_add}
use uperf_linux_rev.Base.{
  Bool, true, false, not, ◌&&◌, Option, none, some, List, [], ◌∷◌, if◌then◌else◌, some_or, Result,
  ok, err, ok_or, any, all,
}
use uperf_linux_rev.Actuator.Errors.{
  ActuatorError, cannot_persist_after, cannot_persist_before, cannot_persist_operation,
  duplicate_request, journal_update_failed, rollback_failed, transaction, unknown_target,
  unowned_range, write_failed,
}
use uperf_linux_rev.Actuator.Io.{
  PreparedFrequencyMutation, apply_requested_limits, read_limits, rollback_frequency_requests,
}
use uperf_linux_rev.Actuator.Journal.{
  Journal, JournalEntry, frequency_pair, is_empty, recovery_manifest,
}
use uperf_linux_rev.Actuator.Machine.{
  Action, Platform, attempt, degrade, ensure_mutation_ready, fail, get_state, lift, persist_journal,
  pure, remove_durable, set_journal, ◌>>=◌, ◌>>◌,
}
use uperf_linux_rev.Actuator.Target.{FrequencyTarget, hardware_limits, snap_limits}
use uperf_linux_rev.Actuator.Writes.{transaction_legal_pairs}
use uperf_linux_rev.Core.Units.{FrequencyLimits, same_limits}

-- The frequency part of `TargetRegistry`.
abbrev pub TargetRegistry : Type 0
TargetRegistry = List (Text × FrequencyTarget)

pub record FrequencyRequest : Type 0 where
  pub target : Text
  pub limits : FrequencyLimits

abbrev pub Applied : Type 0
Applied = List (Text × FrequencyLimits)

abbrev pub bump : Journal → Journal
bump j = record j { generation = saturating_add j.generation 1 }

abbrev pub seen_before : List Text → Text → Bool
seen_before seen id = any (λ s. same_text s id) seen

-- The decision for one request: what to write, or why the target cannot be claimed.
unfoldable pub prepare_claim :
    FrequencyTarget
    → FrequencyLimits
    → FrequencyLimits
    → Option JournalEntry
    → Result ActuatorError PreparedFrequencyMutation
prepare_claim t desired before none =
    let noop = same_limits before desired in
    if not noop && not (same_limits before (hardware_limits t))
    then err (transaction t.id unowned_range)
    else ok (record {
      target = t;
      before_effective = before;
      previous_request = hardware_limits t;
      desired_request = desired;
      needs_write = not noop;
    })
prepare_claim t desired before (some entry) = ok (record {
  target = t;
  before_effective = before;
  previous_request = entry.desired;
  desired_request = desired;
  needs_write = not (same_limits entry.desired desired);
})

-- A fresh claim: the original is the full hardware range.
abbrev pub fresh_entry : PreparedFrequencyMutation → JournalEntry
fresh_entry p = record {
  target = p.target.id;
  min_path = p.target.min_path;
  max_path = p.target.max_path;
  resource_manifest = frequency_pair (recovery_manifest p.target);
  original = hardware_limits p.target;
  desired = p.previous_request;
  applied = p.previous_request;
  legal_pairs = p.previous_request ∷ [];
}

abbrev pub moving : JournalEntry → FrequencyLimits → FrequencyLimits → JournalEntry
moving e from to = record e {
  applied = from;
  desired = to;
  legal_pairs = transaction_legal_pairs from to;
}

abbrev pub reached : JournalEntry → FrequencyLimits → JournalEntry
reached e actual = record e { applied = actual; legal_pairs = actual ∷ [] }

unfoldable pub claim_one : PreparedFrequencyMutation → Journal → Journal
claim_one p j =
    let entry = some_or (get p.target.id j.entries) (fresh_entry p) in
    record j {
      entries = insert p.target.id (moving entry p.previous_request p.desired_request) j.entries;
    }

unfoldable pub claim_all : List PreparedFrequencyMutation → Journal → Journal
claim_all [] j = j
claim_all (p ∷ ps) j = claim_all ps (if p.needs_write then claim_one p j else j)

abbrev pub update_entry :
    Text → (JournalEntry → JournalEntry) → Journal → Option JournalEntry → Journal
update_entry id f j none = j
update_entry id f j (some e) = record j { entries = insert id (f e) j.entries }

-- `if let Some(entry) = entries.get_mut(id)`.
abbrev pub with_entry : Text → (JournalEntry → JournalEntry) → Journal → Journal
with_entry id f j = update_entry id f j (get id j.entries)

abbrev pub nothing_to_write : List PreparedFrequencyMutation → Bool
nothing_to_write ps = all (λ p. not p.needs_write) ps

abbrev pub record_effective : List PreparedFrequencyMutation → Applied → Applied
record_effective [] applied = applied
record_effective (p ∷ ps) applied =
    record_effective ps (insert p.target.id p.before_effective applied)

-- What the write loop leaves: the applied ranges, the attempted mutations (latest first), and the
-- failure that stopped it.
pub record Progress : Type 0 where
  pub applied : Applied
  pub attempted : List PreparedFrequencyMutation
  pub failure : Option Text

module _ {W : Type 0} (os : Platform W) where
  -- `persist_or_remove_locked`.
  unfoldable pub persist_or_remove : Action W (Unit {0})
  persist_or_remove = do
    s ← get_state
    result ← attempt (elim (is_empty s.journal) [
      | true ↦ remove_durable os
      | false ↦ persist_journal os s.journal
    ])
    elim result [ ok _ ↦ pure tt | err e ↦ degrade cannot_persist_operation ]

  unfoldable pub prepare_one :
      TargetRegistry → FrequencyRequest → Action W PreparedFrequencyMutation
  prepare_one registry r = do
    t ← lift (ok_or (get r.target registry) (unknown_target r.target))
    desired ← lift (snap_limits t r.limits)
    before ← read_limits os t
    s ← get_state
    lift (prepare_claim t desired before (get t.id s.journal.entries))

  unfoldable pub prepare :
      TargetRegistry → List FrequencyRequest → List Text → Action W (List PreparedFrequencyMutation)
  prepare registry [] seen = pure []
  prepare registry (r ∷ rs) seen =
      let rest = prepare registry rs (r.target ∷ seen) in
      elim (seen_before seen r.target) [
        | true ↦ fail (duplicate_request r.target)
        | false ↦ do p ← prepare_one registry r; ps ← rest; pure (p ∷ ps)
      ]

  -- The write loop of `apply_batch`: it goes on after a success and stops at a failure.
  unfoldable pub write_all :
      List PreparedFrequencyMutation → Applied → List PreparedFrequencyMutation → Action W Progress
  write_all [] applied attempted =
      pure (record { applied = applied; attempted = attempted; failure = none })
  write_all (p ∷ ps) applied attempted = elim p.needs_write [
    | false ↦ write_all ps (insert p.target.id p.before_effective applied) attempted
    | true ↦ do
      result ← attempt (apply_requested_limits os p.target p.previous_request p.desired_request)
      elim result [
        | ok actual ↦ do
          s ← get_state
          set_journal (with_entry p.target.id (λ e. reached e actual) s.journal)
          write_all ps (insert p.target.id actual applied) (p ∷ attempted)
        | err e ↦
            pure
              (record { applied = applied; attempted = p ∷ attempted; failure = some p.target.id })
      ]
  ]

  -- The answer to a failed write: undo, then put the journal back.
  unfoldable pub undo_batch : Journal → List PreparedFrequencyMutation → Text → Action W Applied
  undo_batch journal_before attempted failed = do
    undone ← attempt (rollback_frequency_requests os attempted)
    elim undone [
      | err e ↦ degrade rollback_failed
      | ok _ ↦ do
        set_journal journal_before
        updated ← attempt persist_or_remove
        elim updated [
          | err e ↦ degrade journal_update_failed
          | ok _ ↦ fail (transaction failed write_failed)
        ]
    ]

  -- The same when the journal could not be stored after the writes; it always degrades.
  unfoldable pub undo_unstored : Journal → List PreparedFrequencyMutation → Action W Applied
  undo_unstored journal_before attempted = do
    undone ← attempt (rollback_frequency_requests os attempted)
    elim undone [
      | err e ↦ degrade rollback_failed
      | ok _ ↦ do
        set_journal journal_before
        updated ← attempt persist_or_remove
        elim updated [ err e ↦ degrade journal_update_failed | ok _ ↦ degrade cannot_persist_after ]
    ]

  unfoldable pub finish_batch : Journal → Progress → Action W Applied
  finish_batch journal_before progress = elim progress.failure [
    | some failed ↦ undo_batch journal_before progress.attempted failed
    | none ↦ do
      s ← get_state
      result ← attempt (persist_journal os s.journal)
      elim result [
        | ok _ ↦ pure progress.applied
        | err e ↦ undo_unstored journal_before progress.attempted
      ]
  ]

  unfoldable pub transact : List PreparedFrequencyMutation → Journal → Action W Applied
  transact prepared journal_before = do
    set_journal (claim_all prepared (bump journal_before))
    result ← attempt (persist_journal os (claim_all prepared (bump journal_before)))
    elim result [
      | err e ↦ do set_journal journal_before; degrade cannot_persist_before
      | ok _ ↦ do progress ← write_all prepared [] []; finish_batch journal_before progress
    ]

  unfoldable pub commit_prepared : List PreparedFrequencyMutation → Action W Applied
  commit_prepared prepared = elim (nothing_to_write prepared) [
    | true ↦ pure (record_effective prepared [])
    | false ↦ do s ← get_state; transact prepared s.journal
  ]

  unfoldable pub apply_batch : TargetRegistry → List FrequencyRequest → Action W Applied
  apply_batch registry requests = do
    s ← get_state
    lift (ensure_mutation_ready s)
    prepared ← prepare registry requests []
    commit_prepared prepared
