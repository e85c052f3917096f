-- ===== src/Actuator/Restore.antt =====
-- Giving claimed targets back: `restore_targets` of crates/uperf-actuator/src/lib.rs.
pub mod Intents
pub mod Safety
pub mod Synced
use uperf_linux_rev.Base.Maps.{get, insert, remove}
use uperf_linux_rev.Base.Text.{Text, text_key}
use uperf_linux_rev.Base.{Bool, true, false, Option, none, some, List, [], ◌∷◌, ok, err}
use uperf_linux_rev.Actuator.Batch.{TargetRegistry, bump, persist_or_remove, with_entry}
use uperf_linux_rev.Actuator.Errors.{
  cannot_persist_intent, constrained_claim, restore_failed, target_missing,
}
use uperf_linux_rev.Actuator.Io.{restore_frequency_request}
use uperf_linux_rev.Actuator.Journal.{Journal, JournalEntry}
use uperf_linux_rev.Actuator.Machine.{
  Action, Platform, attempt, degrade, ensure_mutation_ready, get_state, lift, persist_journal, pure,
  set_journal, ◌>>=◌, ◌>>◌,
}
use uperf_linux_rev.Actuator.Target.{FrequencyTarget, hardware_limits}
use uperf_linux_rev.Actuator.Writes.{transaction_legal_pairs}
use uperf_linux_rev.Core.Units.{same_limits}

abbrev pub prepend_entry : Option JournalEntry → List JournalEntry → List JournalEntry
prepend_entry none es = es
prepend_entry (some e) es = e ∷ es

-- The entries of the ids that have one.
unfoldable pub entries_of : List Text → Journal → List JournalEntry
entries_of [] j = []
entries_of (id ∷ ids) j = prepend_entry (get id j.entries) (entries_of ids j)

-- The entry on its way from the desired range to the original one.
abbrev pub returning : JournalEntry → JournalEntry → JournalEntry
returning e d = record d {
  applied = e.desired;
  desired = e.original;
  legal_pairs = transaction_legal_pairs e.desired e.original;
}

unfoldable pub remove_entries : List JournalEntry → Journal → Journal
remove_entries [] j = j
remove_entries (e ∷ es) j = remove_entries es (record j { entries = remove e.target j.entries })

abbrev pub Restoration : Type 0
Restoration = List (JournalEntry × FrequencyTarget)

abbrev pub nothing_to_restore : Restoration → Bool
nothing_to_restore [] = true
nothing_to_restore (r ∷ rs) = false

module _ {W : Type 0} (os : Platform W) where
  -- The first loop: each entry is checked, and its return recorded in memory.
  unfoldable pub intend : TargetRegistry → List JournalEntry → Action W Restoration
  intend registry [] = pure []
  intend registry (e ∷ es) =
      let rest = intend registry es in
      elim (get e.target registry) [
        | none ↦ degrade target_missing
        | some t ↦ elim (same_limits e.original (hardware_limits t)) [
          | false ↦ degrade constrained_claim
          | true ↦ do
            s ← get_state
            set_journal (with_entry e.target (returning e) s.journal)
            rs ← rest
            pure ((e, t) ∷ rs)
        ]
      ]

  -- The second loop stops at the first target that cannot be restored.
  unfoldable pub restore_loop : Restoration → Action W (Unit {0})
  restore_loop [] = pure tt
  restore_loop ((e, t) ∷ rs) =
      let rest = restore_loop rs in
      do
        result ← attempt (restore_frequency_request os t e.original)
        elim result [ ok _ ↦ rest | err x ↦ degrade restore_failed ]

  unfoldable pub release : List JournalEntry → Action W (Unit {0})
  release es = do
    s ← get_state
    set_journal (bump (remove_entries es s.journal))
    persist_or_remove os

  unfoldable pub give_back : List JournalEntry → Restoration → Action W (Unit {0})
  give_back es rs = do restore_loop rs; release es

  unfoldable pub carry_out : List JournalEntry → Restoration → Action W (Unit {0})
  carry_out es rs = elim (nothing_to_restore rs) [
    | true ↦ give_back es rs
    | false ↦ do
      s ← get_state
      result ← attempt (persist_journal os s.journal)
      elim result [ err e ↦ degrade cannot_persist_intent | ok _ ↦ give_back es rs ]
  ]

  unfoldable pub restore_targets : TargetRegistry → List Text → Action W (Unit {0})
  restore_targets registry ids = do
    s ← get_state
    lift (ensure_mutation_ready s)
    rs ← intend registry (entries_of ids s.journal)
    carry_out (entries_of ids s.journal) rs
