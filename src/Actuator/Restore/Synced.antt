-- ===== src/Actuator/Restore/Synced.antt =====
-- What a `restore_targets` of crates/uperf-actuator/src/lib.rs that succeeds leaves on the disk.
use uperf_linux_rev.Base.{◌≡◌, sym, subst, List, [], ◌∷◌, Result, ok, err}
use uperf_linux_rev.Base.Text.{Text}
use uperf_linux_rev.Actuator.Batch.{TargetRegistry, bump}
use uperf_linux_rev.Actuator.Batch.Durable.{IsSynced}
use uperf_linux_rev.Actuator.Batch.Stores.{
  IsUpdated, not_updated, persist_or_remove-IsUpdated, updated,
}
use uperf_linux_rev.Actuator.Errors.{ActuatorError, cannot_persist_intent}
use uperf_linux_rev.Actuator.Journal.{JournalEntry}
use uperf_linux_rev.Actuator.Machine.{
  Action, Machine, Platform, RuntimeState, bind_result, degrade, ensure_mutation_ready,
  persist_journal, ◌>>=◌,
}
use uperf_linux_rev.Actuator.Restore.{
  Restoration, carry_out, entries_of, give_back, intend, release, remove_entries, restore_loop,
  restore_targets,
}

-- A success ends with the disk in agreement.
abbrev EndsSynced : {W A : Type 0} → Result ActuatorError A × Machine W → Type 0
EndsSynced (ok a, n) = IsSynced n.trace n.state.journal
EndsSynced (err e, n) = Unit {0}

-- The last of a chain of actions decides.
last-EndsSynced :
    {W A B : Type 0} (out : Result ActuatorError A × Machine W) (f : A → Action W B)
    → ((a : A) (n : Machine W) → EndsSynced (f a n))
    → EndsSynced (bind_result out f)
last-EndsSynced (ok a, n) f h = h a n
last-EndsSynced (err e, n) f h = tt

module _ {W : Type 0} (os : Platform W) where
  updated-EndsSynced :
      (m : Machine W) (out : Result ActuatorError (Unit {0}) × Machine W)
      → IsUpdated m out
      → EndsSynced out
  updated-EndsSynced m _ (updated n same synced keeps) =
      subst (λ (s : RuntimeState). IsSynced n.trace s.journal) (sym same) synced
  updated-EndsSynced m _ (not_updated e n journal required trace) = tt

  release-EndsSynced : (es : List JournalEntry) (m : Machine W) → EndsSynced (release os es m)
  unfolding release
  release-EndsSynced es m =
      let k = record m {
        state = record m.state { journal = bump (remove_entries es m.state.journal) };
      } in
      updated-EndsSynced k _ (persist_or_remove-IsUpdated os k)

  give_back-EndsSynced :
      (es : List JournalEntry) (rs : Restoration) (m : Machine W)
      → EndsSynced (give_back os es rs m)
  unfolding give_back
  give_back-EndsSynced es rs m =
      last-EndsSynced (restore_loop os rs m) (λ u. release os es) λ u. release-EndsSynced es

  abbrev intent_stored :
      List JournalEntry → Restoration → Result ActuatorError (Unit {0}) → Action W (Unit {0})
  intent_stored es rs r = elim r [
    | err e ↦ degrade cannot_persist_intent
    | ok _ ↦ give_back os es rs
  ]

  intent-EndsSynced :
      (es : List JournalEntry) (rs : Restoration) (r : Result ActuatorError (Unit {0}))
      (m : Machine W)
      → EndsSynced (intent_stored es rs r m)
  unfolding degrade
  intent-EndsSynced es rs (ok u) m = give_back-EndsSynced es rs m
  intent-EndsSynced es rs (err e) m = tt

  carry_out-EndsSynced :
      (es : List JournalEntry) (rs : Restoration) (m : Machine W)
      → EndsSynced (carry_out os es rs m)
  unfolding carry_out
  carry_out-EndsSynced es [] m = give_back-EndsSynced es [] m
  carry_out-EndsSynced es (r ∷ rs) m =
      let out = persist_journal os m.state.journal m in intent-EndsSynced es (r ∷ rs) out.0 out.1

  module _ (registry : TargetRegistry) where
    ends : (ids : List Text) (m : Machine W) → EndsSynced (restore_targets os registry ids m)
    unfolding restore_targets
    ends ids m =
        let es = entries_of ids m.state.journal in
        last-EndsSynced (ensure_mutation_ready m.state, m)
          (λ u. intend os registry es >>= carry_out os es)
          λ u n.
            last-EndsSynced (intend os registry es n) (carry_out os es) (carry_out-EndsSynced es)

    -- Where `restore_targets` succeeds, the disk agrees with the journal in memory.
    pub restore_targets-IsSynced :
        (ids : List Text) (m n : Machine W)
        → restore_targets os registry ids m ≡ (ok tt, n)
        → IsSynced n.trace n.state.journal
    restore_targets-IsSynced ids m n at = subst EndsSynced at (ends ids m)
