-- ===== src/Actuator/Restore/Safety.antt =====
-- The loops and the end of `restore_targets` in crates/uperf-actuator/src/lib.rs.
use uperf_linux_rev.Base.Maps.{get, remove, get-remove}
use uperf_linux_rev.Base.Text.{Text, text_key}
use uperf_linux_rev.Base.{
  ◌≡◌, refl, sym, ◌∙◌, subst, ◌≢◌, inl, inr, none, some, List, [], ◌∷◌, Result, ok, err, All,
  if-cases,
}
use uperf_linux_rev.Actuator.Batch.{TargetRegistry, bump}
use uperf_linux_rev.Actuator.Batch.Durable.{ClaimsPath, IsCovered, IsCovered-append, durable}
use uperf_linux_rev.Actuator.Batch.Entries.{
  HasEntry, IsEntryFor, IsJournalFor, IsListed, IsRegistry,
}
use uperf_linux_rev.Actuator.Batch.Safety.{IsSound}
use uperf_linux_rev.Actuator.Batch.Stores.{
  IsStored, IsUpdated, is_stored, not_stored, not_updated, persist_journal-IsStored,
  persist_or_remove-IsUpdated, updated,
}
use uperf_linux_rev.Actuator.Errors.{ActuatorError, cannot_persist_intent, restore_failed}
use uperf_linux_rev.Actuator.Fast.Owned.{Covers}
use uperf_linux_rev.Actuator.Fast.Steps.{Covers-frame, Covers-preorder, degrade-Covers}
use uperf_linux_rev.Actuator.Io.Frame.{Reaches, restore-Respects}
use uperf_linux_rev.Actuator.Journal.{Journal, JournalEntry}
use uperf_linux_rev.Actuator.Machine.{
  Action, Machine, Platform, RuntimeState, bind_result, degrade, ensure_mutation_ready, ◌>>=◌,
}
use uperf_linux_rev.Actuator.Machine.Rules.{
  Respects, Respects-attempt, Respects-bind, Respects-pure,
}
use uperf_linux_rev.Actuator.Restore.{
  Restoration, carry_out, entries_of, give_back, intend, release, remove_entries, restore_loop,
  restore_targets,
}
use uperf_linux_rev.Actuator.Restore.Intents.{
  Intended, IsIndexed, entries_of-HasEntry, intend-Intended, intended, refused,
}
use uperf_linux_rev.Core.Units.{FrequencyLimits}

none-ne-entry : (e : JournalEntry) → none ≢ some e
none-ne-entry e h = cc

module _ (registry : TargetRegistry) where
  remove-IsJournalFor :
      (j : Journal) (k : Text)
      → IsJournalFor registry j
      → IsJournalFor registry (record j { entries = remove k j.entries })
  remove-IsJournalFor j k inv id t e listed found =
      if-cases (λ o. o ≡ some e → IsEntryFor t e) (text_key.same k id) none (get id j.entries)
        (λ same h. absurd (none-ne-entry e h)) (λ apart h. inv id t e listed h)
        (sym (get-remove k id j.entries) ∙ found)

  remove_entries-IsJournalFor :
      (es : List JournalEntry) (j : Journal)
      → IsJournalFor registry j
      → IsJournalFor registry (remove_entries es j)
  unfolding remove_entries
  remove_entries-IsJournalFor [] j inv = inv
  remove_entries-IsJournalFor (e ∷ es) j inv =
      remove_entries-IsJournalFor es _ (remove-IsJournalFor j e.target inv)

  reaching :
      (held : Journal) (rs : Restoration)
      → IsJournalFor registry held
      → All (λ r. IsListed registry r.1 × HasEntry r.1.id held) rs
      → All (λ r. Reaches (ClaimsPath held) r.1) rs
  unfolding HasEntry
  reaching held [] inv h = tt
  reaching held ((d, t) ∷ rs) inv ((listed, (e, found)), rest) =
      let own = inv t.id t e listed found in
      (
        ((t.id, e, found, inl (sym own.low)), (t.id, e, found, inr (sym own.high))),
        reaching held rs inv rest,
      )

Covers-IsSound :
    {W : Type 0} (registry : TargetRegistry) (held : Journal) (m n : Machine W)
    → Covers registry held m n
    → durable m.trace ≡ some held
    → IsSound registry m
    → IsSound registry n
Covers-IsSound registry held m n kept disk sound =
    let (more, grown, claims) = kept.writes in
    record {
      entries = kept.journal sound.entries;
      covered =
          subst IsCovered (sym grown)
            (IsCovered-append held more m.trace claims disk sound.covered).1;
    }

module _ {W : Type 0} (os : Platform W) (registry : TargetRegistry) where
  abbrev or_fail : Action W (Unit {0}) → Result ActuatorError FrequencyLimits → Action W (Unit {0})
  or_fail rest r = elim r [ ok _ ↦ rest | err x ↦ degrade restore_failed ]

  module _ (held : Journal) where
    or_fail-Covers :
        (rest : Action W (Unit {0})) (r : Result ActuatorError FrequencyLimits)
        → Respects (Covers registry held) rest
        → Respects (Covers registry held) (or_fail rest r)
    or_fail-Covers rest (ok l) h = h
    or_fail-Covers rest (err x) h = degrade-Covers registry held restore_failed

    restore_loop-Covers :
        (rs : Restoration)
        → All (λ r. Reaches (ClaimsPath held) r.1) rs
        → Respects (Covers registry held) (restore_loop os rs)
    unfolding restore_loop
    restore_loop-Covers [] h = Respects-pure (Covers-preorder registry held) tt
    restore_loop-Covers ((e, t) ∷ rs) (h, hs) =
        let order = Covers-preorder {W = W} registry held in
        Respects-bind order _ _
          (Respects-attempt order _
            (restore-Respects (Covers-frame registry held os) t e.original h))
          λ r. or_fail-Covers (restore_loop os rs) r (restore_loop-Covers rs hs)

  updated-IsSound :
      (m : Machine W) (out : Result ActuatorError (Unit {0}) × Machine W)
      → IsSound registry m
      → IsUpdated m out
      → IsSound registry out.1
  updated-IsSound m _ sound (updated n same synced keeps) = record {
    entries =
        subst (λ (s : RuntimeState). IsJournalFor registry s.journal) (sym same) sound.entries;
    covered = keeps sound.covered;
  }
  updated-IsSound m _ sound (not_updated e n journal required trace) = record {
    entries = subst (IsJournalFor registry) (sym journal) sound.entries;
    covered = subst IsCovered (sym trace) sound.covered;
  }

  release-IsSound :
      (es : List JournalEntry) (m : Machine W)
      → IsSound registry m
      → IsSound registry (release os es m).1
  unfolding release
  release-IsSound es m sound =
      let k = record m {
        state = record m.state { journal = bump (remove_entries es m.state.journal) };
      } in
      updated-IsSound k _
        (record {
          entries = remove_entries-IsJournalFor registry es m.state.journal sound.entries;
          covered = sound.covered;
        })
        (persist_or_remove-IsUpdated os k)

  and_release :
      (es : List JournalEntry) (out : Result ActuatorError (Unit {0}) × Machine W)
      → IsSound registry out.1
      → IsSound registry (bind_result out λ _. release os es).1
  and_release es (ok a, n) sound = release-IsSound es n sound
  and_release es (err e, n) sound = sound

  give_back-IsSound :
      (es : List JournalEntry) (rs : Restoration) (held : Journal) (m : Machine W)
      → All (λ r. Reaches (ClaimsPath held) r.1) rs
      → durable m.trace ≡ some held
      → IsSound registry m
      → IsSound registry (give_back os es rs m).1
  unfolding give_back
  give_back-IsSound es rs held m reach disk sound = and_release es (restore_loop os rs m) (
      Covers-IsSound registry held m (restore_loop os rs m).1
        ((restore_loop-Covers held rs reach).at m) disk sound)

  abbrev stored_then :
      List JournalEntry → Restoration → Result ActuatorError (Unit {0}) → Action W (Unit {0})
  stored_then es rs r = elim r [ err e ↦ degrade cannot_persist_intent | ok _ ↦ give_back os es rs ]

  stored_then-IsSound :
      (es : List JournalEntry) (rs : Restoration) (m : Machine W)
      (out : Result ActuatorError (Unit {0}) × Machine W)
      → All (λ r. Reaches (ClaimsPath m.state.journal) r.1) rs
      → IsSound registry m
      → IsStored m.state.journal m out
      → IsSound registry (stored_then es rs out.0 out.1).1
  unfolding degrade durable
  stored_then-IsSound es rs m _ reach sound (is_stored w) =
      give_back-IsSound es rs m.state.journal _ reach refl
        (record { entries = sound.entries; covered = sound.covered })
  stored_then-IsSound es rs m _ reach sound (not_stored e w) = record {
    entries = sound.entries;
    covered = sound.covered;
  }

  carry_out-IsSound :
      (es : List JournalEntry) (rs : Restoration) (m : Machine W)
      → All (λ r. Reaches (ClaimsPath m.state.journal) r.1) rs
      → IsSound registry m
      → IsSound registry (carry_out os es rs m).1
  unfolding carry_out give_back restore_loop
  carry_out-IsSound es [] m reach sound = and_release es (ok tt, m) sound
  carry_out-IsSound es (r ∷ rs) m reach sound =
      stored_then-IsSound es (r ∷ rs) m _ reach sound
        (persist_journal-IsStored os m.state.journal m)

  carrying :
      (es : List JournalEntry) (m : Machine W) (out : Result ActuatorError Restoration × Machine W)
      → IsSound registry m
      → Intended registry m out
      → IsSound registry (bind_result out (carry_out os es)).1
  carrying es m _ sound (refused e n trace inv) = record {
    entries = inv;
    covered = subst IsCovered (sym trace) sound.covered;
  }
  carrying es m _ sound (intended rs n trace inv rest keeps) =
      carry_out-IsSound es rs n (reaching registry n.state.journal rs inv rest)
        (record { entries = inv; covered = subst IsCovered (sym trace) sound.covered })

  checking :
      (ids : List Text) (m : Machine W) (r : Result ActuatorError (Unit {0}))
      → IsRegistry registry
      → IsIndexed m.state.journal
      → IsSound registry m
      → IsSound registry
          (bind_result
            (r, m)
            λ _.
              intend os registry (entries_of ids m.state.journal)
              >>= carry_out os (entries_of ids m.state.journal)).1
  checking ids m (err e) named keyed sound = sound
  checking ids m (ok a) named keyed sound = carrying (entries_of ids m.state.journal) m _ sound (
      intend-Intended os registry named (entries_of ids m.state.journal) m sound.entries
        (entries_of-HasEntry ids m.state.journal keyed))

  -- With a registry that keeps each target under its id, and a journal that keeps each entry under
  -- its target's id, `restore_targets` keeps the state sound, on
  -- every path: each write of a restoration is made while the disk holds the claim of its file,
  -- and the entries that remain are those of their targets.
  pub restore_targets-IsSound :
      (ids : List Text) (m : Machine W)
      → IsRegistry registry
      → IsIndexed m.state.journal
      → IsSound registry m
      → IsSound registry (restore_targets os registry ids m).1
  unfolding restore_targets
  restore_targets-IsSound ids m named keyed sound =
      checking ids m (ensure_mutation_ready m.state) named keyed sound
