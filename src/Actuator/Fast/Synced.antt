-- ===== src/Actuator/Fast/Synced.antt =====
-- `apply_owned_batch_fast` of crates/uperf-actuator/src/lib.rs while the disk agrees with the journal
-- in memory.
use uperf_linux_rev.Base.{
  ◌≡◌, refl, sym, ap, ◌∙◌, subst, ◌≢◌, inl, inr, true, none, some, List, [], ◌∷◌, ◌++◌, arith, All,
}
use uperf_linux_rev.Base.Maps.{get}
use uperf_linux_rev.Base.Text.{Text, text_key}
use uperf_linux_rev.Actuator.Batch.{FrequencyRequest, TargetRegistry}
use uperf_linux_rev.Actuator.Batch.Durable.{ClaimedWrite, IsCovered, IsSynced}
use uperf_linux_rev.Actuator.Batch.Entries.{IsRegistry}
use uperf_linux_rev.Actuator.Batch.Safety.{IsSound}
use uperf_linux_rev.Actuator.Fast.{apply_owned_batch_fast}
use uperf_linux_rev.Actuator.Fast.Safety.{apply_owned_batch_fast-IsSound, owned-Covers}
use uperf_linux_rev.Actuator.Journal.{Journal, JournalEntry, is_empty, no_items}
use uperf_linux_rev.Actuator.Machine.{
  Event, Machine, Platform, ensure_mutation_ready, removed, stored, wrote,
}

none-ne-entry : (e : JournalEntry) → none ≢ some e
none-ne-entry e h = cc

no_entries : (j : Journal) → is_empty j ≡ true → j.entries ≡ []
no_entries j h = empty_list j.entries (ground (arith, h))
  where
    empty_list : (es : List (Text × JournalEntry)) → no_items es ≡ true → es ≡ []
    empty_list [] h = refl
    empty_list (e ∷ es) h = cc

-- A journal without entries claims nothing.
no_claims :
    (j : Journal) (more : List Event) → j.entries ≡ [] → All (ClaimedWrite j) more → more ≡ []
unfolding get
no_claims j [] h a = refl
no_claims j (wrote path value ∷ more) h ((id, e, found, p), a) =
    absurd (none-ne-entry e (subst (λ es. get id es ≡ some e) h found))
no_claims j (stored k ∷ more) h (a, b) = absurd a
no_claims j (removed ∷ more) h (a, b) = absurd a

-- From a sound state, with a registry that keeps each target under its id, and while the disk agrees
-- with the journal in memory, the fast transaction keeps the state sound.
pub apply_owned_batch_fast-synced :
    {W : Type 0} (os : Platform W) (registry : TargetRegistry) (requests : List FrequencyRequest)
    (m : Machine W)
    → IsRegistry registry
    → IsSound registry m
    → IsSynced m.trace m.state.journal
    → IsSound registry (apply_owned_batch_fast os registry requests m).1
unfolding apply_owned_batch_fast
apply_owned_batch_fast-synced os registry requests m keyed sound (inl disk) =
    (apply_owned_batch_fast-IsSound os registry requests m.state.journal m keyed sound
      (record { disk = disk; ordered = sound.entries; owns = λ id h. h })).0
apply_owned_batch_fast-synced os registry requests m keyed sound (inr (gone, empty)) =
    let kept =
      owned-Covers os registry keyed m.state.journal requests m (ensure_mutation_ready m.state)
        sound.entries (record { ordered = sound.entries; owns = λ id h. h }) in
    let (more, grown, claims) = kept.writes in
    let none_made = no_claims m.state.journal more (no_entries m.state.journal empty) claims in
    record {
      entries = kept.journal sound.entries;
      covered = subst IsCovered (sym (grown ∙ ap (λ es. es ++ m.trace) none_made)) sound.covered;
    }
