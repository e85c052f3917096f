-- ===== src/Actuator/Examples/Fast.antt =====
-- The fast transaction on a rig whose only target is claimed, and a registry of that target.
use uperf_linux_rev.Base.Maps.{insert, contains_key, get}
use uperf_linux_rev.Base.Text.{same_text_iff, same_path, Text, text, text_key, same_text}
use uperf_linux_rev.Base.{
  ◌≡◌, refl, sym, ap, ◌∙◌, subst, ◌≢◌, inl, none, some, [], ◌∷◌, ok, All, if-cases,
}
use uperf_linux_rev.Actuator.Batch.Durable.{IsCovered, IsCovered-stored, durable}
use uperf_linux_rev.Actuator.Batch.Entries.{IsEntryFor, IsJournalFor, IsRegistry}
use uperf_linux_rev.Actuator.Batch.Registry.{
  new_registry, new_registry-IsRegistry, register, register_all,
}
use uperf_linux_rev.Actuator.Batch.Safety.{IsSound}
use uperf_linux_rev.Actuator.Examples.Rig.{
  Rig, cpu, fresh, full_range, high_path, low_path, one_cpu, one_cpu-IsRegistry, rig_platform,
  slow_down,
}
use uperf_linux_rev.Actuator.Fast.{apply_owned_batch_fast}
use uperf_linux_rev.Actuator.Fast.Owned.{IsAnchored}
use uperf_linux_rev.Actuator.Fast.Safety.{apply_owned_batch_fast-IsSound}
use uperf_linux_rev.Actuator.Journal.{
  Journal, JournalEntry, blank, frequency_pair, recovery_manifest,
}
use uperf_linux_rev.Actuator.Machine.{Machine, stored}
use uperf_linux_rev.Actuator.Restore.{restore_targets}
use uperf_linux_rev.Actuator.Restore.Intents.{IsIndexed}
use uperf_linux_rev.Actuator.Restore.Safety.{restore_targets-IsSound}
use uperf_linux_rev.Actuator.Target.{FrequencyTarget}

abbrev owned_entry : JournalEntry
owned_entry = record {
  target = text "c";
  min_path = low_path;
  max_path = high_path;
  resource_manifest = frequency_pair (recovery_manifest cpu);
  original = full_range;
  desired = full_range;
  applied = full_range;
  legal_pairs = full_range ∷ [];
}

abbrev pub owning : Journal
owning = record (blank (text "boot") (text "device") 1) { entries = (text "c", owned_entry) ∷ [] }

abbrev pub claimed_rig : Machine Rig
claimed_rig = record fresh {
  state = record fresh.state { journal = owning };
  trace = stored owning ∷ [];
}

none-ne-any : {A : Type 0} (a : A) → none ≢ some a
none-ne-any a h = cc

some-inj : {A : Type 0} (a b : A) → some a ≡ some b → a ≡ b
some-inj a b h = cc

get-single : {A : Type 0} (k id : Text) (v w : A) → get id ((k, v) ∷ []) ≡ some w → v ≡ w
unfolding get
get-single k id v w =
    if-cases (λ o. o ≡ some w → v ≡ w) (same_text k id) (some v) none (λ same. some-inj v w)
      (λ other h. absurd (none-ne-any w h))

get-key : {A : Type 0} (k id : Text) (v w : A) → get id ((k, v) ∷ []) ≡ some w → k ≡ id
unfolding get
get-key k id v w =
    if-cases (λ o. o ≡ some w → k ≡ id) (same_text k id) (some v) none
      (λ same h. (same_text_iff k id).0 same) (λ apart h. absurd (none-ne-any w h))

cpu-IsEntryFor : IsEntryFor cpu owned_entry
cpu-IsEntryFor = record { named = refl; low = refl; high = refl; origin = refl; legal = inl refl }

pub owning-IsJournalFor : IsJournalFor one_cpu owning
owning-IsJournalFor id t e listed found =
    subst (λ (x : FrequencyTarget × JournalEntry). IsEntryFor x.0 x.1)
      (λ i.
        (get-single (text "c") id cpu t listed i, get-single (text "c") id owned_entry e found i))
      cpu-IsEntryFor

pub owning-IsCovered : IsCovered claimed_rig.trace
owning-IsCovered = IsCovered-stored owning

owning-IsAnchored : IsAnchored one_cpu owning claimed_rig
unfolding durable
owning-IsAnchored = record { disk = refl; ordered = owning-IsJournalFor; owns = λ id h. h }

apply_owned_batch_fast-IsSound_example :
    IsSound one_cpu (apply_owned_batch_fast rig_platform one_cpu slow_down claimed_rig).1
    × (durable (apply_owned_batch_fast rig_platform one_cpu slow_down claimed_rig).1.trace
        ≡ some owning)
apply_owned_batch_fast-IsSound_example =
    apply_owned_batch_fast-IsSound rig_platform one_cpu slow_down owning claimed_rig
      one_cpu-IsRegistry (record { entries = owning-IsJournalFor; covered = owning-IsCovered })
      owning-IsAnchored

registered : new_registry (cpu ∷ []) ≡ ok one_cpu
unfolding new_registry register_all register contains_key same_path insert
registered = refl

new_registry-IsRegistry_example :
    IsRegistry one_cpu × All (λ t. get t.id one_cpu ≡ some t) (cpu ∷ [])
new_registry-IsRegistry_example = new_registry-IsRegistry (cpu ∷ []) one_cpu registered

pub owning-IsIndexed : IsIndexed owning
owning-IsIndexed id e found =
    ap (λ (d : JournalEntry). d.target) (sym (get-single (text "c") id owned_entry e found))
    ∙ get-key (text "c") id owned_entry e found

restore_targets-IsSound_example :
    IsSound one_cpu (restore_targets rig_platform one_cpu (text "c" ∷ []) claimed_rig).1
restore_targets-IsSound_example =
    restore_targets-IsSound rig_platform one_cpu (text "c" ∷ []) claimed_rig one_cpu-IsRegistry
      owning-IsIndexed (record { entries = owning-IsJournalFor; covered = owning-IsCovered })
