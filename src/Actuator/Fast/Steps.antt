-- ===== src/Actuator/Fast/Steps.antt =====
-- The steps of `apply_owned_batch_fast` in crates/uperf-actuator/src/lib.rs.
use uperf_linux_rev.Base.Maps.{get}
use uperf_linux_rev.Base.Text.{Text, text_key}
use uperf_linux_rev.Base.{◌≡◌, refl, Option, none, some}
use uperf_linux_rev.Actuator.Batch.{TargetRegistry}
use uperf_linux_rev.Actuator.Batch.Durable.{ClaimedWrite, ClaimsPath}
use uperf_linux_rev.Actuator.Batch.Entries.{IsEntryFor, IsJournalFor}
use uperf_linux_rev.Actuator.Batch.Works.{Works, Works-frame}
use uperf_linux_rev.Actuator.Errors.{Reason}
use uperf_linux_rev.Actuator.Fast.{change_entry, update_owned}
use uperf_linux_rev.Actuator.Fast.Owned.{Covers, put-IsJournalFor}
use uperf_linux_rev.Actuator.Io.Frame.{IsFrame}
use uperf_linux_rev.Actuator.Journal.{Journal, JournalEntry}
use uperf_linux_rev.Actuator.Machine.{
  Action, Machine, Platform, bind_result, degrade, get_state, set_journal, ◌>>=◌, ◌>>◌,
}
use uperf_linux_rev.Actuator.Machine.Rules.{Emits-preorder, IsPreorder, Respects}
use uperf_linux_rev.Actuator.Target.{FrequencyTarget}

module _ {W : Type 0} (registry : TargetRegistry) (held : Journal) where
  pub Covers-preorder : IsPreorder (Covers {W = W} registry held)
  Covers-preorder =
      let emits = Emits-preorder {W = W} (ClaimedWrite held) in
      record {
        self = λ m. record { journal = λ h. h; writes = emits.self m };
        chain = λ a b c h k. record {
          journal = λ i. k.journal (h.journal i);
          writes = emits.chain a b c h.writes k.writes;
        };
      }

  Covers-Works : (m n : Machine W) → Works registry held m n → Covers registry held m n
  Covers-Works m n w = record { journal = w.journal; writes = w.writes }

  pub Covers-frame : (os : Platform W) → IsFrame os (Covers registry held) (ClaimsPath held)
  Covers-frame os =
      let works = Works-frame registry held os in
      record {
        order = Covers-preorder;
        reading = λ path. record { at = λ m. Covers-Works m _ ((works.reading path).at m) };
        writing = λ path value claim. record {
          at = λ m. Covers-Works m _ ((works.writing path value claim).at m);
        };
        clock = record { at = λ m. Covers-Works m _ (works.clock.at m) };
        napping = λ ns. record { at = λ m. Covers-Works m _ ((works.napping ns).at m) };
      }

  -- A new journal that is in order if the old one is.
  stepped :
      (m : Machine W) (j : Journal)
      → (IsJournalFor registry m.state.journal → IsJournalFor registry j)
      → Covers registry held m (record m { state = record m.state { journal = j } })
  stepped m j h = record { journal = h; writes = (Emits-preorder (ClaimedWrite held)).self m }

  pub Covers-modify :
      {A : Type 0} (f : Journal → Journal) (rest : Action W A)
      → ((j : Journal) → IsJournalFor registry j → IsJournalFor registry (f j))
      → Respects (Covers registry held) rest
      → Respects (Covers registry held) (get_state >>= λ s. set_journal (f s.journal) >> rest)
  Covers-modify f rest keeps h = record {
    at = λ m.
        Covers-preorder.chain m _ _ (stepped m (f m.state.journal) (keeps m.state.journal))
          (h.at _);
  }

  changed_entry :
      (m : Machine W) (id : Text) (f : JournalEntry → JournalEntry) (o : Option JournalEntry)
      → get id m.state.journal.entries ≡ o
      → ((e : JournalEntry) (t : FrequencyTarget)
          → get id registry ≡ some t
          → IsEntryFor t e
          → IsEntryFor t (f e))
      → Covers registry held m (bind_result (change_entry id f m.state.journal o, m) set_journal).1
  changed_entry m id f none at keeps = Covers-preorder.self m
  changed_entry m id f (some e) at keeps = stepped m _ λ inv.
      put-IsJournalFor registry m.state.journal id (f e)
        (λ t listed. keeps e t listed (inv id t e listed at)) inv

  pub update_owned-Covers :
      (id : Text) (f : JournalEntry → JournalEntry)
      → ((e : JournalEntry) (t : FrequencyTarget)
          → get id registry ≡ some t
          → IsEntryFor t e
          → IsEntryFor t (f e))
      → (os : Platform W) → Respects (Covers registry held) (update_owned os id f)
  unfolding update_owned
  update_owned-Covers id f keeps os = record {
    at = λ m. changed_entry m id f (get id m.state.journal.entries) refl keeps;
  }

  pub degrade-Covers :
      {A : Type 0} (reason : Reason)
      → Respects (Covers registry held) (degrade {W = W} {A = A} reason)
  unfolding degrade
  degrade-Covers reason = record {
    at = λ m. record { journal = λ h. h; writes = (Emits-preorder (ClaimedWrite held)).self m };
  }
