-- ===== src/Actuator/Fast/Owned.antt =====
-- The entries that `apply_owned_batch_fast` moves and puts back.
use uperf_linux_rev.Base.Maps.{get, insert, get-insert_here, get-insert_there}
use uperf_linux_rev.Base.Text.{Text, text_key}
use uperf_linux_rev.Base.{
  ◌≡◌, refl, sym, ◌∙◌, subst, inl, inr, true, Option, none, some, List, [], ◌∷◌, arith, Bool-cases,
  Result, ok, err, All, ok-injective, ok-ne-err, elim-cases,
}
use uperf_linux_rev.Actuator.Batch.{TargetRegistry}
use uperf_linux_rev.Actuator.Batch.Durable.{ClaimedWrite, durable}
use uperf_linux_rev.Actuator.Batch.Entries.{HasEntry, IsEntryFor, IsJournalFor}
use uperf_linux_rev.Actuator.Errors.{ActuatorError}
use uperf_linux_rev.Actuator.Fast.{entries_before, keep_entry, put_back}
use uperf_linux_rev.Actuator.Io.{PreparedFrequencyMutation}
use uperf_linux_rev.Actuator.Journal.{Journal, JournalEntry}
use uperf_linux_rev.Actuator.Machine.{Machine}
use uperf_linux_rev.Actuator.Machine.Rules.{Emits}
use uperf_linux_rev.Actuator.Target.{FrequencyTarget}

-- A journal of the registry's targets with an entry wherever the one in memory has one.
pub record IsOwner {W : Type 0} (registry : TargetRegistry) (held : Journal) (m : Machine W)
    : Type 0 where
  pub ordered : IsJournalFor registry held
  pub owns : (id : Text) → HasEntry id m.state.journal → HasEntry id held

-- The disk holds such a journal.
pub record IsAnchored {W : Type 0} (registry : TargetRegistry) (held : Journal) (m : Machine W)
    : Type 0 where
  pub disk : durable m.trace ≡ some held
  pub ordered : IsJournalFor registry held
  pub owns : (id : Text) → HasEntry id m.state.journal → HasEntry id held

-- What each step keeps.
pub record Covers {W : Type 0} (registry : TargetRegistry) (held : Journal) (m n : Machine W)
    : Type 0 where
  pub journal : IsJournalFor registry m.state.journal → IsJournalFor registry n.state.journal
  pub writes : Emits (ClaimedWrite held) m n

-- An entry that may stand under the id.
abbrev pub FitsUnder : TargetRegistry → Text × JournalEntry → Type 0
FitsUnder registry saved =
    (t : FrequencyTarget) → get saved.0 registry ≡ some t → IsEntryFor t saved.1

some_same : {A : Type 0} (a b : A) → some a ≡ some b → a ≡ b
some_same a b h = cc

module _ (registry : TargetRegistry) where
  pub put-IsJournalFor :
      (j : Journal) (id : Text) (e : JournalEntry)
      → FitsUnder registry (id, e)
      → IsJournalFor registry j
      → IsJournalFor registry (record j { entries = insert id e j.entries })
  put-IsJournalFor j id e fits inv k t d at found = elim (Bool-cases (text_key.same id k)) [
    | inl same ↦
        let eq : id ≡ k = (text_key.same_iff id k).0 same in
        let here : get k (insert id e j.entries) ≡ some e =
          subst (λ x. get x (insert id e j.entries) ≡ some e) eq (get-insert_here id e j.entries) in
        subst (IsEntryFor t) (some_same e d (sym here ∙ found))
          (fits t (subst (λ x. get x registry ≡ some t) (sym eq) at))
    | inr other ↦ inv k t d at (sym (get-insert_there id k e j.entries other) ∙ found)
  ]

  pub put_back-IsJournalFor :
      (saved : List (Text × JournalEntry)) (j : Journal)
      → All (FitsUnder registry) saved
      → IsJournalFor registry j
      → IsJournalFor registry (record j { entries = put_back saved j.entries })
  unfolding put_back
  put_back-IsJournalFor [] j fits inv = inv
  put_back-IsJournalFor ((id, e) ∷ saved) j fits inv =
      put_back-IsJournalFor saved (record j { entries = insert id e j.entries }) fits.1
        (put-IsJournalFor j id e fits.0 inv)

  -- What `entries_before` collects stands in the journal, and covers what is to be written.
  abbrev pub IsCollected :
      List PreparedFrequencyMutation → Journal → List (Text × JournalEntry) → Type 0
  IsCollected ps j saved =
      All (λ p. p.needs_write ≡ true → HasEntry p.target.id j) ps
      × All (λ s. get s.0 j.entries ≡ some s.1) saved

  keep_entry-ok :
      (id : Text) (o : Option JournalEntry)
      (rest : Result ActuatorError (List (Text × JournalEntry)))
      (saved : List (Text × JournalEntry))
      → keep_entry id o rest ≡ ok saved
      → (e : JournalEntry) × (es : List (Text × JournalEntry)) × (o ≡ some e)
        × (rest ≡ ok es)
        × (saved ≡ (id, e) ∷ es)
  keep_entry-ok id none rest saved h = absurd (ok-ne-err (sym h))
  keep_entry-ok id (some e) (err x) saved h = absurd (ok-ne-err (sym h))
  keep_entry-ok id (some e) (ok es) saved h = (e, es, refl, refl, sym (ok-injective h))

  pub entries_before-IsCollected :
      (ps : List PreparedFrequencyMutation) (j : Journal) (saved : List (Text × JournalEntry))
      → entries_before ps j ≡ ok saved
      → IsCollected ps j saved
  unfolding entries_before HasEntry
  entries_before-IsCollected [] j saved h =
      (tt, subst (All (λ s. get s.0 j.entries ≡ some s.1)) (ok-injective h) tt)
  entries_before-IsCollected (p ∷ ps) j saved given_ok =
      elim-cases (λ r. r ≡ ok saved → IsCollected (p ∷ ps) j saved) p.needs_write
        (keep_entry p.target.id (get p.target.id j.entries) (entries_before ps j))
        (entries_before ps j)
        (λ wanted h.
          let (e, es, found, rest, eq) =
            keep_entry-ok p.target.id (get p.target.id j.entries) (entries_before ps j) saved h in
          let (have, stand) = entries_before-IsCollected ps j es rest in
          (
            (λ w. (e, found), have),
            subst (All (λ s. get s.0 j.entries ≡ some s.1)) (sym eq) (found, stand),
          ))
        (λ idle h.
          let (have, stand) = entries_before-IsCollected ps j saved h in
          ((λ wanted. absurd (ground (arith, idle, wanted)), have), stand))
        given_ok

  pub fitting :
      (j : Journal) (saved : List (Text × JournalEntry))
      → IsJournalFor registry j
      → All (λ s. get s.0 j.entries ≡ some s.1) saved
      → All (FitsUnder registry) saved
  fitting j [] inv h = tt
  fitting j ((id, e) ∷ saved) inv h = (λ t at. inv id t e at h.0, fitting j saved inv h.1)
