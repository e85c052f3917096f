-- ===== src/Actuator/Restore/Intents.antt =====
-- The first loop of `restore_targets` in crates/uperf-actuator/src/lib.rs.
use uperf_linux_rev.Base.Maps.{get, insert, get-insert_here, get-insert_there}
use uperf_linux_rev.Base.Text.{Text, text_key}
use uperf_linux_rev.Base.{
  ◌≡◌, refl, sym, ◌∙◌, subst, inl, inr, true, false, Option, none, some, List, [], ◌∷◌, Bool-cases,
  Result, ok, err, All, elim-cases,
}
use uperf_linux_rev.Actuator.Batch.{TargetRegistry, update_entry, with_entry}
use uperf_linux_rev.Actuator.Batch.Entries.{
  HasEntry, IsEntryFor, IsJournalFor, IsListed, IsRegistry,
}
use uperf_linux_rev.Actuator.Errors.{ActuatorError, Reason, constrained_claim, target_missing}
use uperf_linux_rev.Actuator.Fast.Owned.{put-IsJournalFor}
use uperf_linux_rev.Actuator.Journal.{Journal, JournalEntry}
use uperf_linux_rev.Actuator.Machine.{
  Action, Machine, Platform, bind_result, degrade, get_state, pure, set_journal, ◌>>=◌, ◌>>◌,
}
use uperf_linux_rev.Actuator.Restore.{Restoration, entries_of, intend, prepend_entry, returning}
use uperf_linux_rev.Actuator.Target.{FrequencyTarget, hardware_limits}
use uperf_linux_rev.Actuator.Writes.Legal.{transaction_legal_pairs-ends}
use uperf_linux_rev.Core.Units.{same_limits}

-- Each entry stands under its target's id.
abbrev pub IsIndexed : Journal → Type 0
IsIndexed j = (id : Text) (e : JournalEntry) → get id j.entries ≡ some e → e.target ≡ id

-- How the loop ends: nothing is written, and what is to be restored is listed and owned.
pub data Intended {W : Type 0} (registry : TargetRegistry) (m : Machine W)
    : Result ActuatorError Restoration × Machine W → Type 0 where
  refused :
      (e : ActuatorError) (n : Machine W)
      → n.trace ≡ m.trace
      → IsJournalFor registry n.state.journal
      → Intended registry m (err e, n)
  intended :
      (rs : Restoration) (n : Machine W)
      → n.trace ≡ m.trace
      → IsJournalFor registry n.state.journal
      → All (λ r. IsListed registry r.1 × HasEntry r.1.id n.state.journal) rs
      → ((id : Text) → HasEntry id m.state.journal → HasEntry id n.state.journal)
      → Intended registry m (ok rs, n)

returning_keeps :
    (e d : JournalEntry) (t : FrequencyTarget) → IsEntryFor t d → IsEntryFor t (returning e d)
returning_keeps e d t own = record {
  named = own.named;
  low = own.low;
  high = own.high;
  origin = own.origin;
  legal = (transaction_legal_pairs-ends e.desired e.original).0;
}

module _ (registry : TargetRegistry) where
  returned-IsJournalFor :
      (e : JournalEntry) (id : Text) (j : Journal) (o : Option JournalEntry)
      → get id j.entries ≡ o
      → IsJournalFor registry j
      → IsJournalFor registry (update_entry id (returning e) j o)
  returned-IsJournalFor e id j none at inv = inv
  returned-IsJournalFor e id j (some d) at inv =
      put-IsJournalFor registry j id (returning e d)
        (λ t listed. returning_keeps e d t (inv id t d listed at)) inv

insert-HasEntry :
    (j : Journal) (k id : Text) (e : JournalEntry)
    → HasEntry id j
    → HasEntry id (record j { entries = insert k e j.entries })
unfolding HasEntry
insert-HasEntry j k id e (d, h) = elim (Bool-cases (text_key.same k id)) [
  | inl same ↦ (
    e,
    subst (λ x. get x (insert k e j.entries) ≡ some e) ((text_key.same_iff k id).0 same)
        (get-insert_here k e j.entries),
  )
  | inr apart ↦ (d, get-insert_there k id e j.entries apart ∙ h)
]

returned-HasEntry :
    (e : JournalEntry) (k id : Text) (j : Journal) (o : Option JournalEntry)
    → HasEntry id j
    → HasEntry id (update_entry k (returning e) j o)
returned-HasEntry e k id j none h = h
returned-HasEntry e k id j (some d) h = insert-HasEntry j k id (returning e d) h

-- The collected entries stand in the journal.
pub entries_of-HasEntry :
    (ids : List Text) (j : Journal)
    → IsIndexed j
    → All (λ e. HasEntry e.target j) (entries_of ids j)
unfolding entries_of HasEntry
entries_of-HasEntry [] j keyed = tt
entries_of-HasEntry (id ∷ ids) j keyed =
    go (get id j.entries) refl (entries_of-HasEntry ids j keyed)
  where
    go :
        (o : Option JournalEntry)
        → get id j.entries ≡ o
        → All (λ e. HasEntry e.target j) (entries_of ids j)
        → All (λ e. HasEntry e.target j) (prepend_entry o (entries_of ids j))
    go none at rest = rest
    go (some e) at rest =
        ((e, subst (λ x. get x j.entries ≡ some e) (sym (keyed id e at)) at), rest)

module _ {W : Type 0} (os : Platform W) (registry : TargetRegistry)
    (named : IsRegistry registry) where
  later_HasEntry :
      (es : List JournalEntry) (j k : Journal)
      → ((id : Text) → HasEntry id j → HasEntry id k)
      → All (λ e. HasEntry e.target j) es
      → All (λ e. HasEntry e.target k) es
  later_HasEntry [] j k h have = tt
  later_HasEntry (e ∷ es) j k h have = (h e.target have.0, later_HasEntry es j k h have.1)

  -- One more entry in front.
  adding :
      (e : JournalEntry) (t : FrequencyTarget) (m n : Machine W)
      (out : Result ActuatorError Restoration × Machine W)
      → n.trace ≡ m.trace
      → ((id : Text) → HasEntry id m.state.journal → HasEntry id n.state.journal)
      → IsListed registry t
      → HasEntry t.id n.state.journal
      → Intended registry n out
      → Intended registry m (bind_result out λ rs. pure ((e, t) ∷ rs))
  adding e t m n _ trace owns listed have (refused x k same inv) = refused x k (same ∙ trace) inv
  adding e t m n _ trace owns listed have (intended rs k same inv rest keeps) =
      intended ((e, t) ∷ rs) k (same ∙ trace) inv ((listed, keeps t.id have), rest)
        (λ id h. keeps id (owns id h))

  giving_up :
      (reason : Reason) (m : Machine W)
      → IsJournalFor registry m.state.journal
      → Intended registry m (degrade reason m)
  unfolding degrade
  giving_up reason m inv = refused _ _ refl inv

  abbrev branch : JournalEntry → List JournalEntry → Option FrequencyTarget → Action W Restoration
  branch e es o = elim o [
    | none ↦ degrade target_missing
    | some t ↦ elim (same_limits e.original (hardware_limits t)) [
      | false ↦ degrade constrained_claim
      | true ↦ do
        s ← get_state
        set_journal (with_entry e.target (returning e) s.journal)
        rs ← intend os registry es
        pure ((e, t) ∷ rs)
    ]
  ]

  branch-Intended :
      (e : JournalEntry) (es : List JournalEntry) (m : Machine W) (o : Option FrequencyTarget)
      → get e.target registry ≡ o
      → IsJournalFor registry m.state.journal
      → All (λ d. HasEntry d.target m.state.journal) (e ∷ es)
      → ((n : Machine W)
          → IsJournalFor registry n.state.journal
          → All (λ d. HasEntry d.target n.state.journal) es
          → Intended registry n (intend os registry es n))
      → Intended registry m (branch e es o m)
  branch-Intended e es m none at inv have rest = giving_up target_missing m inv
  branch-Intended e es m (some t) at inv have rest =
      let j = m.state.journal in
      let k = with_entry e.target (returning e) j in
      let n = record m { state = record m.state { journal = k } } in
      let eq : t.id ≡ e.target = named e.target t at in
      let owns = λ (id : Text) (h : HasEntry id j).
        returned-HasEntry e e.target id j (get e.target j.entries) h in
      elim-cases (λ (a : Action W Restoration). Intended registry m (a m))
        (same_limits e.original (hardware_limits t))
        (get_state >>= λ s.
          set_journal (with_entry e.target (returning e) s.journal)
          >> (intend os registry es >>= λ rs. pure ((e, t) ∷ rs)))
        (degrade constrained_claim)
        (λ whole.
          adding e t m n _ refl owns (subst (λ x. get x registry ≡ some t) (sym eq) at)
            (subst (λ x. HasEntry x k) (sym eq) (owns e.target have.0))
            (rest n (returned-IsJournalFor registry e e.target j (get e.target j.entries) refl inv)
              (later_HasEntry es j k owns have.1)))
        (λ part. giving_up constrained_claim m inv)

  pub intend-Intended :
      (es : List JournalEntry) (m : Machine W)
      → IsJournalFor registry m.state.journal
      → All (λ e. HasEntry e.target m.state.journal) es
      → Intended registry m (intend os registry es m)
  unfolding intend
  intend-Intended [] m inv have = intended [] m refl inv tt (λ id h. h)
  intend-Intended (e ∷ es) m inv have =
      branch-Intended e es m (get e.target registry) refl inv have (intend-Intended es)
