-- ===== src/Actuator/Batch/Entries.antt =====
-- The journal entries that `apply_batch` of crates/uperf-actuator/src/lib.rs makes and changes.
use uperf_linux_rev.Base.Maps.{get-insert_there}
use uperf_linux_rev.Base.Maps.{get-insert_here}
use uperf_linux_rev.Base.Maps.{get, insert}
use uperf_linux_rev.Base.Text.{Text, text_key}
use uperf_linux_rev.Base.{
  ◌≡◌, refl, sym, ap, ◌∙◌, subst, inl, inr, true, Option, none, some, List, [], ◌∷◌, arith,
  if◌then◌else◌, Bool-cases, some_or, All, In, if-cases,
}
use uperf_linux_rev.Actuator.Batch.{
  TargetRegistry, claim_all, claim_one, fresh_entry, moving, reached, update_entry, with_entry,
}
use uperf_linux_rev.Actuator.Batch.Durable.{ClaimsPath}
use uperf_linux_rev.Actuator.Io.{PreparedFrequencyMutation}
use uperf_linux_rev.Actuator.Io.Frame.{Reaches}
use uperf_linux_rev.Actuator.Journal.{Journal, JournalEntry}
use uperf_linux_rev.Actuator.Target.{FrequencyTarget, hardware_limits}
use uperf_linux_rev.Actuator.Writes.Legal.{transaction_legal_pairs-ends}
use uperf_linux_rev.Core.Units.{FrequencyLimits}

-- The registry keeps each target under its id.
abbrev pub IsRegistry : TargetRegistry → Type 0
IsRegistry registry = (id : Text) (t : FrequencyTarget) → get id registry ≡ some t → t.id ≡ id

-- An entry of a target: its paths, the hardware range as the value to restore, and a current value
-- that is legal.
pub record IsEntryFor (t : FrequencyTarget) (e : JournalEntry) : Type 0 where
  pub named : e.target ≡ t.id
  pub low : e.min_path ≡ t.min_path
  pub high : e.max_path ≡ t.max_path
  pub origin : e.original ≡ hardware_limits t
  pub legal : In e.applied e.legal_pairs

abbrev pub IsJournalFor : TargetRegistry → Journal → Type 0
IsJournalFor registry j =
    (id : Text) (t : FrequencyTarget) (e : JournalEntry)
    → get id registry ≡ some t
    → get id j.entries ≡ some e
    → IsEntryFor t e

pub some_injective : {A : Type 0} (a b : A) → some a ≡ some b → a ≡ b
some_injective a b h = cc

IsEntryFor-subst :
    (t u : FrequencyTarget) (e d : JournalEntry) → t ≡ u → e ≡ d → IsEntryFor t e → IsEntryFor u d
IsEntryFor-subst t u e d p q own =
    subst (λ (x : FrequencyTarget × JournalEntry). IsEntryFor x.0 x.1) (λ i. (p i, q i)) own

module _ (registry : TargetRegistry) where
  -- The target is the registry's.
  abbrev pub IsListed : FrequencyTarget → Type 0
  IsListed t = get t.id registry ≡ some t

  IsJournalFor-insert :
      (j : Journal) (t : FrequencyTarget) (e : JournalEntry)
      → IsListed t
      → IsEntryFor t e
      → IsJournalFor registry j
      → IsJournalFor registry (record j { entries = insert t.id e j.entries })
  IsJournalFor-insert j t e listed own inv id u d at found =
      elim (Bool-cases (text_key.same t.id id)) [
        | inl same ↦
            let eq : t.id ≡ id = (text_key.same_iff t.id id).0 same in
            let same_target : get t.id registry ≡ some u = ap (λ x. get x registry) eq ∙ at in
            let same_entry : get id (insert t.id e j.entries) ≡ some e =
              subst (λ x. get x (insert t.id e j.entries) ≡ some e) eq
                (get-insert_here t.id e j.entries) in
            IsEntryFor-subst t u e d (some_injective t u (sym listed ∙ same_target))
              (some_injective e d (sym same_entry ∙ found)) own
        | inr other ↦ inv id u d at (sym (get-insert_there t.id id e j.entries other) ∙ found)
      ]

  fresh-IsEntryFor : (p : PreparedFrequencyMutation) → IsEntryFor p.target (fresh_entry p)
  fresh-IsEntryFor p = record {
    named = refl;
    low = refl;
    high = refl;
    origin = refl;
    legal = inl refl;
  }

  moving-IsEntryFor :
      (t : FrequencyTarget) (e : JournalEntry) (from to : FrequencyLimits)
      → IsEntryFor t e
      → IsEntryFor t (moving e from to)
  moving-IsEntryFor t e from to own = record {
    named = own.named;
    low = own.low;
    high = own.high;
    origin = own.origin;
    legal = (transaction_legal_pairs-ends from to).0;
  }

  reached-IsEntryFor :
      (t : FrequencyTarget) (e : JournalEntry) (actual : FrequencyLimits)
      → IsEntryFor t e
      → IsEntryFor t (reached e actual)
  reached-IsEntryFor t e actual own = record {
    named = own.named;
    low = own.low;
    high = own.high;
    origin = own.origin;
    legal = inl refl;
  }

  chosen-IsEntryFor :
      (p : PreparedFrequencyMutation) (o : Option JournalEntry)
      → ((e : JournalEntry) → o ≡ some e → IsEntryFor p.target e)
      → IsEntryFor p.target (some_or o (fresh_entry p))
  chosen-IsEntryFor p none h = fresh-IsEntryFor p
  chosen-IsEntryFor p (some e) h = h e refl

  claim_one-IsJournalFor :
      (p : PreparedFrequencyMutation) (j : Journal)
      → IsListed p.target
      → IsJournalFor registry j
      → IsJournalFor registry (claim_one p j)
  unfolding claim_one
  claim_one-IsJournalFor p j listed inv =
      let old = get p.target.id j.entries in
      IsJournalFor-insert j p.target
        (moving (some_or old (fresh_entry p)) p.previous_request p.desired_request) listed
        (moving-IsEntryFor p.target (some_or old (fresh_entry p)) p.previous_request
          p.desired_request
          (chosen-IsEntryFor p old λ e found. inv p.target.id p.target e listed found))
        inv

  pub claim_all-IsJournalFor :
      (ps : List PreparedFrequencyMutation) (j : Journal)
      → All (λ p. IsListed p.target) ps
      → IsJournalFor registry j
      → IsJournalFor registry (claim_all ps j)
  unfolding claim_all
  claim_all-IsJournalFor [] j listed inv = inv
  claim_all-IsJournalFor (p ∷ ps) j listed inv =
      claim_all-IsJournalFor ps (if p.needs_write then claim_one p j else j) listed.1 (
        if-cases (IsJournalFor registry) p.needs_write (claim_one p j) j
          (λ wanted. claim_one-IsJournalFor p j listed.0 inv) (λ idle. inv))

  update-IsJournalFor :
      (t : FrequencyTarget) (actual : FrequencyLimits) (j : Journal) (o : Option JournalEntry)
      → get t.id j.entries ≡ o
      → IsListed t
      → IsJournalFor registry j
      → IsJournalFor registry (update_entry t.id (λ e. reached e actual) j o)
  update-IsJournalFor t actual j none at listed inv = inv
  update-IsJournalFor t actual j (some e) at listed inv =
      IsJournalFor-insert j t (reached e actual) listed
        (reached-IsEntryFor t e actual (inv t.id t e listed at)) inv

  pub reached-IsJournalFor :
      (t : FrequencyTarget) (actual : FrequencyLimits) (j : Journal)
      → IsListed t
      → IsJournalFor registry j
      → IsJournalFor registry (with_entry t.id (λ e. reached e actual) j)
  reached-IsJournalFor t actual j = update-IsJournalFor t actual j (get t.id j.entries) refl

-- The journal has an entry under this id.
unfoldable pub HasEntry : Text → Journal → Type 0
HasEntry id j = (e : JournalEntry) × (get id j.entries ≡ some e)

-- A claim keeps every entry's place.
claim_one-keeps :
    (p : PreparedFrequencyMutation) (j : Journal) (id : Text)
    → HasEntry id j
    → HasEntry id (claim_one p j)
unfolding claim_one HasEntry
claim_one-keeps p j id (e, h) =
    let new =
      moving (some_or (get p.target.id j.entries) (fresh_entry p)) p.previous_request
        p.desired_request in
    elim (Bool-cases (text_key.same p.target.id id)) [
      | inl same ↦ (
        new,
        subst (λ x. get x (insert p.target.id new j.entries) ≡ some new)
            ((text_key.same_iff p.target.id id).0 same) (get-insert_here p.target.id new j.entries),
      )
      | inr other ↦ (e, get-insert_there p.target.id id new j.entries other ∙ h)
    ]

claim_one-adds :
    (p : PreparedFrequencyMutation) (j : Journal) → HasEntry p.target.id (claim_one p j)
unfolding claim_one HasEntry
claim_one-adds p j = (_, get-insert_here p.target.id _ j.entries)

claim_all-keeps :
    (ps : List PreparedFrequencyMutation) (j : Journal) (id : Text)
    → HasEntry id j
    → HasEntry id (claim_all ps j)
unfolding claim_all
claim_all-keeps [] j id h = h
claim_all-keeps (p ∷ ps) j id h =
    claim_all-keeps ps (if p.needs_write then claim_one p j else j) id (
      if-cases (HasEntry id) p.needs_write (claim_one p j) j (λ wanted. claim_one-keeps p j id h)
        (λ idle. h))

claim_all-adds :
    (ps : List PreparedFrequencyMutation) (j : Journal)
    → All (λ p. p.needs_write ≡ true → HasEntry p.target.id (claim_all ps j)) ps
unfolding claim_all
claim_all-adds [] j = tt
claim_all-adds (p ∷ ps) j = (
  λ wanted. claim_all-keeps ps (if p.needs_write then claim_one p j else j) p.target.id (
      if-cases (HasEntry p.target.id) p.needs_write (claim_one p j) j (λ again. claim_one-adds p j)
        (λ idle. absurd (ground (arith, wanted, idle)))),
  claim_all-adds ps (if p.needs_write then claim_one p j else j),
)

-- The journal answers for both files of each target that is to be written.
abbrev pub AreClaimed : Journal → List PreparedFrequencyMutation → Type 0
AreClaimed j ps = All (λ p. p.needs_write ≡ true → Reaches (ClaimsPath j) p.target) ps

pub claimed :
    (registry : TargetRegistry) (j : Journal) (ps : List PreparedFrequencyMutation)
    → IsJournalFor registry j
    → All (λ p. IsListed registry p.target) ps
    → All (λ p. p.needs_write ≡ true → HasEntry p.target.id j) ps
    → AreClaimed j ps
unfolding HasEntry
claimed registry j [] inv listed have = tt
claimed registry j (p ∷ ps) inv (listed, listed_rest) (have, have_rest) = (
  λ wanted.
      let (e, found) = have wanted in
      let own = inv p.target.id p.target e listed found in
      ((p.target.id, e, found, inl (sym own.low)), (p.target.id, e, found, inr (sym own.high))),
  claimed registry j ps inv listed_rest have_rest,
)

pub claim_all-AreClaimed :
    (registry : TargetRegistry) (ps : List PreparedFrequencyMutation) (j : Journal)
    → IsJournalFor registry j
    → All (λ p. IsListed registry p.target) ps
    → AreClaimed (claim_all ps j) ps
claim_all-AreClaimed registry ps j inv listed =
    claimed registry (claim_all ps j) ps (claim_all-IsJournalFor registry ps j listed inv) listed
      (claim_all-adds ps j)
