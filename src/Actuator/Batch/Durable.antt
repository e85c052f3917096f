-- ===== src/Actuator/Batch/Durable.antt =====
-- What the disk holds along a trace, and which sysfs writes it answers for: `persist_journal` and
-- `apply_batch` of crates/uperf-actuator/src/lib.rs.
use uperf_linux_rev.Base.Maps.{get}
use uperf_linux_rev.Base.Text.{Text, text_key}
use uperf_linux_rev.Base.{◌≡◌, sym, subst, ◌⊎◌, true, Option, none, some, List, [], ◌∷◌, ◌++◌, All}
use uperf_linux_rev.Actuator.Journal.{Journal, JournalEntry, is_empty}
use uperf_linux_rev.Actuator.Machine.{Event, removed, stored, wrote}

-- The journal that a recovery after this trace would find.
unfoldable pub durable : List Event → Option Journal
durable [] = none
durable (wrote path value ∷ older) = durable older
durable (stored j ∷ older) = some j
durable (removed ∷ older) = none

-- The journal has an entry with this path.
abbrev pub ClaimsPath : Journal → Text → Type 0
ClaimsPath j path =
    (id : Text) × (e : JournalEntry) × (get id j.entries ≡ some e)
    × ((path ≡ e.min_path) ⊎ (path ≡ e.max_path))

abbrev pub IsAnswered : Option Journal → Text → Type 0
IsAnswered none path = ⊥
IsAnswered (some j) path = ClaimsPath j path

-- Each write was made while the disk held a journal that claims the path.
abbrev pub IsCovered : List Event → Type 0
unfolding durable
IsCovered [] = Unit {0}
IsCovered (wrote path value ∷ older) = IsAnswered (durable older) path × IsCovered older
IsCovered (stored j ∷ older) = IsCovered older
IsCovered (removed ∷ older) = IsCovered older

pub IsCovered-empty : IsCovered []
unfolding IsCovered
IsCovered-empty = tt

pub IsCovered-stored : (j : Journal) → IsCovered (stored j ∷ [])
unfolding IsCovered
IsCovered-stored j = tt

-- The disk holds this journal, or nothing if the journal is empty.
abbrev pub IsSynced : List Event → Journal → Type 0
IsSynced trace j = (durable trace ≡ some j) ⊎ ((durable trace ≡ none) × (is_empty j ≡ true))

-- A write to a path that the journal claims.
abbrev pub ClaimedWrite : Journal → Event → Type 0
ClaimedWrite j (wrote path value) = ClaimsPath j path
ClaimedWrite j (stored k) = ⊥
ClaimedWrite j removed = ⊥

-- Claimed writes leave the disk as it is, and are covered by it.
pub IsCovered-append :
    (j : Journal) (more older : List Event)
    → All (ClaimedWrite j) more
    → durable older ≡ some j
    → IsCovered older
    → (durable (more ++ older) ≡ some j) × IsCovered (more ++ older)
unfolding durable
IsCovered-append j [] older h d c = (d, c)
IsCovered-append j (wrote path value ∷ more) older (h, hs) d c =
    let rest = IsCovered-append j more older hs d c in
    (rest.0, (subst (λ o. IsAnswered o path) (sym rest.0) h, rest.1))
IsCovered-append j (stored k ∷ more) older h d c = absurd h.0
IsCovered-append j (removed ∷ more) older h d c = absurd h.0
