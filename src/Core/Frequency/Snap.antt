-- ===== src/Core/Frequency/Snap.antt =====
-- `snap_up` and `snap_down` of crates/uperf-core/src/policy.rs.
use uperf_linux_rev.Base.{
  ℕ, ◌≤◌, ◌<◌, ◌≡◌, Option, none, some, List, [], ◌∷◌, arith, leb, leb→le, keep, All, In, In-keep,
}
use uperf_linux_rev.Core.Sorting.{IsLeast, IsGreatest, least-IsLeast, greatest-IsGreatest}
use uperf_linux_rev.Core.Frequency.{snap_up, snap_down}

-- The greatest member at or below `r`; `none` only if every member is above it.
abbrev pub IsSnapDown : List ℕ → ℕ → Option ℕ → Type 0
IsSnapDown opps r none = All (λ f. r < f) opps
IsSnapDown opps r (some m) = In m opps × (m ≤ r) × All (λ f. f ≤ r → f ≤ m) opps

abbrev pub IsSnapUp : List ℕ → ℕ → Option ℕ → Type 0
IsSnapUp opps r none = All (λ f. f < r) opps
IsSnapUp opps r (some m) = In m opps × (r ≤ m) × All (λ f. r ≤ f → m ≤ f) opps

none_below : (r : ℕ) (opps : List ℕ) → keep (λ f. leb f r) opps ≡ [] → All (λ f. r < f) opps
none_below r [] e = tt
none_below r (x ∷ xs) e = ground (arith, none_below r xs)

none_above : (r : ℕ) (opps : List ℕ) → keep (λ f. leb r f) opps ≡ [] → All (λ f. f < r) opps
none_above r [] e = tt
none_above r (x ∷ xs) e = ground (arith, none_above r xs)

kept_below :
    (r m : ℕ) (opps : List ℕ)
    → All (λ x. x ≤ m) (keep (λ f. leb f r) opps)
    → All (λ f. f ≤ r → f ≤ m) opps
kept_below r m [] h = tt
kept_below r m (x ∷ xs) h = (λ k. ground arith, kept_below r m xs (ground arith))

kept_above :
    (r m : ℕ) (opps : List ℕ)
    → All (λ x. m ≤ x) (keep (λ f. leb r f) opps)
    → All (λ f. r ≤ f → m ≤ f) opps
kept_above r m [] h = tt
kept_above r m (x ∷ xs) h = (λ k. ground arith, kept_above r m xs (ground arith))

IsSnapDown-of :
    (opps : List ℕ) (r : ℕ) (o : Option ℕ)
    → IsGreatest (keep (λ f. leb f r) opps) o
    → IsSnapDown opps r o
IsSnapDown-of opps r none h = none_below r opps h
IsSnapDown-of opps r (some m) h =
    let (member, test) = In-keep (λ f. leb f r) opps m h.0 in
    (member, leb→le m r test, kept_below r m opps h.1)

IsSnapUp-of :
    (opps : List ℕ) (r : ℕ) (o : Option ℕ)
    → IsLeast (keep (λ f. leb r f) opps) o
    → IsSnapUp opps r o
IsSnapUp-of opps r none h = none_above r opps h
IsSnapUp-of opps r (some m) h =
    let (member, test) = In-keep (λ f. leb r f) opps m h.0 in
    (member, leb→le r m test, kept_above r m opps h.1)

-- `snap_down` returns the greatest operating point at or below the request, and `none` exactly
-- when every one lies above it.
pub snap_down-IsSnapDown : (opps : List ℕ) (r : ℕ) → IsSnapDown opps r (snap_down opps r)
unfolding snap_down
snap_down-IsSnapDown opps r = IsSnapDown-of opps r _ (greatest-IsGreatest _)

pub snap_up-IsSnapUp : (opps : List ℕ) (r : ℕ) → IsSnapUp opps r (snap_up opps r)
unfolding snap_up
snap_up-IsSnapUp opps r = IsSnapUp-of opps r _ (least-IsLeast _)
