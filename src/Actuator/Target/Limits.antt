-- ===== src/Actuator/Target/Limits.antt =====
-- `FrequencyTarget::new`, `with_hertz_per_unit` and `snap_limits` of crates/uperf-
-- actuator/src/lib.rs.
use mathlib.Core.Path.{ap₂}
use uperf_linux_rev.Base.Words.{is_multiple_of}
use uperf_linux_rev.Base.Text.{Text, same_path}
use uperf_linux_rev.Base.{
  ℕ, ◌≤◌, ◌<◌, min, ◌≡◌, refl, ap, ◌∙◌, subst, true, false, ◌||◌, Option, none, some, List, [], ◌∷◌,
  arith, ltb, leb, if◌then◌else◌, some_or, Result, ok, err, any, All, All-In, ok_of_guard,
  ok-injective,
}
use uperf_linux_rev.Core.Units.{FrequencyLimits, new_limits}
use uperf_linux_rev.Core.Sorting.{
  IsStrictlySorted, sort_unstable, dedup, dedup-IsStrictlySorted, sort_unstable-IsSorted,
}
use uperf_linux_rev.Core.Frequency.{snap_up, snap_down}
use uperf_linux_rev.Core.Frequency.Snap.{
  IsSnapUp, IsSnapDown, snap_up-IsSnapUp, snap_down-IsSnapDown,
}
use uperf_linux_rev.Actuator.Errors.{ActuatorError, invalid_limits, invalid_target}
use uperf_linux_rev.Actuator.Target.Snap.{find-IsSnapUp, find_rev-IsSnapDown}
use uperf_linux_rev.Actuator.Target.{
  FrequencyTarget, new, snap_limits, snapped, or_reversed, bad_limits, and_then,
  validate_sysfs_path,
}

abbrev pub Whole : ℕ → ℕ → Type 0
Whole unit f = is_multiple_of f unit ≡ true

-- What `new` and `with_hertz_per_unit` establish.
pub record IsTarget (t : FrequencyTarget) : Type 0 where
  pub ordered : t.hardware_min ≤ t.hardware_max
  pub sorted : IsStrictlySorted t.opps
  pub inside : All (λ f. (t.hardware_min ≤ f) × (f ≤ t.hardware_max)) t.opps
  pub unit : 0 < t.hertz_per_unit
  pub whole_min : Whole t.hertz_per_unit t.hardware_min
  pub whole_max : Whole t.hertz_per_unit t.hardware_max
  pub whole_opps : All (Whole t.hertz_per_unit) t.opps

and_then-ok {ℓ κ} :
    {A : Type ℓ} {B : Type κ} (r : Result ActuatorError A) (k : Result ActuatorError B) {b : B}
    → and_then r k ≡ ok b
    → k ≡ ok b
and_then-ok (ok a) k h = h
and_then-ok (err e) k h = cc

inside_of_any :
    (lo hi : ℕ) (xs : List ℕ)
    → any (λ f. ltb f lo || ltb hi f) xs ≡ false
    → All (λ f. (lo ≤ f) × (f ≤ hi)) xs
inside_of_any lo hi [] h = tt
inside_of_any lo hi (x ∷ xs) h = ground (arith, inside_of_any lo hi xs)

Whole-one : (xs : List ℕ) → All (Whole 1) xs
Whole-one [] = tt
Whole-one (x ∷ xs) = (ground arith, Whole-one xs)

-- A target that `new` accepts is well formed: ordered bounds, ascending operating points inside
-- them, and a unit of one hertz.
pub new-IsTarget :
    (id min_path max_path : Text) (lo hi : ℕ) (opps : List ℕ) (t : FrequencyTarget)
    → new id min_path max_path lo hi opps ≡ ok t
    → IsTarget t
unfolding new
new-IsTarget id min_path max_path lo hi opps t e =
    let sorted = dedup (sort_unstable opps) in
    let e₁ = and_then-ok (validate_sysfs_path min_path) _ e in
    let e₂ = and_then-ok (validate_sysfs_path max_path) _ e₁ in
    let (_, e₃) = ok_of_guard (same_path min_path max_path) (invalid_target id) _ e₂ in
    let (ordered, e₄) = ok_of_guard (ltb hi lo) (invalid_limits id lo hi) _ e₃ in
    let (inside, e₅) =
      ok_of_guard (any (λ opp. ltb opp lo || ltb hi opp) sorted) (invalid_target id) _ e₄ in
    subst IsTarget (ok-injective e₅) (record {
      ordered = ground (arith, ordered);
      sorted = dedup-IsStrictlySorted (sort_unstable opps) (sort_unstable-IsSorted opps);
      inside = inside_of_any lo hi sorted inside;
      unit = omega arith;
      whole_min = ground arith;
      whole_max = ground arith;
      whole_opps = Whole-one sorted;
    })

snap_up_unique : (xs : List ℕ) (r : ℕ) (a b : Option ℕ) → IsSnapUp xs r a → IsSnapUp xs r b → a ≡ b
snap_up_unique xs r none none h k = refl
snap_up_unique xs r none (some n) h k = absurd (omega (arith, All-In (λ f. f < r) xs n h k.0, k.1))
snap_up_unique xs r (some m) none h k = absurd (omega (arith, All-In (λ f. f < r) xs m k h.0, h.1))
snap_up_unique xs r (some m) (some n) h k =
    let p = All-In (λ f. r ≤ f → m ≤ f) xs n h.2 k.0 k.1 in
    let q = All-In (λ f. r ≤ f → n ≤ f) xs m k.2 h.0 h.1 in
    let e : m ≡ n = omega (arith, p, q) in ap {B = Option ℕ} some e

snap_down_unique :
    (xs : List ℕ) (r : ℕ) (a b : Option ℕ) → IsSnapDown xs r a → IsSnapDown xs r b → a ≡ b
snap_down_unique xs r none none h k = refl
snap_down_unique xs r none (some n) h k =
    absurd (omega (arith, All-In (λ f. r < f) xs n h k.0, k.1))
snap_down_unique xs r (some m) none h k =
    absurd (omega (arith, All-In (λ f. r < f) xs m k h.0, h.1))
snap_down_unique xs r (some m) (some n) h k =
    let p = All-In (λ f. f ≤ r → f ≤ m) xs n h.2 k.0 k.1 in
    let q = All-In (λ f. f ≤ r → f ≤ n) xs m k.2 h.0 h.1 in
    let e : m ≡ n = omega (arith, p, q) in ap {B = Option ℕ} some e

-- The range that the policy's own snapping functions give on these operating points.
abbrev pub reference_snap : FrequencyTarget → FrequencyLimits → List ℕ → FrequencyLimits
reference_snap t requested opps =
    let hi = some_or (snap_down opps requested.max) t.hardware_min in
    record { min = min (some_or (snap_up opps requested.min) t.hardware_max) hi; max = hi }

or_reversed-ok :
    (t : FrequencyTarget) (lo hi : ℕ)
    → or_reversed t lo hi ≡ ok (record { min = min lo hi; max = hi })
unfolding new_limits
or_reversed-ok t lo hi =
    let e : leb (min lo hi) hi ≡ true = ground arith in rw (e, or_reversed, new_limits)

abbrev range_of : FrequencyTarget → Option ℕ → Option ℕ → Result ActuatorError FrequencyLimits
range_of t a b = ok (record {
  min = min (some_or a t.hardware_max) (some_or b t.hardware_min);
  max = some_or b t.hardware_min;
})

abbrev pub after_snap :
    FrequencyTarget → FrequencyLimits → List ℕ → Result ActuatorError FrequencyLimits
after_snap t requested [] = ok requested
after_snap t requested (o ∷ os) = ok (reference_snap t requested (o ∷ os))

snapped-reference :
    (t : FrequencyTarget) (requested : FrequencyLimits) (opps : List ℕ)
    → IsStrictlySorted opps
    → snapped t requested opps ≡ after_snap t requested opps
unfolding snapped
snapped-reference t requested [] s = refl
snapped-reference t requested (o ∷ os) s =
    let up =
      snap_up_unique (o ∷ os) requested.min _ _ (find-IsSnapUp (o ∷ os) requested.min s)
        (snap_up-IsSnapUp (o ∷ os) requested.min) in
    let down =
      snap_down_unique (o ∷ os) requested.max _ _ (find_rev-IsSnapDown (o ∷ os) requested.max s)
        (snap_down-IsSnapDown (o ∷ os) requested.max) in
    or_reversed-ok t _ _ ∙ ap₂ (range_of t) up down

-- For a well-formed target, `snap_limits` rejects exactly the requests that cannot be written
-- (outside the hardware range, inverted, or not in whole kernel units). Any other request it
-- returns unchanged if no operating point is known, and else as the policy's `snap_up` and
-- `snap_down` snap it: the searches over the ascending points are equivalent to those.
pub snap_limits_equiv :
    (t : FrequencyTarget) (requested : FrequencyLimits)
    → IsTarget t
    → snap_limits t requested ≡ (
        if bad_limits t requested
        then err (invalid_limits t.id requested.min requested.max)
        else after_snap t requested t.opps)
unfolding snap_limits
snap_limits_equiv t requested v =
    ap
      (λ (r : Result ActuatorError FrequencyLimits).
        if bad_limits t requested then err (invalid_limits t.id requested.min requested.max) else r)
      (snapped-reference t requested t.opps v.sorted)
