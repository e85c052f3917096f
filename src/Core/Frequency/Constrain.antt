-- ===== src/Core/Frequency/Constrain.antt =====
-- `constrain_frequency_limits` of crates/uperf-core/src/policy.rs.
use uperf_linux_rev.Base.Words.{is_multiple_of, u64_max}
use uperf_linux_rev.Base.{
  ℕ, ◌≤◌, ◌<◌, max, ◌≡◌, refl, subst, ◌↔◌, ◌⊎◌, inl, inr, true, not, ◌&&◌, Option, none, some, List,
  [], ◌∷◌, arith, leb, leb→le, Bool-cases, Result, ok, err, ok_or, All, In, All-In, In-keep,
  keep-In, ok_of_guard, ok-injective,
}
use uperf_linux_rev.Core.Units.{FrequencyLimits}
use uperf_linux_rev.Core.Errors.{PolicyError, no_opp_at_or_below_cap}
use uperf_linux_rev.Core.Sorting.{least, clamp, In-sort_unstable, In-dedup}
use uperf_linux_rev.Core.Errors.{
  invalid_hardware_limits, invalid_frequency_quantum, reversed_request,
}
use uperf_linux_rev.Core.Units.{is_valid}
use uperf_linux_rev.Core.Frequency.{
  hard_cap, usable_opps, constrained_max, constrained_min, constrain_checked, with_max, at_most_or,
  constrain_frequency_limits, snap_up, snap_down, quantize_down, has_bad_quantum,
}
use uperf_linux_rev.Core.Frequency.Snap.{
  IsSnapUp, IsSnapDown, snap_up-IsSnapUp, snap_down-IsSnapDown,
}
use uperf_linux_rev.Core.Frequency.Rounding.{
  quantize_down-le, quantize_down_multiple, max_multiple, quantize_up_least,
}

-- A cap binds down to the lower hardware bound, and not below it.
abbrev pub Binds : Option ℕ → ℕ → ℕ → Type 0
Binds none lo f = Unit {0}
Binds (some c) lo f = f ≤ max lo c

-- An operating point where any is known, else a whole number of kernel units.
abbrev pub IsReal : List ℕ → ℕ → ℕ → Type 0
IsReal [] q f = is_multiple_of f q ≡ true
IsReal (x ∷ xs) q f = In f (x ∷ xs)

pub record IsConstrained (requested hardware : FrequencyLimits) (admin thermal : Option ℕ)
    (opps : List ℕ) (q : ℕ) (l : FrequencyLimits) : Type 0 where
  pub ordered : l.min ≤ l.max
  pub above_hardware : hardware.min ≤ l.min
  pub below_hardware : l.max ≤ hardware.max
  pub below_request : l.max ≤ max hardware.min requested.max
  pub below_admin : Binds admin hardware.min l.max
  pub below_thermal : Binds thermal hardware.min l.max
  pub floor_kept : (requested.min ≤ l.min) ⊎ (l.min ≡ l.max)
  pub real_min : IsReal opps q l.min
  pub real_max : IsReal opps q l.max

-- The cap lies in the hardware range and below each configured cap, so no `clamp` is out of order.
record IsCap (hardware : FrequencyLimits) (admin thermal : Option ℕ) (cap : ℕ) : Type 0 where
  low : hardware.min ≤ cap
  high : cap ≤ hardware.max
  admin_binds : Binds admin hardware.min cap
  thermal_binds : Binds thermal hardware.min cap

hard_cap-IsCap :
    (hardware : FrequencyLimits) (admin thermal : Option ℕ)
    → hardware.min ≤ hardware.max
    → IsCap hardware admin thermal (hard_cap hardware admin thermal)
unfolding hard_cap least
hard_cap-IsCap hardware none none h = ground arith
hard_cap-IsCap hardware none (some t) h = ground arith
hard_cap-IsCap hardware (some a) none h = ground arith
hard_cap-IsCap hardware (some a) (some t) h = ground arith

abbrev pub InRange : FrequencyLimits → ℕ → Type 0
InRange hardware f = (hardware.min ≤ f) × (f ≤ hardware.max)

-- A usable operating point is a discovered one inside the hardware range, and conversely.
pub In-usable_opps :
    (hardware : FrequencyLimits) (available : List ℕ) (f : ℕ)
    → In f (usable_opps hardware available) ↔ (In f available × InRange hardware f)
unfolding usable_opps
In-usable_opps hardware available f = (
  λ m.
      let kept =
        In-keep (λ f. leb hardware.min f && leb f hardware.max) available f
          ((In-sort_unstable f _).0 ((In-dedup f _).0 m)) in
      ground arith,
  λ m. (In-dedup f _).1 (
      (In-sort_unstable f _).1
        (keep-In (λ f. leb hardware.min f && leb f hardware.max) available f m.0 (ground arith))),
)

All-InRange :
    (hardware : FrequencyLimits) (xs : List ℕ)
    → ((f : ℕ) → In f xs → InRange hardware f)
    → All (InRange hardware) xs
All-InRange hardware [] h = tt
All-InRange hardware (x ∷ xs) h = (h x (inl refl), All-InRange hardware xs (λ f m. h f (inr m)))

usable-InRange :
    (hardware : FrequencyLimits) (available : List ℕ)
    → All (InRange hardware) (usable_opps hardware available)
usable-InRange hardware available =
    All-InRange hardware _ (λ f m. ((In-usable_opps hardware available f).0 m).1)

-- The maximum: real, in range, and not above the value that was snapped.
record IsMax (hardware : FrequencyLimits) (opps : List ℕ) (q unsnapped m : ℕ) : Type 0 where
  low : hardware.min ≤ m
  high : m ≤ unsnapped
  real : IsReal opps q m

constrained_max-IsMax :
    (hardware : FrequencyLimits) (opps : List ℕ) (q unsnapped m : ℕ)
    → 0 < q
    → is_multiple_of hardware.min q ≡ true
    → hardware.min ≤ unsnapped
    → All (InRange hardware) opps
    → constrained_max opps hardware unsnapped q ≡ ok m
    → IsMax hardware opps q unsnapped m
unfolding constrained_max
constrained_max-IsMax hardware [] q u m pos mult low inside e =
    let multiple =
      max_multiple (quantize_down u q) hardware.min q (quantize_down_multiple u q pos) mult in
    let value : max (quantize_down u q) hardware.min ≡ m = ok-injective e in
    subst (IsMax hardware [] q u) value
      (record { low = omega arith; high = omega (arith, quantize_down-le u q); real = multiple })
constrained_max-IsMax hardware (x ∷ xs) q u m pos mult low inside e =
    snapped (snap_down (x ∷ xs) u) (snap_down-IsSnapDown (x ∷ xs) u) e
  where
    snapped :
        (o : Option ℕ)
        → IsSnapDown (x ∷ xs) u o
        → ok_or o (no_opp_at_or_below_cap u) ≡ ok m
        → IsMax hardware (x ∷ xs) q u m
    snapped none h e = cc
    snapped (some f) h e = subst (IsMax hardware (x ∷ xs) q u) (ok-injective e) (record {
      low = (All-In (InRange hardware) (x ∷ xs) f inside h.0).0;
      high = h.1;
      real = h.0;
    })

-- The minimum: real, in range, and either at least the request or the maximum itself.
record IsMin (opps : List ℕ) (q unsnapped maximum m : ℕ) : Type 0 where
  ordered : m ≤ maximum
  kept : (unsnapped ≤ m) ⊎ (m ≡ maximum)
  real : IsReal opps q m

constrained_min-IsMin :
    (opps : List ℕ) (q unsnapped maximum : ℕ)
    → 0 < q
    → maximum ≤ u64_max
    → unsnapped ≤ maximum
    → IsReal opps q maximum
    → IsMin opps q unsnapped maximum (constrained_min opps maximum unsnapped q)
unfolding constrained_min
constrained_min-IsMin [] q u maximum pos word le real =
    let (kept, multiple) = quantize_up_least u q maximum pos word le real in
    record { ordered = omega arith; kept = inl kept; real = multiple }
constrained_min-IsMin (x ∷ xs) q u maximum pos word le real =
    snapped (snap_up (x ∷ xs) u) (snap_up-IsSnapUp (x ∷ xs) u)
  where
    snapped :
        (o : Option ℕ) → IsSnapUp (x ∷ xs) u o → IsMin (x ∷ xs) q u maximum (at_most_or maximum o)
    snapped none h = record { ordered = omega arith; kept = inr refl; real = real }
    snapped (some f) h = elim (Bool-cases (leb f maximum)) [
      | inl below ↦
          rw below (record { ordered = leb→le f maximum below; kept = inl h.1; real = h.0 })
      | inr above ↦ rw above (record { ordered = omega arith; kept = inr refl; real = real })
    ]

Binds-le : (cap : Option ℕ) (lo f g : ℕ) → f ≤ g → Binds cap lo g → Binds cap lo f
Binds-le none lo f g h b = tt
Binds-le (some c) lo f g h b = omega arith

module _ (requested hardware : FrequencyLimits) (admin thermal : Option ℕ) (opps : List ℕ) (q : ℕ)
    (valid : hardware.min ≤ hardware.max) (request : requested.min ≤ requested.max)
    (word : hardware.max ≤ u64_max) (pos : 0 < q) (mult : is_multiple_of hardware.min q ≡ true)
    (inside : All (InRange hardware) opps) where
  assemble :
      (cap maximum m : ℕ)
      → IsCap hardware admin thermal cap
      → IsMax hardware opps q (clamp hardware.min cap requested.max) maximum
      → IsMin opps q (clamp hardware.min maximum requested.min) maximum m
      → IsConstrained requested hardware admin thermal opps q (record { min = m; max = maximum })
  assemble cap maximum m c top bottom = record {
    ordered = bottom.ordered;
    above_hardware = ground arith;
    below_hardware = ground arith;
    below_request = ground arith;
    below_admin = Binds-le admin hardware.min maximum cap (ground arith) c.admin_binds;
    below_thermal = Binds-le thermal hardware.min maximum cap (ground arith) c.thermal_binds;
    floor_kept = ground arith;
    real_min = bottom.real;
    real_max = top.real;
  }

  constrain_checked-IsConstrained :
      (cap : ℕ) (l : FrequencyLimits)
      → IsCap hardware admin thermal cap
      → constrain_checked requested hardware cap opps q ≡ ok l
      → IsConstrained requested hardware admin thermal opps q l
  constrain_checked-IsConstrained cap l c e =
      go (constrained_max opps hardware (clamp hardware.min cap requested.max) q) refl e
    where
      go :
          (r : Result PolicyError ℕ)
          → constrained_max opps hardware (clamp hardware.min cap requested.max) q ≡ r
          → with_max requested hardware opps q r ≡ ok l
          → IsConstrained requested hardware admin thermal opps q l
      go (err x) found done = cc
      go (ok maximum) found done =
          let top =
            constrained_max-IsMax hardware opps q (clamp hardware.min cap requested.max) maximum pos
              mult (ground (arith, c)) inside found in
          let bottom =
            constrained_min-IsMin opps q (clamp hardware.min maximum requested.min) maximum pos
              (ground (arith, top, c)) (ground (arith, top)) top.real in
          subst (IsConstrained requested hardware admin thermal opps q) (ok-injective done)
            (assemble cap maximum _ c top bottom)

-- For a hardware maximum that fits a u64, whatever the request, the caps and the operating
-- points: a range that `constrain_frequency_limits` returns is ordered, lies in the hardware
-- range, does not pass the request's maximum, the administrator's cap or the thermal cap where
-- these lie above the lower hardware bound, nor the lower hardware bound where they lie below it,
-- keeps the requested minimum or has collapsed onto its
-- maximum, and consists of usable operating points, or of whole kernel units where none is known.
pub constrain_frequency_limits-IsConstrained :
    (requested hardware : FrequencyLimits) (admin thermal : Option ℕ) (available : List ℕ) (q : ℕ)
    (l : FrequencyLimits)
    → hardware.max ≤ u64_max
    → constrain_frequency_limits requested hardware admin thermal available q ≡ ok l
    → IsConstrained requested hardware admin thermal (usable_opps hardware available) q l
unfolding constrain_frequency_limits
constrain_frequency_limits-IsConstrained requested hardware admin thermal available q l word e =
    let (valid, e') =
      ok_of_guard (not (is_valid hardware)) (invalid_hardware_limits hardware) _ e in
    let (request, e'') = ok_of_guard (not (is_valid requested)) (reversed_request requested) _ e' in
    let (units, done) = ok_of_guard (has_bad_quantum hardware q) invalid_frequency_quantum _ e'' in
    constrain_checked-IsConstrained requested hardware admin thermal
      (usable_opps hardware available) q (ground (arith, valid)) (ground (arith, request)) word
      (ground (arith, units)) (ground (arith, units)) (usable-InRange hardware available)
      (hard_cap hardware admin thermal) l
      (hard_cap-IsCap hardware admin thermal (ground (arith, valid))) done
