-- ===== src/Core/Energy/Nearest.antt =====
-- `snap_frequency_nearest` of crates/uperf-core/src/energy.rs.
use uperf_linux_rev.Base.{
  ℕ, ◌+◌, ◌*◌, ◌≤◌, ◌<◌, ◌≡◌, refl, ◌∙◌, subst, ◌⊎◌, inl, inr, List, [], ◌∷◌, arith, ltb,
  if◌then◌else◌, All, In, All-In, if-cases,
}
use uperf_linux_rev.Core.Energy.Model.{abs_diff, nearest, snap_distance, snap_frequency_nearest}

-- At least as near as another, and lower where both are as near.
pub record IsNearer (requested a b : ℕ) : Type 0 where
  pub near : abs_diff a requested ≤ abs_diff b requested
  pub tie : abs_diff a requested ≡ abs_diff b requested → a ≤ b

abbrev pub IsSmall : ℕ → Type 0
IsSmall f = f < 4611686018427387904

-- Below 2 ^ 62 nothing saturates.
snap_distance-exact :
    (requested f : ℕ)
    → IsSmall requested
    → IsSmall f
    → snap_distance requested f ≡ abs_diff f requested * 2 + (if ltb requested f then 1 else 0)
unfolding snap_distance
snap_distance-exact requested f small word = ground arith

IsNearer-of-distance :
    (requested a b : ℕ)
    → IsSmall requested
    → IsSmall a
    → IsSmall b
    → snap_distance requested a ≤ snap_distance requested b
    → IsNearer requested a b
IsNearer-of-distance requested a b sr sa sb h =
    let da = snap_distance-exact requested a sr sa in
    let db = snap_distance-exact requested b sr sb in
    let h' : abs_diff a requested * 2 + (if ltb requested a then 1 else 0)
        ≤ abs_diff b requested * 2 + (if ltb requested b then 1 else 0) =
      subst (λ (x : ℕ). x ≤ abs_diff b requested * 2 + (if ltb requested b then 1 else 0)) da
        (subst (λ (x : ℕ). snap_distance requested a ≤ x) db h) in
    record { near = ground arith; tie = λ e. ground arith }

record IsLeast (requested n best : ℕ) (fs : List ℕ) : Type 0 where
  low : snap_distance requested n ≤ snap_distance requested best
  lowest : (f : ℕ) → In f fs → snap_distance requested n ≤ snap_distance requested f
  member : In n (best ∷ fs)

-- What the test picks of two is the nearer one.
record IsPick (requested f best pick : ℕ) : Type 0 where
  below_best : snap_distance requested pick ≤ snap_distance requested best
  below_new : snap_distance requested pick ≤ snap_distance requested f
  either : (pick ≡ best) ⊎ (pick ≡ f)

IsLeast-step :
    (requested n f best pick : ℕ) (fs : List ℕ)
    → IsPick requested f best pick
    → IsLeast requested n pick fs
    → IsLeast requested n best (f ∷ fs)
IsLeast-step requested n f best pick fs p l = record {
  low = omega (arith, p.below_best, l.low);
  lowest = λ g m. elim m [
    | inl e ↦ rw e (omega (arith, p.below_new, l.low))
    | inr there ↦ l.lowest g there
  ];
  member = elim l.member [
    | inl e ↦ elim p.either [ inl b ↦ inl (e ∙ b) | inr new ↦ inr (inl (e ∙ new)) ]
    | inr there ↦ inr (inr there)
  ];
}

test-IsPick :
    (requested f best : ℕ)
    → IsPick requested f best
        (if ltb (snap_distance requested f) (snap_distance requested best) then f else best)
test-IsPick requested f best =
    if-cases (IsPick requested f best)
      (ltb (snap_distance requested f) (snap_distance requested best)) f best
      (λ h. record { below_best = ground arith; below_new = omega arith; either = inr refl })
      (λ h. record { below_best = omega arith; below_new = ground arith; either = inl refl })

nearest-IsLeast :
    (requested best : ℕ) (fs : List ℕ) → IsLeast requested (nearest requested best fs) best fs
unfolding nearest
nearest-IsLeast requested best [] = record {
  low = omega arith;
  lowest = λ g m. absurd m;
  member = inl refl;
}
nearest-IsLeast requested best (f ∷ fs) =
    IsLeast-step requested _ f best _ fs (test-IsPick requested f best) (
      nearest-IsLeast requested
        (if ltb (snap_distance requested f) (snap_distance requested best) then f else best) fs)

-- Where some frequency is known, and the request and all known frequencies are below 2 ^ 62, the
-- result is one of them, none is nearer to the request, and of two that are as near it is the lower
-- one.
pub snap_frequency_nearest-IsNearer :
    (requested f : ℕ) (fs : List ℕ)
    → IsSmall requested
    → All IsSmall fs
    → In f fs
    → In (snap_frequency_nearest fs requested) fs
      × IsNearer requested (snap_frequency_nearest fs requested) f
unfolding snap_frequency_nearest
snap_frequency_nearest-IsNearer requested f [] sr small m = absurd m
snap_frequency_nearest-IsNearer requested f (g ∷ gs) sr small m =
    let l = nearest-IsLeast requested g gs in
    let n = nearest requested g gs in
    let below : snap_distance requested n ≤ snap_distance requested f = elim m [
      | inl e ↦ rw e l.low
      | inr there ↦ l.lowest f there
    ] in
    (
      l.member,
      IsNearer-of-distance requested n f sr (All-In IsSmall (g ∷ gs) n small l.member)
          (All-In IsSmall (g ∷ gs) f small m) below,
    )
