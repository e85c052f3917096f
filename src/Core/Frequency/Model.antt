-- ===== src/Core/Frequency/Model.antt =====
-- `FrequencyPolicy::validate` of crates/uperf-core/src/policy.rs.
use uperf_linux_rev.Base.Words.{is_multiple_of}
use uperf_linux_rev.Base.{
  ℕ, ◌≤◌, ◌<◌, ◌≡◌, refl, ◌∙◌, ◌↔◌, Bool, true, false, not, ◌||◌, List, [], ◌∷◌, ◌++◌, arith, ltb,
  ◌==◌, if◌then◌else◌, ok, any, All, ok_of_guard, or-false,
}
use uperf_linux_rev.Core.Units.{is_valid}
use uperf_linux_rev.Core.Errors.{
  invalid_hardware_limits, invalid_frequency_model, opp_outside_hardware_limits,
  invalid_frequency_quantum,
}
use uperf_linux_rev.Core.Frequency.{FrequencyPolicy, is_ordered_model, named_frequencies, validate}

pub record IsModel (p : FrequencyPolicy) : Type 0 where
  pub hardware_ordered : p.hardware_limits.min ≤ p.hardware_limits.max
  pub floor_above : p.hardware_limits.min ≤ p.floor
  pub floor_reference : p.floor ≤ p.reference
  pub reference_below : p.reference ≤ p.hardware_limits.max
  pub floor_cap : p.floor ≤ p.efficient_cap
  pub cap_below : p.efficient_cap ≤ p.hardware_limits.max
  pub unit_positive : 0 < p.hertz_per_unit
  pub named_whole : All (λ f. is_multiple_of f p.hertz_per_unit ≡ true) (named_frequencies p)
  pub opps_whole : All (λ f. is_multiple_of f p.hertz_per_unit ≡ true) p.available_frequencies
  pub opps_inside :
      All (λ f. (p.hardware_limits.min ≤ f) × (f ≤ p.hardware_limits.max)) p.available_frequencies

whole_of_any :
    (q : ℕ) (xs ys : List ℕ)
    → any (λ f. not (is_multiple_of f q)) (xs ++ ys) ≡ false
    → All (λ f. is_multiple_of f q ≡ true) xs × All (λ f. is_multiple_of f q ≡ true) ys
whole_of_any q [] [] h = (tt, tt)
whole_of_any q [] (y ∷ ys) h = ground (arith, whole_of_any q [] ys)
whole_of_any q (x ∷ xs) ys h = ground (arith, whole_of_any q xs ys)

any_of_whole :
    (q : ℕ) (xs ys : List ℕ)
    → All (λ f. is_multiple_of f q ≡ true) xs
    → All (λ f. is_multiple_of f q ≡ true) ys
    → any (λ f. not (is_multiple_of f q)) (xs ++ ys) ≡ false
any_of_whole q [] [] h k = refl
any_of_whole q [] (y ∷ ys) h k = rw (k.0) (any_of_whole q [] ys tt k.1)
any_of_whole q (x ∷ xs) ys h k = rw (h.0) (any_of_whole q xs ys h.1 k)

inside_of_any :
    (lo hi : ℕ) (xs : List ℕ)
    → any (λ f. ltb f lo || ltb hi f) xs ≡ false
    → All (λ f. (lo ≤ f) × (f ≤ hi)) xs
inside_of_any lo hi [] h = tt
inside_of_any lo hi (x ∷ xs) h = ground (arith, inside_of_any lo hi xs)

any_of_inside :
    (lo hi : ℕ) (xs : List ℕ)
    → All (λ f. (lo ≤ f) × (f ≤ hi)) xs
    → any (λ f. ltb f lo || ltb hi f) xs ≡ false
any_of_inside lo hi [] h = refl
any_of_inside lo hi (x ∷ xs) h = ground (arith, any_of_inside lo hi xs h.1)

abbrev has_fraction : FrequencyPolicy → Bool
has_fraction p =
    p.hertz_per_unit == 0
    || any (λ f. not (is_multiple_of f p.hertz_per_unit))
        (named_frequencies p ++ p.available_frequencies)

abbrev has_outsider : FrequencyPolicy → Bool
has_outsider p =
    any (λ f. ltb f p.hardware_limits.min || ltb p.hardware_limits.max f) p.available_frequencies

validate-IsModel : (p : FrequencyPolicy) → validate p ≡ ok tt → IsModel p
unfolding validate
validate-IsModel p e =
    let (ordered, e') =
      ok_of_guard (not (is_valid p.hardware_limits)) (invalid_hardware_limits p.hardware_limits) _
        e in
    let (model, e'') = ok_of_guard (not (is_ordered_model p)) invalid_frequency_model _ e' in
    let (units, e''') = ok_of_guard (has_fraction p) invalid_frequency_quantum _ e'' in
    let (inside, _) = ok_of_guard (has_outsider p) opp_outside_hardware_limits (ok tt) e''' in
    let (positive, whole) = or-false (p.hertz_per_unit == 0) _ units in
    let (named, opps) =
      whole_of_any p.hertz_per_unit (named_frequencies p) p.available_frequencies whole in
    record {
      hardware_ordered = ground (arith, ordered);
      floor_above = ground (arith, model);
      floor_reference = ground (arith, model);
      reference_below = ground (arith, model);
      floor_cap = ground (arith, model);
      cap_below = ground (arith, model);
      unit_positive = ground (arith, positive);
      named_whole = named;
      opps_whole = opps;
      opps_inside = inside_of_any _ _ p.available_frequencies inside;
    }

or_intro : (a b : Bool) → a ≡ false → b ≡ false → (a || b) ≡ false
or_intro a b h k = rw h k

err_of_pass {ℓ} : {A : Type ℓ} (b : Bool) (x y : A) → b ≡ false → (if b then x else y) ≡ y
err_of_pass b x y h = rw h

IsModel-validate : (p : FrequencyPolicy) → IsModel p → validate p ≡ ok tt
unfolding validate
IsModel-validate p m =
    let ordered : not (is_valid p.hardware_limits) ≡ false = ground (arith, m.hardware_ordered) in
    let model : not (is_ordered_model p) ≡ false = ground (arith, m) in
    let whole =
      any_of_whole p.hertz_per_unit (named_frequencies p) p.available_frequencies m.named_whole
        m.opps_whole in
    let positive : (p.hertz_per_unit == 0) ≡ false = ground (arith, m.unit_positive) in
    let units : has_fraction p ≡ false = or_intro (p.hertz_per_unit == 0) _ positive whole in
    let inside =
      any_of_inside p.hardware_limits.min p.hardware_limits.max p.available_frequencies
        m.opps_inside in
    err_of_pass (not (is_valid p.hardware_limits)) _ _ ordered
    ∙ err_of_pass (not (is_ordered_model p)) _ _ model
    ∙ err_of_pass (has_fraction p) _ _ units
    ∙ err_of_pass (has_outsider p) _ _ inside

-- `validate` accepts a policy exactly when its hardware range is ordered, floor, reference and
-- efficient cap are ordered inside it, every frequency is a whole number of kernel units and every
-- operating point lies inside the hardware range.
pub validate_iff : (p : FrequencyPolicy) → (validate p ≡ ok tt) ↔ IsModel p
validate_iff p = (validate-IsModel p, IsModel-validate p)
