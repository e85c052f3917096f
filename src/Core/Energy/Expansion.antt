-- ===== src/Core/Energy/Expansion.antt =====
-- What `EnergyModel::from_config` builds: a model of the kernel's operating points.
use uperf_linux_rev.Base.{inl}
use uperf_linux_rev.Base.{
  ℕ, suc, ◌≤◌, ◌≡◌, refl, sym, ap, ◌∙◌, subst, inr, Bool, true, false, not, Option, none, some,
  List, [], ◌∷◌, map, arith, ltb, ◌==◌, ==_iff, Bool-cases, Option-cases, ok, length, find, All, In,
  ok_of_guard, ok-injective, ok-ne-err,
}
use uperf_linux_rev.Core.Energy.Model.{
  expand, insufficient_opps, MeasuredOppConfig, ReferenceCurve, expand_measured_opps,
  CpuEnergyModelConfig, expand_reference_curve, snap_frequency_nearest, select_sparse, measured_opp,
  reference_opp, from_config, measured_opps, measured_opp_v1, reference_curve_v1, reference_model,
  measured_model, measured_at, is_ordered_curve, last_or, sparse_reference_control_opps,
  sparse_requests, sparse_choice, EnergyModel, EnergyOpp, frequencies_of, rises_from,
}
use uperf_linux_rev.Base.Results.{bind-ok}
use uperf_linux_rev.Core.Float.{Floats}
use uperf_linux_rev.Core.Sorting.{
  IsStrictlySorted, Rises, dedup, dedup-IsStrictlySorted, sort_unstable, sort_unstable-IsSorted,
}

pub find-some :
    {A : Type 0} (p : A → Bool) (xs : List A) {a : A} → find p xs ≡ some a → In a xs × (p a ≡ true)
find-some p [] h = cc
find-some p (x ∷ xs) {a} h = elim (Bool-cases (p x)) [
  | inl e ↦ let same : x ≡ a = ground (arith, e) in (inl (sym same), subst (λ y. p y ≡ true) same e)
  | inr e ↦ let (m, q) = find-some p xs (ground (arith, e)) in (inr m, q)
]

module _ (floats : Floats) where
  -- Each operating point stands above the ones before it.
  abbrev Climbs : Option ℕ → List (EnergyOpp floats) → Type 0
  Climbs last [] = Unit {0}
  Climbs last (o ∷ os) =
      (rises_from floats last o.frequency_hz ≡ true) × Climbs (some o.frequency_hz) os

  -- The model has exactly the kernel's frequencies, at least two, and controls by some of its own
  -- operating points, in rising order.
  pub record IsExpansion (available : List ℕ) (m : EnergyModel floats) : Type 0 where
    pub frequencies : frequencies_of floats m.opps ≡ dedup (sort_unstable available)
    pub two : 2 ≤ length m.opps
    pub controls : All (λ o. In o m.opps) m.control_opps
    pub climbs : Climbs none m.control_opps

  sparse_choice-some :
      (opps : List (EnergyOpp floats)) (available : List ℕ) (last : Option ℕ) (target : ℕ)
      {o : EnergyOpp floats}
      → sparse_choice floats opps available last target ≡ some o
      → In o opps × (rises_from floats last o.frequency_hz ≡ true)
  unfolding sparse_choice
  sparse_choice-some opps available last target {o} h =
      let snapped = snap_frequency_nearest available target in
      elim (Bool-cases (rises_from floats last snapped)) [
        | inl rises ↦
            let found : find (λ x. x.frequency_hz == snapped) opps ≡ some o =
              ground (arith, rises) in
            let (m, at) = find-some (λ x. x.frequency_hz == snapped) opps found in
            let same : o.frequency_hz ≡ snapped = (==_iff o.frequency_hz snapped).0 at in
            (m, subst (λ (f : ℕ). rises_from floats last f ≡ true) (sym same) rises)
        | inr falls ↦ absurd (ground (arith, falls))
      ]

  -- What the loop returns: points of the model, each above the last one.
  record IsSelection (opps : List (EnergyOpp floats)) (last : Option ℕ)
      (out : List (EnergyOpp floats)) : Type 0 where
    within : All (λ o. In o opps) out
    rising : Climbs last out

  select_sparse-IsSelection :
      (opps : List (EnergyOpp floats)) (available : List ℕ) (last : Option ℕ) (targets : List ℕ)
      → IsSelection opps last (select_sparse floats opps available last targets)
  unfolding select_sparse
  select_sparse-IsSelection opps available last [] = record { within = tt; rising = tt }
  select_sparse-IsSelection opps available last (target ∷ targets) =
      elim (Option-cases (sparse_choice floats opps available last target)) [
        | inl e ↦ rw (e, select_sparse) (select_sparse-IsSelection opps available last targets)
        | inr (o, e) ↦
            let rest = select_sparse-IsSelection opps available (some o.frequency_hz) targets in
            let (m, rises) = sparse_choice-some opps available last target e in
            rw (e, select_sparse)
              (record { within = (m, rest.within); rising = (rises, rest.rising) })
      ]

  Rises-Climbs :
      (a : ℕ) (os : List (EnergyOpp floats))
      → Rises a (frequencies_of floats os)
      → Climbs (some a) os
  Rises-Climbs a [] h = tt
  Rises-Climbs a (o ∷ os) h = (ground arith, Rises-Climbs o.frequency_hz os h.1)

  sorted-Climbs :
      (os : List (EnergyOpp floats)) → IsStrictlySorted (frequencies_of floats os) → Climbs none os
  sorted-Climbs [] h = tt
  sorted-Climbs (o ∷ os) h = (refl, Rises-Climbs o.frequency_hz os h)

  reference_opps-frequencies :
      (curve : ReferenceCurve) (fs : List ℕ)
      → frequencies_of floats (map (reference_opp floats curve) fs) ≡ fs
  unfolding reference_opp
  reference_opps-frequencies curve [] = refl
  reference_opps-frequencies curve (f ∷ fs) =
      ap (λ (l : List ℕ). f ∷ l) (reference_opps-frequencies curve fs)

  measured_opp-frequency :
      (f : ℕ) (p : Option MeasuredOppConfig) (o : EnergyOpp floats)
      → measured_opp floats f p ≡ ok o
      → o.frequency_hz ≡ f
  unfolding measured_opp
  measured_opp-frequency f none o h = absurd (ok-ne-err (sym h))
  measured_opp-frequency f (some p) o h =
      let (_, h₁) = ok_of_guard (p.relative_capacity == 0) _ _ h in
      let (_, h₂) = ok_of_guard (p.power_mw_per_core == 0) _ _ h₁ in
      ap (λ (x : EnergyOpp floats). x.frequency_hz) (sym (ok-injective h₂))

  measured_opps-frequencies :
      (points : List MeasuredOppConfig) (fs : List ℕ) (os : List (EnergyOpp floats))
      → measured_opps floats points fs ≡ ok os
      → frequencies_of floats os ≡ fs
  unfolding measured_opps
  measured_opps-frequencies points [] os h =
      ap (λ (x : List (EnergyOpp floats)). frequencies_of floats x) (sym (ok-injective h))
  measured_opps-frequencies points (f ∷ fs) os h =
      let (o, first, h₁) = bind-ok (measured_opp floats f (measured_at f points)) _ h in
      let (rest, others, h₂) = bind-ok (measured_opps floats points fs) _ h₁ in
      let head = measured_opp-frequency f (measured_at f points) o first in
      let tail = measured_opps-frequencies points fs rest others in
      ap (λ (x : List (EnergyOpp floats)). frequencies_of floats x) (sym (ok-injective h₂)) ∙ λ i.
      head i ∷ tail i

  length-frequencies :
      (os : List (EnergyOpp floats)) → length (frequencies_of floats os) ≡ length os
  length-frequencies [] = refl
  length-frequencies (o ∷ os) = ap (λ (n : ℕ). suc n) (length-frequencies os)

  All-In-self : (os : List (EnergyOpp floats)) → All (λ o. In o os) os
  All-In-self os = widen os (λ o m. m)
    where
      widen :
          (ps : List (EnergyOpp floats))
          → ((o : EnergyOpp floats) → In o ps → In o os)
          → All (λ o. In o os) ps
      widen [] sub = tt
      widen (p ∷ ps) sub = (sub p (inl refl), widen ps (λ o m. sub o (inr m)))

  -- From the operating points and the controls to the whole.
  IsExpansion-of :
      (available : List ℕ) (m : EnergyModel floats)
      → ltb (length (dedup (sort_unstable available))) 2 ≡ false
      → frequencies_of floats m.opps ≡ dedup (sort_unstable available)
      → All (λ o. In o m.opps) m.control_opps
      → Climbs none m.control_opps
      → IsExpansion available m
  IsExpansion-of available m enough same within climbs =
      let count = sym (length-frequencies m.opps) ∙ ap (λ (l : List ℕ). length l) same in
      record {
        frequencies = same;
        two = omega (arith, count, not_ltb _ 2 enough);
        controls = within;
        climbs = climbs;
      }
    where
      not_ltb : (a b : ℕ) → ltb a b ≡ false → b ≤ a
      not_ltb a b h = ground arith

  reference_model-IsSelection :
      (curve : ReferenceCurve) (fs : List ℕ)
      → IsSelection
          (map (reference_opp floats curve) fs)
          none
          (reference_model floats curve fs).control_opps
  unfolding sparse_reference_control_opps
  reference_model-IsSelection curve fs =
      let opps = map (reference_opp floats curve) fs in
      let sweet = snap_frequency_nearest fs curve.sweet_frequency_hz in
      select_sparse-IsSelection opps (frequencies_of floats opps) none (
        sparse_requests (last_or sweet (frequencies_of floats opps))
          (snap_frequency_nearest fs curve.free_frequency_hz)
          (snap_frequency_nearest fs curve.plain_frequency_hz) sweet)

  expand-IsExpansion :
      (available : List ℕ) (config : CpuEnergyModelConfig) (m : EnergyModel floats)
      → ltb (length (dedup (sort_unstable available))) 2 ≡ false
      → expand floats config (dedup (sort_unstable available)) ≡ ok m
      → IsExpansion available m
  unfolding expand_reference_curve expand_measured_opps
  expand-IsExpansion available (reference_curve_v1 curve) m enough h =
      let fs = dedup (sort_unstable available) in
      let (_, h₁) = ok_of_guard (curve.relative_performance == 0) _ _ h in
      let (_, h₂) = ok_of_guard (curve.typical_power_mw_per_core == 0) _ _ h₁ in
      let (_, h₃) = ok_of_guard (not (is_ordered_curve floats curve)) _ _ h₂ in
      let picked = reference_model-IsSelection curve fs in
      subst (IsExpansion available) (ok-injective h₃) (
        IsExpansion-of available (reference_model floats curve fs) enough
          (reference_opps-frequencies curve fs) picked.within picked.rising)
  expand-IsExpansion available (measured_opp_v1 points) m enough h =
      let fs = dedup (sort_unstable available) in
      let (os, at, h₁) = bind-ok (measured_opps floats points fs) _ h in
      let same = measured_opps-frequencies points fs os at in
      subst (IsExpansion available) (ok-injective h₁) (
        IsExpansion-of available (measured_model floats os) enough same (All-In-self os) (
          sorted-Climbs os (
            subst IsStrictlySorted (sym same) (
              dedup-IsStrictlySorted (sort_unstable available)
                (sort_unstable-IsSorted available)))))

  -- A model that `from_config` accepts has exactly the kernel's frequencies, at least two, and its
  -- control points are operating points of its own in rising order.
  pub from_config-IsExpansion :
      (config : CpuEnergyModelConfig) (available : List ℕ) (m : EnergyModel floats)
      → from_config floats config available ≡ ok m
      → IsExpansion available m
  unfolding from_config
  from_config-IsExpansion config available m h =
      let (enough, h₁) =
        ok_of_guard (ltb (length (dedup (sort_unstable available))) 2) insufficient_opps _ h in
      expand-IsExpansion available config m enough h₁
