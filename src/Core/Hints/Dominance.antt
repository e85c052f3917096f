-- ===== src/Core/Hints/Dominance.antt =====
-- `HintSet::dominant_at_excluding` of crates/uperf-core/src/policy.rs.
use uperf_linux_rev.Base.Maps.{values}
use uperf_linux_rev.Base.{
  ℕ, ◌≤◌, ◌≡◌, refl, ap, ◌∙◌, ◌⊎◌, inl, inr, true, List, [], ◌∷◌, arith, keep, All, In,
}
use uperf_linux_rev.Core.Scene.{Scene, idle, priority}
use uperf_linux_rev.Core.Hints.{
  Hint, HintSet, is_active_at, retain_active, expire, higher, highest, scene_of_highest, counts,
  dominant_at_excluding,
}

-- The hints that count at a time: active and not excluded.
abbrev pub Counts : ℕ → List Scene → Hint → Type 0
Counts now excluded h = counts now excluded h ≡ true

-- A scene dominates when some counting hint has it and none has a higher priority; without a
-- counting hint the scene is idle.
pub record Dominates (hints : List Hint) (scene : Scene) : Type 0 where
  pub above : All (λ h. priority h.scene ≤ priority scene) hints
  pub attained : ((hints ≡ []) × (scene ≡ idle)) ⊎ ((h : Hint) × In h hints × (h.scene ≡ scene))

higher-ge :
    (best h : Hint)
    → (priority best.scene ≤ priority (higher best h).scene)
      × (priority h.scene ≤ priority (higher best h).scene)
unfolding higher
higher-ge best h = ground arith

higher-In : (best h : Hint) → (higher best h ≡ best) ⊎ (higher best h ≡ h)
unfolding higher
higher-In best h = ground arith

highest-ge :
    (best : Hint) (hs : List Hint)
    → (priority best.scene ≤ priority (highest best hs).scene)
      × All (λ h. priority h.scene ≤ priority (highest best hs).scene) hs
unfolding highest
highest-ge best [] = (omega arith, tt)
highest-ge best (h ∷ hs) =
    let (a, b) = highest-ge (higher best h) hs in
    let (c, d) = higher-ge best h in (omega (arith, a, c), (omega (arith, a, d), b))

highest-In : (best : Hint) (hs : List Hint) → In (highest best hs) (best ∷ hs)
unfolding highest
highest-In best [] = inl refl
highest-In best (h ∷ hs) = elim (highest-In (higher best h) hs) [
  | inl e ↦ elim (higher-In best h) [ inl f ↦ inl (e ∙ f) | inr f ↦ inr (inl (e ∙ f)) ]
  | inr m ↦ inr (inr m)
]

Dominates-highest : (hs : List Hint) → Dominates hs (scene_of_highest hs)
Dominates-highest [] = record { above = tt; attained = inl (refl, refl) }
Dominates-highest (h ∷ hs) = record {
  above = highest-ge h hs;
  attained = inr (highest h hs, highest-In h hs, refl);
}

-- At every time and for every exclusion, the scene that `dominant_at_excluding` returns has the
-- highest priority among the hints that are active and not excluded, one of which has it; if there
-- is none it is idle.
pub dominant_at_excluding-Dominates :
    (now : ℕ) (excluded : List Scene) (s : HintSet)
    → Dominates (keep (counts now excluded) (values s)) (dominant_at_excluding now excluded s)
unfolding dominant_at_excluding
dominant_at_excluding-Dominates now excluded s = Dominates-highest _

still_active :
    (h : Hint) (now t : ℕ) → now ≤ t → is_active_at h t ≡ true → is_active_at h now ≡ true
unfolding is_active_at
still_active h now t le e = ground arith

keep-retain_active :
    (now t : ℕ) (excluded : List Scene) (s : HintSet)
    → now ≤ t
    → keep (counts t excluded) (values (retain_active now s)) ≡ keep (counts t excluded) (values s)
unfolding retain_active
keep-retain_active now t excluded [] le = refl
keep-retain_active now t excluded ((k, h) ∷ s) le =
    ground (arith, keep-retain_active now t excluded s le, still_active h now t le)

-- Removing expired hints changes no later answer: from the time of `expire` on, the dominant scene
-- is the one that the set before it gives, whatever is excluded.
pub dominant_at_excluding-expire :
    (now t : ℕ) (excluded : List Scene) (s : HintSet)
    → now ≤ t
    → dominant_at_excluding t excluded (expire now s).0 ≡ dominant_at_excluding t excluded s
unfolding dominant_at_excluding expire
dominant_at_excluding-expire now t excluded s le =
    ap (λ (hs : List Hint). scene_of_highest hs) (keep-retain_active now t excluded s le)
