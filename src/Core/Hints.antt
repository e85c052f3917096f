-- ===== src/Core/Hints.antt =====
-- Hints and the active hint set: `Hint` and `HintSet` of crates/uperf-core/src/policy.rs.
pub mod Dominance
use uperf_linux_rev.Base.Maps.{get, insert, remove, values}
use uperf_linux_rev.Base.{
  ℕ, zero, suc, ◌+◌, ◌-◌, ◌*◌, ◌/◌, ◌%◌, ◌^◌, ◌≤◌, ◌<◌, min, max, ◌≡◌, refl, sym, ap, ◌∙◌, subst,
  ◌≢◌, ◌↔◌, ◌⊎◌, inl, inr, Bool, true, false, not, ◌&&◌, ◌||◌, Option, none, some, List, [], ◌∷◌,
  ◌++◌, map, arith, ltb, leb, ◌==◌, if◌then◌else◌, ltb→lt, leb→le, le→leb, ==_iff, Bool-cases,
  Option-cases, is_some, some_or, Result, ok, err, ok_or, Result-cases, &&-true, length,
  length-append, any, all, find, keep, All, In, All-append, All-keep, All-of-keep, All-In, In-keep,
  keep-In, ok_of_guard, ok-injective, ok-ne-err, or-false, if-cases, elim-cases, if-true, if-false,
}
use uperf_linux_rev.Core.Units.{later}
use uperf_linux_rev.Core.Scene.{Scene, idle, priority, same_scene, scene_key}

pub record Hint : Type 0 where
  pub scene : Scene
  pub activated_at : ℕ
  pub expires_at : Option ℕ

-- `Hint::persistent`, `Hint::with_ttl`.
unfoldable pub persistent : Scene → ℕ → Hint
persistent scene at = record { scene = scene; activated_at = at; expires_at = none }

unfoldable pub with_ttl : Scene → ℕ → ℕ → Hint
with_ttl scene at duration_ms = record {
  scene = scene;
  activated_at = at;
  expires_at = some (later at duration_ms);
}

-- `expires_at.is_none_or(|expires_at| now < expires_at)`.
abbrev pub before_expiry : ℕ → Option ℕ → Bool
before_expiry now none = true
before_expiry now (some t) = ltb now t

unfoldable pub is_active_at : Hint → ℕ → Bool
is_active_at h now = before_expiry now h.expires_at

-- `HintSet(BTreeMap<Scene, Hint>)`.
abbrev pub HintSet : Type 0
HintSet = List (Scene × Hint)

unfoldable pub activate : Hint → HintSet → HintSet
activate h s = if same_scene h.scene idle then s else insert h.scene h s

unfoldable pub deactivate : Scene → HintSet → HintSet × Option Hint
deactivate scene s = (remove scene s, get scene s)

-- `retain(|_, hint| hint.is_active_at(now))`.
unfoldable pub retain_active : ℕ → HintSet → HintSet
retain_active now [] = []
retain_active now ((k, h) ∷ s) =
    let rest = retain_active now s in if is_active_at h now then (k, h) ∷ rest else rest

unfoldable pub expire : ℕ → HintSet → HintSet × Bool
expire now s = let after = retain_active now s in (after, not (length after == length s))

abbrev pub active_hint : ℕ → Option Hint → Bool
active_hint now none = false
active_hint now (some h) = is_active_at h now

unfoldable pub contains_active : Scene → ℕ → HintSet → Bool
contains_active scene now s = active_hint now (get scene s)

-- `BTreeSet<Scene>::contains`.
abbrev pub excludes : List Scene → Scene → Bool
excludes xs scene = any (λ x. same_scene x scene) xs

-- `max_by_key`: of equal keys the last wins.
unfoldable pub higher : Hint → Hint → Hint
higher best h = if ltb (priority h.scene) (priority best.scene) then best else h

unfoldable pub highest : Hint → List Hint → Hint
highest best [] = best
highest best (h ∷ hs) = highest (higher best h) hs

abbrev pub scene_of_highest : List Hint → Scene
scene_of_highest [] = idle
scene_of_highest (h ∷ hs) = (highest h hs).scene

abbrev pub counts : ℕ → List Scene → Hint → Bool
counts now excluded h = is_active_at h now && not (excludes excluded h.scene)

unfoldable pub dominant_at_excluding : ℕ → List Scene → HintSet → Scene
unfolding highest
dominant_at_excluding now excluded s = scene_of_highest (keep (counts now excluded) (values s))

unfoldable pub dominant_at : ℕ → HintSet → Scene
unfolding dominant_at_excluding
dominant_at now s = dominant_at_excluding now [] s
