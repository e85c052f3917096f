-- ===== src/Core/Scene.antt =====
-- Profiles and scenes: the vocabulary of crates/uperf-core/src/policy.rs.
use uperf_linux_rev.Base.Maps.{Key}
use uperf_linux_rev.Base.{
  ℕ, zero, suc, ◌≡◌, refl, ap, ◌↔◌, Bool, true, Option, none, some, ltb, ◌==◌, ==_iff,
}

pub data ProfileId : Type 0 where
  powersave balance performance : ProfileId

pub data ModeSelection : Type 0 where
  auto : ModeSelection
  forced : ProfileId → ModeSelection

pub data Scene : Type 0 where
  idle touch trigger gesture junk boost switch wake : Scene

-- `Scene::priority`.
unfoldable pub priority : Scene → ℕ
priority idle = 0
priority boost = 1
priority touch = 2
priority trigger = 3
priority gesture = 4
priority junk = 5
priority switch = 6
priority wake = 7

-- The position of a scene in the declaration, by which the derived `Ord` compares.
abbrev pub rank : Scene → ℕ
rank idle = 0
rank touch = 1
rank trigger = 2
rank gesture = 3
rank junk = 4
rank boost = 5
rank switch = 6
rank wake = 7

abbrev pub same_scene : Scene → Scene → Bool
same_scene a b = rank a == rank b

scene_of_rank : ℕ → Scene
scene_of_rank zero = idle
scene_of_rank (suc zero) = touch
scene_of_rank (suc (suc zero)) = trigger
scene_of_rank (suc (suc (suc zero))) = gesture
scene_of_rank (suc (suc (suc (suc zero)))) = junk
scene_of_rank (suc (suc (suc (suc (suc zero))))) = boost
scene_of_rank (suc (suc (suc (suc (suc (suc zero)))))) = switch
scene_of_rank (suc (suc (suc (suc (suc (suc (suc n))))))) = wake

scene_of_rank-rank : (a : Scene) → scene_of_rank (rank a) ≡ a
unfolding scene_of_rank
scene_of_rank-rank idle = refl
scene_of_rank-rank touch = refl
scene_of_rank-rank trigger = refl
scene_of_rank-rank gesture = refl
scene_of_rank-rank junk = refl
scene_of_rank-rank boost = refl
scene_of_rank-rank switch = refl
scene_of_rank-rank wake = refl

pub rank-injective : (a b : Scene) → rank a ≡ rank b → a ≡ b
rank-injective a b e = cc (scene_of_rank-rank a, scene_of_rank-rank b)

pub same_scene_iff : (a b : Scene) → (same_scene a b ≡ true) ↔ (a ≡ b)
same_scene_iff a b = (
  λ h. rank-injective a b ((==_iff (rank a) (rank b)).0 h),
  λ e. (==_iff (rank a) (rank b)).1 (ap (λ (s : Scene). rank s) e),
)

instance abbrev pub scene_key : Key Scene
scene_key = record {
  same = same_scene;
  before = λ a b. ltb (rank a) (rank b);
  same_iff = same_scene_iff;
}

pub data SchedulerScene : Type 0 where
  background foreground idle touch boost : SchedulerScene

-- The position of a scheduler scene in its declaration.
abbrev scheduler_rank : SchedulerScene → ℕ
scheduler_rank SchedulerScene.background = 0
scheduler_rank SchedulerScene.foreground = 1
scheduler_rank SchedulerScene.idle = 2
scheduler_rank SchedulerScene.touch = 3
scheduler_rank SchedulerScene.boost = 4

scheduler_scene_of_rank : ℕ → SchedulerScene
scheduler_scene_of_rank zero = SchedulerScene.background
scheduler_scene_of_rank (suc zero) = SchedulerScene.foreground
scheduler_scene_of_rank (suc (suc zero)) = SchedulerScene.idle
scheduler_scene_of_rank (suc (suc (suc zero))) = SchedulerScene.touch
scheduler_scene_of_rank (suc (suc (suc (suc n)))) = SchedulerScene.boost

scheduler_scene_of_rank-scheduler_rank :
    (a : SchedulerScene) → scheduler_scene_of_rank (scheduler_rank a) ≡ a
unfolding scheduler_scene_of_rank
scheduler_scene_of_rank-scheduler_rank SchedulerScene.background = refl
scheduler_scene_of_rank-scheduler_rank SchedulerScene.foreground = refl
scheduler_scene_of_rank-scheduler_rank SchedulerScene.idle = refl
scheduler_scene_of_rank-scheduler_rank SchedulerScene.touch = refl
scheduler_scene_of_rank-scheduler_rank SchedulerScene.boost = refl

abbrev same_scheduler_scene : SchedulerScene → SchedulerScene → Bool
same_scheduler_scene a b = scheduler_rank a == scheduler_rank b

pub same_scheduler_scene_iff : (a b : SchedulerScene) → (same_scheduler_scene a b ≡ true) ↔ (a ≡ b)
same_scheduler_scene_iff a b = (
  λ h.
      let e = (==_iff (scheduler_rank a) (scheduler_rank b)).0 h in
      cc (scheduler_scene_of_rank-scheduler_rank a, scheduler_scene_of_rank-scheduler_rank b),
  λ e.
      (==_iff (scheduler_rank a) (scheduler_rank b)).1
        (ap (λ (s : SchedulerScene). scheduler_rank s) e),
)

instance abbrev pub scheduler_scene_key : Key SchedulerScene
scheduler_scene_key = record {
  same = same_scheduler_scene;
  before = λ a b. ltb (scheduler_rank a) (scheduler_rank b);
  same_iff = same_scheduler_scene_iff;
}

unfoldable pub scheduler_scene_for : Scene → SchedulerScene
scheduler_scene_for Scene.idle = SchedulerScene.idle
scheduler_scene_for Scene.touch = SchedulerScene.touch
scheduler_scene_for Scene.trigger = SchedulerScene.touch
scheduler_scene_for Scene.gesture = SchedulerScene.touch
scheduler_scene_for Scene.junk = SchedulerScene.touch
scheduler_scene_for Scene.boost = SchedulerScene.boost
scheduler_scene_for Scene.switch = SchedulerScene.boost
scheduler_scene_for Scene.wake = SchedulerScene.boost

unfoldable pub resolve_effective_profile : ModeSelection → Option ProfileId → ProfileId → ProfileId
resolve_effective_profile (forced profile) app_profile default_profile = profile
resolve_effective_profile auto (some profile) default_profile = profile
resolve_effective_profile auto none default_profile = default_profile
