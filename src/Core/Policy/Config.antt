-- ===== src/Core/Policy/Config.antt =====
-- The configuration that the engine evaluates: profiles, task profiles and rules of
-- crates/uperf-core/src/config.rs, with the functions that merge them.
use uperf_linux_rev.Base.Int.{ℤ, ltℤ}
use uperf_linux_rev.Base.Text.{Text, text_key}
use uperf_linux_rev.Base.{
  ℕ, Bool, true, false, Option, none, some, List, [], ◌∷◌, if◌then◌else◌, find, keep,
}
use uperf_linux_rev.Core.Float.{Floats}
use uperf_linux_rev.Core.Domain.{ScalarSettingValue, TargetId, TaskPlan}
use uperf_linux_rev.Core.Scene.{ProfileId, Scene, SchedulerScene}
use uperf_linux_rev.Core.Energy.Bucket.{PowerBudgetConfig}
use uperf_linux_rev.Core.Energy.Demand.{GovernorConfig}

pub record WorkloadMatcher : Type 0 where
  pub executable : Option Text
  pub desktop_id : Option Text
  pub comm_regex : Option Text

pub record TaskProfileConfig : Type 0 where
  pub id : Text
  pub affinity_group : Option Text
  pub plan : TaskPlan
  pub scenes : List (SchedulerScene × TaskPlan)

pub data ThreadSelector : Type 0 where
  leader : ThreadSelector
  comm_regex : Text → ThreadSelector

pub record ThreadRuleConfig : Type 0 where
  pub selector : ThreadSelector
  pub task_profile : Text

pub record ProcessRuleConfig : Type 0 where
  pub name : Text
  pub matcher : WorkloadMatcher
  pub task_profile : Option Text
  pub cgroup_class : Option Text
  pub threads : List ThreadRuleConfig

pub record FocusConfig : Type 0 where
  pub enabled : Bool
  pub task_profile : Option Text
  pub lease_ttl_ms : ℕ
  pub debounce_ms : ℕ
  pub protected : List WorkloadMatcher

-- The part of `SchedulerConfig` that the engine reads.
pub record SchedulerConfig : Type 0 where
  pub enabled : Bool
  pub task_profiles : List TaskProfileConfig
  pub process_rules : List ProcessRuleConfig
  pub focus : FocusConfig

pub record AppRule : Type 0 where
  pub id : Text
  pub enabled : Bool
  pub priority : ℤ
  pub matcher : WorkloadMatcher
  pub profile : ProfileId

abbrev pub first_some {ℓ} : {A : Type ℓ} → Option A → Option A → Option A
first_some (some a) b = some a
first_some none b = b

-- A patch overrides field by field.
unfoldable pub merge_task_plan : TaskPlan → TaskPlan → TaskPlan
merge_task_plan base patch = record {
  affinity = first_some patch.affinity base.affinity;
  nice = first_some patch.nice base.nice;
  scheduling_class = first_some patch.scheduling_class base.scheduling_class;
  rt_priority = first_some patch.rt_priority base.rt_priority;
  uclamp_min = first_some patch.uclamp_min base.uclamp_min;
  uclamp_max = first_some patch.uclamp_max base.uclamp_max;
}

-- A stable sort by falling priority.
unfoldable pub insert_rule : AppRule → List AppRule → List AppRule
insert_rule r [] = r ∷ []
insert_rule r (x ∷ xs) =
    let rest = insert_rule r xs in if ltℤ r.priority x.priority then x ∷ rest else r ∷ x ∷ xs

unfoldable pub sort_rules : List AppRule → List AppRule
unfolding insert_rule
sort_rules [] = []
sort_rules (r ∷ rs) = insert_rule r (sort_rules rs)

-- `AppsConfig::ordered_enabled_rules`.
unfoldable pub ordered_enabled_rules : List AppRule → List AppRule
unfolding sort_rules
ordered_enabled_rules rules = sort_rules (keep (λ r. r.enabled) rules)

module _ (floats : Floats) where
  open floats use {F}

  pub record PowerBudgetPatch : Type 0 where
    pub slow_limit_power_mw : Option ℕ
    pub fast_limit_power_mw : Option ℕ
    pub fast_limit_capacity_mj : Option ℕ
    pub fast_limit_recover_scale : Option F

  pub record ScenePatch : Type 0 where
    pub margin : Option F
    pub burst : Option F
    pub limit_efficiency : Option Bool
    pub power_budget : Option PowerBudgetPatch
    pub scalar_values : List (TargetId × ScalarSettingValue)

  pub record ProfileConfig : Type 0 where
    pub id : ProfileId
    pub margin : F
    pub burst : F
    pub limit_efficiency : Bool
    pub power_budget : Option (PowerBudgetConfig floats)
    pub scalar_values : List (TargetId × ScalarSettingValue)
    pub scenes : List (Scene × ScenePatch)

  -- The part of `PolicyConfig` that the engine reads.
  pub record PolicyConfig : Type 0 where
    pub default_profile : ProfileId
    pub profiles : List ProfileConfig
    pub governor : GovernorConfig floats
    pub scheduler : SchedulerConfig

  abbrev pub same_profile : ProfileId → ProfileId → Bool
  same_profile ProfileId.powersave ProfileId.powersave = true
  same_profile ProfileId.balance ProfileId.balance = true
  same_profile ProfileId.performance ProfileId.performance = true
  same_profile a b = false

  -- `PolicyConfig::profile`.
  unfoldable pub profile_of : PolicyConfig → ProfileId → Option ProfileConfig
  profile_of config id = find (λ p. same_profile p.id id) config.profiles

  abbrev pub map_option {ℓ κ} : {A : Type ℓ} {B : Type κ} → (A → B) → Option A → Option B
  map_option f none = none
  map_option f (some a) = some (f a)

  abbrev pub budget_of :
      Option ℕ → Option ℕ → Option ℕ → Option F → Option (PowerBudgetConfig floats)
  budget_of (some slow) (some fast) (some capacity) (some scale) = some (record {
    slow_limit_power_mw = slow;
    fast_limit_power_mw = fast;
    fast_limit_capacity_mj = capacity;
    fast_limit_recover_scale = scale;
  })
  budget_of slow fast capacity scale = none

  -- Each field from the patch, else from the base; without one of them there is no budget.
  unfoldable pub resolve_power_budget :
      Option (PowerBudgetConfig floats) → PowerBudgetPatch → Option (PowerBudgetConfig floats)
  resolve_power_budget base patch =
      budget_of
        (first_some patch.slow_limit_power_mw (map_option (λ b. b.slow_limit_power_mw) base))
        (first_some patch.fast_limit_power_mw (map_option (λ b. b.fast_limit_power_mw) base))
        (first_some patch.fast_limit_capacity_mj (map_option (λ b. b.fast_limit_capacity_mj) base))
        (first_some patch.fast_limit_recover_scale
          (map_option (λ b. b.fast_limit_recover_scale) base))
