-- ===== src/Core/Policy/Parameters.antt =====
-- Parameters and loads of an evaluation: `effective_parameters`, `max_cpu_demand`,
-- `summed_cpu_demand` and `cluster_load_views` of crates/uperf-core/src/policy.rs.
use uperf_linux_rev.Base.Maps.{nat_key, get, insert}
use uperf_linux_rev.Base.Text.{text_key}
use uperf_linux_rev.Base.{ℕ, Bool, Option, none, some, List, [], ◌∷◌, if◌then◌else◌, some_or}
use uperf_linux_rev.Core.Float.{Floats}
use uperf_linux_rev.Core.Domain.{CpuSet, ScalarSettingValue, TargetId}
use uperf_linux_rev.Core.Scene.{Scene, scene_key}
use uperf_linux_rev.Core.Energy.Bucket.{PowerBudgetConfig}
use uperf_linux_rev.Core.Energy.Governor.{CpuTargetPolicy}
use uperf_linux_rev.Core.Policy.Config.{
  ProfileConfig, ScenePatch, resolve_power_budget, PowerBudgetPatch,
}

-- `BTreeMap::extend`.
unfoldable pub extend :
    {V : Type 0} → List (TargetId × V) → List (TargetId × V) → List (TargetId × V)
extend base [] = base
extend base ((k, v) ∷ more) = extend (insert k v base) more

module _ (floats : Floats) where
  open floats use {F}

  pub record EffectiveParameters : Type 0 where
    pub margin : F
    pub burst : F
    pub limit_efficiency : Bool
    pub power_budget : Option (PowerBudgetConfig floats)
    pub scalar_values : List (TargetId × ScalarSettingValue)

  abbrev patched_budget :
      Option (PowerBudgetConfig floats)
      → Option (PowerBudgetPatch floats)
      → Option (PowerBudgetConfig floats)
  patched_budget base none = base
  patched_budget base (some patch) = resolve_power_budget floats base patch

  unfoldable pub patched_parameters :
      ProfileConfig floats → Option (ScenePatch floats) → EffectiveParameters
  unfolding extend resolve_power_budget
  patched_parameters profile none = record {
    margin = profile.margin;
    burst = profile.burst;
    limit_efficiency = profile.limit_efficiency;
    power_budget = profile.power_budget;
    scalar_values = profile.scalar_values;
  }
  patched_parameters profile (some patch) = record {
    margin = some_or patch.margin profile.margin;
    burst = some_or patch.burst profile.burst;
    limit_efficiency = some_or patch.limit_efficiency profile.limit_efficiency;
    power_budget = patched_budget profile.power_budget patch.power_budget;
    scalar_values = extend profile.scalar_values patch.scalar_values;
  }

  -- `effective_parameters`.
  unfoldable pub effective_parameters : ProfileConfig floats → Scene → EffectiveParameters
  unfolding patched_parameters
  effective_parameters profile scene = patched_parameters profile (get scene profile.scenes)

  -- `filter_map(get).filter(is_finite).map(clamp)`.
  unfoldable pub unit_loads : CpuSet → List (ℕ × F) → List F
  unit_loads [] loads = []
  unit_loads (cpu ∷ cpus) loads =
      let rest = unit_loads cpus loads in
      elim (get cpu loads) [
        | none ↦ rest
        | some load ↦
            if floats.is_finite load then floats.clamp load floats.zero floats.one ∷ rest else rest
      ]

  unfoldable pub fold_max : F → List F → F
  fold_max acc [] = acc
  fold_max acc (x ∷ xs) = fold_max (floats.max acc x) xs

  unfoldable pub max_cpu_demand : CpuSet → List (ℕ × F) → F
  unfolding unit_loads fold_max
  max_cpu_demand cpus loads = fold_max floats.zero (unit_loads cpus loads)

  unfoldable pub summed_cpu_demand : CpuSet → List (ℕ × F) → F
  unfolding unit_loads
  summed_cpu_demand cpus loads = floats.sum (unit_loads cpus loads)

  -- `cluster_load_views`: one of the two maps, for the given view of a cluster.
  unfoldable pub load_view :
      (CpuSet → List (ℕ × F) → F)
      → List (ℕ × F)
      → List (TargetId × CpuTargetPolicy floats)
      → List (TargetId × F)
      → List (TargetId × F)
  load_view demand loads [] out = out
  load_view demand loads ((id, target) ∷ rest) out =
      load_view demand loads rest (insert id (demand target.cpus loads) out)
