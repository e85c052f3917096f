-- ===== src/Core/Examples/Policy.antt =====
-- Evaluations of the policy engine: one cluster and one device, an override, a degraded thermal
-- state, and a workload with one thread.
use uperf_linux_rev.Core.Energy.Transition.{transition_governor}
use uperf_linux_rev.Core.Energy.Governor.{prepare_cluster, default_state}
use uperf_linux_rev.Core.Energy.Model.{opp_at_or_below}
use uperf_linux_rev.Core.Frequency.{
  validate, hard_cap, snap_down, usable_opps, constrained_max, constrain_frequency_limits,
}
use uperf_linux_rev.Base.Maps.{insert, get, contains_key}
use uperf_linux_rev.Core.Sorting.{least, greatest, sort_unstable, dedup}
use uperf_linux_rev.Core.Scene.{
  resolve_effective_profile, boost, SchedulerScene, auto, balance, Scene,
}
use uperf_linux_rev.Base.Text.{Text, text, text_key}
use uperf_linux_rev.Base.{
  ℕ, ◌≡◌, refl, ◌≢◌, true, false, none, some, [], ◌∷◌, arith, is_some, ok, All,
}
use uperf_linux_rev.Core.Domain.{ProcessInfo, TaskPlan, identity_key}
use uperf_linux_rev.Core.Examples.Energy.{
  big, budget, cluster, frequency, governor, little, value_or,
}
use uperf_linux_rev.Core.Examples.Load.{naturals}
use uperf_linux_rev.Core.Policy.Config.{
  PolicyConfig, ProfileConfig, SchedulerConfig, TaskProfileConfig,
}
use uperf_linux_rev.Core.Policy.Engine.{DesiredPlan, PolicyInput, evaluate_base}
use uperf_linux_rev.Core.Policy.Stateful.{StatefulPolicyEvaluation, evaluate_stateful}
use uperf_linux_rev.Core.Policy.Safety.{IsAllowed}
use uperf_linux_rev.Core.Policy.Plans.{AreWords, evaluate_stateful-IsAllowed}
use uperf_linux_rev.Core.Policy.Precedence.{evaluate_base-degraded, evaluate_stateful-overridden}
use uperf_linux_rev.Core.Policy.Rules.{Regexes}
use uperf_linux_rev.Core.Policy.Scheduler.{
  SchedulerDecision, evaluate_scheduler, focus, no_decision,
}
use uperf_linux_rev.Core.Policy.Tasks.{IsPlanned, evaluate_scheduler-IsPlanned}

abbrev no_plan : TaskPlan
no_plan = record {
  affinity = none;
  nice = none;
  scheduling_class = none;
  rt_priority = none;
  uclamp_min = none;
  uclamp_max = none;
}

abbrev focus_profile : TaskProfileConfig
focus_profile = record {
  id = text "focus";
  affinity_group = none;
  plan = record no_plan { uclamp_min = some 256 };
  scenes = [];
}

abbrev scheduler : SchedulerConfig
scheduler = record {
  enabled = true;
  task_profiles = focus_profile ∷ [];
  process_rules = [];
  focus = record {
    enabled = true;
    task_profile = some (text "focus");
    lease_ttl_ms = 15000;
    debounce_ms = 150;
    protected = [];
  };
}

abbrev profile : ProfileConfig naturals
profile = record {
  id = balance;
  margin = 0;
  burst = 0;
  limit_efficiency = false;
  power_budget = some budget;
  scalar_values = [];
  scenes = [];
}

abbrev config : PolicyConfig naturals
config = record {
  default_profile = balance;
  profiles = profile ∷ [];
  governor = governor;
  scheduler = scheduler;
}

abbrev gpu : Text
gpu = text "gpu"

-- The little cluster is overridden, the big one is governed, and the device is capped.
abbrev input : PolicyInput naturals
input = record {
  generation = 7;
  timestamp = 1000;
  cpu_loads = (0, 1) ∷ (4, 1) ∷ [];
  observed_frequencies = [];
  mode = auto;
  app_profile = none;
  hints = [];
  cpu_targets = (little, cluster (0 ∷ [])) ∷ (big, cluster (4 ∷ [])) ∷ [];
  manual_target_policies = (gpu, frequency) ∷ [];
  manual_overrides = (little, record { min = 300; max = 1000 }) ∷ [];
  administrator_caps = (gpu, 1000) ∷ [];
  thermal_caps = (little, 2000) ∷ (big, 1500) ∷ (gpu, 2000) ∷ [];
  thermal_degraded = true;
}

abbrev no_desire : DesiredPlan
no_desire = record {
  generation = 0;
  effective_profile = balance;
  dominant_scene = Scene.idle;
  frequencies = [];
  scalars = [];
  tasks = [];
}

abbrev base : DesiredPlan
base = value_or no_desire (evaluate_base naturals config input)

base_succeeds : evaluate_base naturals config input ≡ ok base
unfolding evaluate_base resolve_effective_profile get constrain_frequency_limits constrained_max
    usable_opps dedup sort_unstable snap_down greatest hard_cap least contains_key insert validate
base_succeeds = refl

abbrev nothing : StatefulPolicyEvaluation naturals
nothing = record {
  desired = no_desire;
  next_governor_state = default_state naturals;
  governor_diagnostics = none;
}

abbrev evaluation : StatefulPolicyEvaluation naturals
evaluation =
    value_or nothing (evaluate_stateful naturals config input (default_state naturals) true)

evaluation_succeeds :
    evaluate_stateful naturals config input (default_state naturals) true ≡ ok evaluation
unfolding evaluate_stateful default_state resolve_effective_profile get constrain_frequency_limits
    constrained_max usable_opps dedup sort_unstable snap_down greatest hard_cap least contains_key
    insert validate transition_governor prepare_cluster opp_at_or_below
evaluation_succeeds = refl

are_words : AreWords naturals input
are_words = record { cpus = omega arith; manuals = omega arith }

evaluate_stateful-IsAllowed_example : All (IsAllowed naturals input) evaluation.desired.frequencies
evaluate_stateful-IsAllowed_example =
    evaluate_stateful-IsAllowed naturals input config (default_state naturals) true evaluation
      are_words evaluation_succeeds

evaluate_base-degraded_example :
    All (λ x. is_some (get x.0 input.thermal_caps) ≡ true) input.cpu_targets
    × (base.dominant_scene ≢ boost)
evaluate_base-degraded_example =
    evaluate_base-degraded naturals input config base refl base_succeeds

little_overridden : contains_key little input.manual_overrides ≡ true
unfolding contains_key
little_overridden = refl

evaluate_stateful-overridden_example :
    get little evaluation.desired.frequencies ≡ get little base.frequencies
evaluate_stateful-overridden_example =
    evaluate_stateful-overridden naturals input config (default_state naturals) true base evaluation
      little little_overridden base_succeeds evaluation_succeeds

-- Expressions that match nothing.
abbrev regexes : Regexes
regexes = record { Regex = ℕ; compile = λ pattern. ok 0; is_match = λ r comm. false }

abbrev process : ℕ → ProcessInfo
process pid = record {
  identity = record { pid = pid; start_time_ticks = 5; uid = 1000 };
  owner_control_safe = true;
  comm = text "game";
  executable = none;
  desktop_id = none;
}

abbrev decision : SchedulerDecision
decision = value_or no_decision (
    evaluate_scheduler regexes scheduler [] (process 10) (process 11 ∷ []) focus
      SchedulerScene.touch)

decision_succeeds :
    evaluate_scheduler regexes scheduler []
      (process 10)
      (process 11 ∷ [])
      focus
      SchedulerScene.touch
    ≡ ok decision
unfolding evaluate_scheduler
decision_succeeds = refl

evaluate_scheduler-IsPlanned_example :
    All (IsPlanned scheduler SchedulerScene.touch (process 10) (process 11 ∷ [])) decision.tasks
evaluate_scheduler-IsPlanned_example =
    evaluate_scheduler-IsPlanned scheduler SchedulerScene.touch (process 10) (process 11 ∷ [])
      regexes [] focus decision decision_succeeds
