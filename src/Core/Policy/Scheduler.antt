-- ===== src/Core/Policy/Scheduler.antt =====
-- Scheduler decisions: `evaluate_scheduler` and `focus_default_decision` of
-- crates/uperf-core/src/policy.rs.
use uperf_linux_rev.Base.Maps.{get, insert}
use uperf_linux_rev.Base.Text.{Text, text, same_text}
use uperf_linux_rev.Base.Results.{◌>>=◌}
use uperf_linux_rev.Base.{
  Bool, true, false, not, ◌||◌, Option, none, some, List, [], ◌∷◌, ◌==◌, if◌then◌else◌, Result, ok,
  ok_or, find, keep,
}
use uperf_linux_rev.Core.Domain.{
  ProcessIdentity, ProcessInfo, TaskPlan, identity_key, same_identity,
}
use uperf_linux_rev.Core.Errors.{PolicyError, missing_task_profile}
use uperf_linux_rev.Core.Scene.{SchedulerScene, scheduler_scene_key}
use uperf_linux_rev.Core.Policy.Config.{
  ProcessRuleConfig, SchedulerConfig, TaskProfileConfig, ThreadRuleConfig, merge_task_plan,
}
use uperf_linux_rev.Core.Policy.Rules.{
  CompiledSchedulerRule, CompiledThreadSelector, Regexes, matcher_matches, selector_matches,
}

pub data WorkloadSource : Type 0 where
  explicit focus : WorkloadSource

-- `FOCUS_DEFAULT_RULE`.
abbrev pub focus_default_rule : Text
focus_default_rule = text "focus-default"

abbrev pub Tasks : Type 0
Tasks = List (ProcessIdentity × TaskPlan)

pub record SchedulerDecision : Type 0 where
  pub tasks : Tasks
  pub cgroup_class : Option Text
  pub matched_rule : Option Text

abbrev pub no_decision : SchedulerDecision
no_decision = record { tasks = []; cgroup_class = none; matched_rule = none }

abbrev patched : TaskPlan → Option TaskPlan → TaskPlan
patched plan none = plan
patched plan (some patch) = merge_task_plan plan patch

-- `effective_task_plan`.
unfoldable pub effective_task_plan : TaskProfileConfig → SchedulerScene → TaskPlan
unfolding merge_task_plan
effective_task_plan profile scene = patched profile.plan (get scene profile.scenes)

-- The profile of an id, or the error that names it.
unfoldable pub find_task_profile : SchedulerConfig → Text → Result PolicyError TaskProfileConfig
find_task_profile config id =
    ok_or (find (λ p. same_text p.id id) config.task_profiles) (missing_task_profile id)

-- The plan of a profile in a scene.
unfoldable pub plan_for : SchedulerConfig → SchedulerScene → Text → Result PolicyError TaskPlan
unfolding find_task_profile effective_task_plan
plan_for config scene id = do p ← find_task_profile config id; ok (effective_task_plan p scene)

-- `iter().zip(..).find(..)`: the first pair whose second half passes.
abbrev pub find_paired {ℓ κ} :
    {A : Type ℓ} {B : Type κ} → (B → Bool) → List A → List B → Option (A × B)
find_paired p [] bs = none
find_paired p (a ∷ as') [] = none
find_paired p (a ∷ as') (b ∷ bs) = if p b then some (a, b) else find_paired p as' bs

abbrev pub same_user : ProcessInfo → ProcessInfo → Bool
same_user a b = a.identity.uid == b.identity.uid

-- The plan that the process rule itself names.
unfoldable pub process_tasks :
    SchedulerConfig → SchedulerScene → ProcessInfo → Option Text → Result PolicyError Tasks
unfolding plan_for
process_tasks config scene workload none = ok []
process_tasks config scene workload (some id) = do
  plan ← plan_for config scene id
  ok (insert workload.identity plan [])

-- The workload first, then its other threads.
abbrev pub candidates : ProcessInfo → List ProcessInfo → List ProcessInfo
candidates workload threads =
    workload ∷ keep (λ t. not (same_identity t.identity workload.identity)) threads

unfoldable pub focus_tasks : TaskPlan → ProcessInfo → List ProcessInfo → Tasks → Tasks
focus_tasks plan workload [] tasks = tasks
focus_tasks plan workload (t ∷ ts) tasks =
    focus_tasks plan workload ts
      (if same_user t workload then insert t.identity plan tasks else tasks)

unfoldable pub focus_decision :
    SchedulerConfig
    → SchedulerScene
    → ProcessInfo
    → List ProcessInfo
    → Option Text
    → Result PolicyError SchedulerDecision
unfolding focus_tasks plan_for
focus_decision config scene workload threads none = ok no_decision
focus_decision config scene workload threads (some id) = do
  plan ← plan_for config scene id
  ok (record {
    tasks = focus_tasks plan workload threads (insert workload.identity plan []);
    cgroup_class = none;
    matched_rule = some focus_default_rule;
  })

abbrev pub is_focus : WorkloadSource → Bool
is_focus focus = true
is_focus explicit = false

-- `focus_default_decision`: only a focused workload, and only where the feature is on.
unfoldable pub focus_default_decision :
    SchedulerConfig
    → SchedulerScene
    → ProcessInfo
    → List ProcessInfo
    → WorkloadSource
    → Result PolicyError SchedulerDecision
unfolding focus_decision
focus_default_decision config scene workload threads source =
    if not (is_focus source) || not config.focus.enabled
    then ok no_decision
    else focus_decision config scene workload threads config.focus.task_profile

module _ (regexes : Regexes) where
  abbrev pub FoundThread : Type 0
  FoundThread = Option (ThreadRuleConfig × CompiledThreadSelector regexes)

  unfoldable pub with_thread :
      SchedulerConfig
      → SchedulerScene
      → ProcessInfo
      → Tasks
      → FoundThread
      → Result PolicyError Tasks
  unfolding plan_for
  with_thread config scene thread tasks none = ok tasks
  with_thread config scene thread tasks (some (rule, selector)) = do
    plan ← plan_for config scene rule.task_profile
    ok (insert thread.identity plan tasks)

  -- One thread: threads of another user are left alone.
  unfoldable pub decide_thread :
      SchedulerConfig
      → SchedulerScene
      → ProcessInfo
      → List ThreadRuleConfig
      → List (CompiledThreadSelector regexes)
      → ProcessInfo
      → Tasks
      → Result PolicyError Tasks
  unfolding with_thread
  decide_thread config scene workload rules selectors thread tasks =
      if not (same_user thread workload)
      then ok tasks
      else with_thread config scene thread tasks
          (find_paired (λ s. selector_matches regexes s workload thread) rules selectors)

  unfoldable pub decide_threads :
      SchedulerConfig
      → SchedulerScene
      → ProcessInfo
      → List ThreadRuleConfig
      → List (CompiledThreadSelector regexes)
      → List ProcessInfo
      → Tasks
      → Result PolicyError Tasks
  unfolding decide_thread
  decide_threads config scene workload rules selectors [] tasks = ok tasks
  decide_threads config scene workload rules selectors (t ∷ ts) tasks = do
    next ← decide_thread config scene workload rules selectors t tasks
    decide_threads config scene workload rules selectors ts next

  unfoldable pub rule_decision :
      SchedulerConfig
      → SchedulerScene
      → ProcessInfo
      → List ProcessInfo
      → ProcessRuleConfig
      → CompiledSchedulerRule regexes
      → Result PolicyError SchedulerDecision
  unfolding process_tasks decide_threads
  rule_decision config scene workload threads rule compiled = do
    first ← process_tasks config scene workload rule.task_profile
    tasks ←
        decide_threads config scene workload rule.threads compiled.thread_selectors
          (candidates workload threads) first
    ok (record { tasks = tasks; cgroup_class = rule.cgroup_class; matched_rule = some rule.name })

  unfoldable pub decide_found :
      SchedulerConfig
      → SchedulerScene
      → ProcessInfo
      → List ProcessInfo
      → WorkloadSource
      → Option (ProcessRuleConfig × CompiledSchedulerRule regexes)
      → Result PolicyError SchedulerDecision
  unfolding rule_decision focus_default_decision
  decide_found config scene workload threads source none =
      focus_default_decision config scene workload threads source
  decide_found config scene workload threads source (some (rule, compiled)) =
      rule_decision config scene workload threads rule compiled

  -- `PolicyEngine::evaluate_scheduler`, with the compiled rules of the engine.
  unfoldable pub evaluate_scheduler :
      SchedulerConfig
      → List (CompiledSchedulerRule regexes)
      → ProcessInfo
      → List ProcessInfo
      → WorkloadSource
      → SchedulerScene
      → Result PolicyError SchedulerDecision
  unfolding decide_found
  evaluate_scheduler config rules workload threads source scene =
      if not config.enabled
      then ok no_decision
      else decide_found config scene workload threads source (
          find_paired
            (λ (r : CompiledSchedulerRule regexes). matcher_matches regexes r.matcher workload)
            config.process_rules rules)
