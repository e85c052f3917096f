-- ===== src/Core/Policy/Tasks.antt =====
-- Whose tasks a scheduler decision touches, and with what plans.
use uperf_linux_rev.Core.Policy.Rules.{
  matcher_matches, CompiledSchedulerRule, CompiledThreadSelector, Regexes, selector_matches,
}
use uperf_linux_rev.Core.Domain.{
  same_identity, ProcessIdentity, ProcessInfo, TaskPlan, identity_key,
}
use uperf_linux_rev.Core.Policy.Config.{
  ProcessRuleConfig, SchedulerConfig, TaskProfileConfig, ThreadRuleConfig,
}
use uperf_linux_rev.Core.Policy.Scheduler.{
  decide_found, candidates, rule_decision, evaluate_scheduler, FoundThread, SchedulerDecision,
  Tasks, WorkloadSource, decide_thread, decide_threads, effective_task_plan, find_paired,
  focus_decision, focus_default_decision, focus_tasks, is_focus, plan_for, process_tasks, same_user,
  find_task_profile, with_thread,
}
use uperf_linux_rev.Base.Maps.{insert, All-insert}
use uperf_linux_rev.Base.Text.{Text, same_text}
use uperf_linux_rev.Base.Results.{bind-ok}
use uperf_linux_rev.Base.{
  ◌≡◌, refl, sym, ap, ◌∙◌, subst, inl, inr, not, ◌||◌, Option, none, some, List, [], ◌∷◌,
  if◌then◌else◌, ==_iff, Bool-cases, ok, ok_or, find, All, In, In-keep, ok-injective, if-cases,
  if-true, if-false,
}
use uperf_linux_rev.Core.Energy.Expansion.{find-some}
use uperf_linux_rev.Core.Errors.{PolicyError, missing_task_profile}
use uperf_linux_rev.Core.Scene.{SchedulerScene}

module _ (config : SchedulerConfig) (scene : SchedulerScene) (workload : ProcessInfo)
    (threads : List ProcessInfo) where
  -- The workload or one of its threads, of the workload's user.
  pub record IsOwn (p : ProcessInfo) : Type 0 where
    pub listed : In p (workload ∷ threads)
    pub user : p.identity.uid ≡ workload.identity.uid

  -- What a configured task profile asks for in the scene.
  pub record IsConfigured (plan : TaskPlan) : Type 0 where
    pub profile : TaskProfileConfig
    pub among : In profile config.task_profiles
    pub effective : plan ≡ effective_task_plan profile scene

  pub record IsPlanned (entry : ProcessIdentity × TaskPlan) : Type 0 where
    pub process : ProcessInfo
    pub own : IsOwn process
    pub named : process.identity ≡ entry.0
    pub configured : IsConfigured entry.1

  find_or-ok :
      (o : Option TaskProfileConfig) (e : PolicyError) {p : TaskProfileConfig}
      → ok_or o e ≡ ok p
      → o ≡ some p
  find_or-ok none e h = cc
  find_or-ok (some q) e h = cc

  plan_for-IsConfigured :
      (id : Text) (plan : TaskPlan) → plan_for config scene id ≡ ok plan → IsConfigured plan
  unfolding plan_for find_task_profile
  plan_for-IsConfigured id plan h =
      let found = find (λ (p : TaskProfileConfig). same_text p.id id) config.task_profiles in
      let (p, at, h₁) = bind-ok (ok_or found (missing_task_profile id)) _ h in
      record {
        profile = p;
        among =
            (find-some (λ (q : TaskProfileConfig). same_text q.id id) config.task_profiles
              (find_or-ok found (missing_task_profile id) at)).0;
        effective = sym (ok-injective h₁);
      }

  planned :
      (p : ProcessInfo) (plan : TaskPlan)
      → IsOwn p
      → IsConfigured plan
      → IsPlanned (p.identity, plan)
  planned p plan own configured = record {
    process = p;
    own = own;
    named = refl;
    configured = configured;
  }

  workload-IsOwn : IsOwn workload
  workload-IsOwn = record { listed = inl refl; user = refl }

  focus_tasks-IsPlanned :
      (plan : TaskPlan) (ts : List ProcessInfo) (tasks : Tasks)
      → IsConfigured plan
      → ((t : ProcessInfo) → In t ts → In t threads)
      → All IsPlanned tasks
      → All IsPlanned (focus_tasks plan workload ts tasks)
  unfolding focus_tasks
  focus_tasks-IsPlanned plan [] tasks c sub a = a
  focus_tasks-IsPlanned plan (t ∷ ts) tasks c sub a =
      focus_tasks-IsPlanned plan ts
        (if same_user t workload then insert t.identity plan tasks else tasks) c
        (λ u m. sub u (inr m))
        (if-cases (All IsPlanned) (same_user t workload) (insert t.identity plan tasks) tasks
          (λ e.
            All-insert IsPlanned t.identity plan tasks
              (planned t plan
                (record {
                  listed = inr (sub t (inl refl));
                  user = (==_iff t.identity.uid workload.identity.uid).0 e;
                })
                c)
              a)
          (λ _. a))

  focus_decision-IsPlanned :
      (profile : Option Text) (d : SchedulerDecision)
      → focus_decision config scene workload threads profile ≡ ok d
      → All IsPlanned d.tasks
  unfolding focus_decision
  focus_decision-IsPlanned none d h =
      subst (λ (x : SchedulerDecision). All IsPlanned x.tasks) (ok-injective h) tt
  focus_decision-IsPlanned (some id) d h =
      let (plan, at, h₁) = bind-ok (plan_for config scene id) _ h in
      let c = plan_for-IsConfigured id plan at in
      subst (λ (x : SchedulerDecision). All IsPlanned x.tasks) (ok-injective h₁)
        (focus_tasks-IsPlanned plan threads (insert workload.identity plan []) c (λ t m. m)
          (All-insert IsPlanned workload.identity plan [] (planned workload plan workload-IsOwn c)
            tt))

  focus_default_decision-IsPlanned :
      (source : WorkloadSource) (d : SchedulerDecision)
      → focus_default_decision config scene workload threads source ≡ ok d
      → All IsPlanned d.tasks
  unfolding focus_default_decision
  focus_default_decision-IsPlanned source d h =
      elim (Bool-cases (not (is_focus source) || not config.focus.enabled)) [
        | inl off ↦
            subst (λ (x : SchedulerDecision). All IsPlanned x.tasks)
              (ok-injective (sym (if-true _ _ _ off) ∙ h)) tt
        | inr on ↦
            focus_decision-IsPlanned config.focus.task_profile d (sym (if-false _ _ _ on) ∙ h)
      ]

  module _ (regexes : Regexes) where
    process_tasks-IsPlanned :
        (profile : Option Text) (tasks : Tasks)
        → process_tasks config scene workload profile ≡ ok tasks
        → All IsPlanned tasks
    unfolding process_tasks
    process_tasks-IsPlanned none tasks h = subst (All IsPlanned) (ok-injective h) tt
    process_tasks-IsPlanned (some id) tasks h =
        let (plan, at, h₁) = bind-ok (plan_for config scene id) _ h in
        subst (All IsPlanned) (ok-injective h₁) (
          All-insert IsPlanned workload.identity plan []
            (planned workload plan workload-IsOwn (plan_for-IsConfigured id plan at)) tt)

    with_thread-IsPlanned :
        (t : ProcessInfo) (tasks next : Tasks) (found : FoundThread regexes)
        → IsOwn t
        → All IsPlanned tasks
        → with_thread regexes config scene t tasks found ≡ ok next
        → All IsPlanned next
    unfolding with_thread
    with_thread-IsPlanned t tasks next none own a h = subst (All IsPlanned) (ok-injective h) a
    with_thread-IsPlanned t tasks next (some (rule, selector)) own a h =
        let (plan, at, h₁) = bind-ok (plan_for config scene rule.task_profile) _ h in
        subst (All IsPlanned) (ok-injective h₁) (
          All-insert IsPlanned t.identity plan tasks
            (planned t plan own (plan_for-IsConfigured rule.task_profile plan at)) a)

    decide_thread-IsPlanned :
        (rules : List ThreadRuleConfig) (selectors : List (CompiledThreadSelector regexes))
        (t : ProcessInfo) (tasks next : Tasks)
        → In t (workload ∷ threads)
        → All IsPlanned tasks
        → decide_thread regexes config scene workload rules selectors t tasks ≡ ok next
        → All IsPlanned next
    unfolding decide_thread
    decide_thread-IsPlanned rules selectors t tasks next m a h =
        elim (Bool-cases (same_user t workload)) [
          | inl same ↦
              with_thread-IsPlanned t tasks next
                (find_paired
                  (λ (s : CompiledThreadSelector regexes). selector_matches regexes s workload t)
                  rules selectors)
                (record { listed = m; user = (==_iff t.identity.uid workload.identity.uid).0 same })
                a (sym (if-false _ _ _ (ap not same)) ∙ h)
          | inr other ↦
              subst (All IsPlanned) (ok-injective (sym (if-true _ _ _ (ap not other)) ∙ h)) a
        ]

    decide_threads-IsPlanned :
        (rules : List ThreadRuleConfig) (selectors : List (CompiledThreadSelector regexes))
        (ts : List ProcessInfo) (tasks next : Tasks)
        → ((t : ProcessInfo) → In t ts → In t (workload ∷ threads))
        → All IsPlanned tasks
        → decide_threads regexes config scene workload rules selectors ts tasks ≡ ok next
        → All IsPlanned next
    unfolding decide_threads
    decide_threads-IsPlanned rules selectors [] tasks next sub a h =
        subst (All IsPlanned) (ok-injective h) a
    decide_threads-IsPlanned rules selectors (t ∷ ts) tasks next sub a h =
        let (mid, first, h₁) =
          bind-ok (decide_thread regexes config scene workload rules selectors t tasks) _ h in
        decide_threads-IsPlanned rules selectors ts mid next (λ u m. sub u (inr m))
          (decide_thread-IsPlanned rules selectors t tasks mid (sub t (inl refl)) a first) h₁

    candidates-listed :
        (t : ProcessInfo) → In t (candidates workload threads) → In t (workload ∷ threads)
    candidates-listed t (inl e) = inl e
    candidates-listed t (inr m) =
        inr
          (In-keep (λ (u : ProcessInfo). not (same_identity u.identity workload.identity)) threads t
            m).0

    rule_decision-IsPlanned :
        (rule : ProcessRuleConfig) (compiled : CompiledSchedulerRule regexes)
        (d : SchedulerDecision)
        → rule_decision regexes config scene workload threads rule compiled ≡ ok d
        → All IsPlanned d.tasks
    unfolding rule_decision
    rule_decision-IsPlanned rule compiled d h =
        let (first, own, h₁) =
          bind-ok (process_tasks config scene workload rule.task_profile) _ h in
        let (tasks, all_of, h₂) =
          bind-ok
            (decide_threads regexes config scene workload rule.threads compiled.thread_selectors
              (candidates workload threads) first)
            _ h₁ in
        subst (λ (x : SchedulerDecision). All IsPlanned x.tasks) (ok-injective h₂)
          (decide_threads-IsPlanned rule.threads compiled.thread_selectors
            (candidates workload threads) first tasks candidates-listed
            (process_tasks-IsPlanned rule.task_profile first own) all_of)

    decide_found-IsPlanned :
        (source : WorkloadSource) (d : SchedulerDecision)
        (found : Option (ProcessRuleConfig × CompiledSchedulerRule regexes))
        → decide_found regexes config scene workload threads source found ≡ ok d
        → All IsPlanned d.tasks
    unfolding decide_found
    decide_found-IsPlanned source d none h = focus_default_decision-IsPlanned source d h
    decide_found-IsPlanned source d (some (rule, compiled)) h =
        rule_decision-IsPlanned rule compiled d h

    -- Every task of a scheduler decision is the workload or one of the threads that were given, of
    -- the workload's own user, and its plan is that of a configured task profile in the scene.
    pub evaluate_scheduler-IsPlanned :
        (rules : List (CompiledSchedulerRule regexes)) (source : WorkloadSource)
        (d : SchedulerDecision)
        → evaluate_scheduler regexes config rules workload threads source scene ≡ ok d
        → All IsPlanned d.tasks
    unfolding evaluate_scheduler
    evaluate_scheduler-IsPlanned rules source d h = elim (Bool-cases config.enabled) [
      | inl on ↦
          decide_found-IsPlanned source d
            (find_paired
              (λ (r : CompiledSchedulerRule regexes). matcher_matches regexes r.matcher workload)
              config.process_rules rules)
            (sym (if-false _ _ _ (ap not on)) ∙ h)
      | inr off ↦
          subst (λ (x : SchedulerDecision). All IsPlanned x.tasks)
            (ok-injective (sym (if-true _ _ _ (ap not off)) ∙ h)) tt
    ]
