-- ===== src/Core/Policy/Rules.antt =====
-- Compiled matchers and the application rules: `CompiledWorkloadMatcher`, `CompiledThreadSelector`,
-- `CompiledSchedulerRule` and `AppRuleEngine` of crates/uperf-core/src/policy.rs.
use uperf_linux_rev.Base.Text.{Text, same_text}
use uperf_linux_rev.Base.Results.{◌>>=◌}
use uperf_linux_rev.Base.{
  Bool, true, false, ◌&&◌, Option, none, some, List, [], ◌∷◌, ◌==◌, Result, ok, err, find,
}
use uperf_linux_rev.Core.Domain.{ProcessInfo}
use uperf_linux_rev.Core.Errors.{PolicyError, invalid_matcher_regex}
use uperf_linux_rev.Core.Scene.{ProfileId}
use uperf_linux_rev.Core.Policy.Config.{
  AppRule, ProcessRuleConfig, ThreadRuleConfig, ThreadSelector, WorkloadMatcher,
  ordered_enabled_rules,
}

-- The regular expressions of the regex crate: `Regex::new`, with the text of its error, and
-- `is_match`.
pub record Regexes : Type 1 where
  pub Regex : Type 0
  pub compile : Text → Result Text Regex
  pub is_match : Regex → Text → Bool

abbrev pub map_result {ℓ κ} :
    {E : Type ℓ} {A B : Type κ} → (A → Result E B) → List A → Result E (List B)
map_result f [] = ok []
map_result f (x ∷ xs) = f x >>= λ y. map_result f xs >>= λ ys. ok (y ∷ ys)

module _ (regexes : Regexes) where
  open regexes use {Regex}

  pub record CompiledWorkloadMatcher : Type 0 where
    pub executable : Option Text
    pub desktop_id : Option Text
    pub comm_regex : Option Regex

  abbrev pub compiled : Result Text Regex → Result PolicyError Regex
  compiled (ok r) = ok r
  compiled (err e) = err (invalid_matcher_regex e)

  abbrev pub compile_optional : Option Text → Result PolicyError (Option Regex)
  compile_optional none = ok none
  compile_optional (some pattern) = compiled (regexes.compile pattern) >>= λ r. ok (some r)

  -- `CompiledWorkloadMatcher::new`.
  unfoldable pub compile_matcher : WorkloadMatcher → Result PolicyError CompiledWorkloadMatcher
  compile_matcher m = do
    regex ← compile_optional m.comm_regex
    ok (record { executable = m.executable; desktop_id = m.desktop_id; comm_regex = regex })

  -- A pattern that is not given matches everything; one that is given matches itself.
  abbrev pub agrees : Option Text → Option Text → Bool
  agrees none value = true
  agrees (some wanted) none = false
  agrees (some wanted) (some value) = same_text value wanted

  abbrev pub agrees_regex : Option Regex → Text → Bool
  agrees_regex none comm = true
  agrees_regex (some r) comm = regexes.is_match r comm

  -- `CompiledWorkloadMatcher::is_match`.
  unfoldable pub matcher_matches : CompiledWorkloadMatcher → ProcessInfo → Bool
  matcher_matches m process =
      agrees m.executable process.executable
      && agrees m.desktop_id process.desktop_id
      && agrees_regex m.comm_regex process.comm

  pub data CompiledThreadSelector : Type 0 where
    leader : CompiledThreadSelector
    comm_regex : Regex → CompiledThreadSelector

  unfoldable pub compile_selector : ThreadSelector → Result PolicyError CompiledThreadSelector
  compile_selector ThreadSelector.leader = ok CompiledThreadSelector.leader
  compile_selector (ThreadSelector.comm_regex pattern) =
      compiled (regexes.compile pattern) >>= λ r. ok (CompiledThreadSelector.comm_regex r)

  -- `CompiledThreadSelector::is_match`: the leader of a process has its pid as thread id.
  unfoldable pub selector_matches : CompiledThreadSelector → ProcessInfo → ProcessInfo → Bool
  selector_matches CompiledThreadSelector.leader workload thread =
      thread.identity.pid == workload.identity.pid
  selector_matches (CompiledThreadSelector.comm_regex r) workload thread =
      regexes.is_match r thread.comm

  pub record CompiledSchedulerRule : Type 0 where
    pub matcher : CompiledWorkloadMatcher
    pub thread_selectors : List CompiledThreadSelector

  -- `CompiledSchedulerRule::new`.
  unfoldable pub compile_rule : ProcessRuleConfig → Result PolicyError CompiledSchedulerRule
  unfolding compile_matcher compile_selector
  compile_rule rule = do
    matcher ← compile_matcher rule.matcher
    selectors ← map_result (λ (t : ThreadRuleConfig). compile_selector t.selector) rule.threads
    ok (record { matcher = matcher; thread_selectors = selectors })

  pub record CompiledAppRule : Type 0 where
    pub matcher : CompiledWorkloadMatcher
    pub profile : ProfileId

  unfoldable pub compile_app_rule : AppRule → Result PolicyError CompiledAppRule
  unfolding compile_matcher
  compile_app_rule rule = do
    matcher ← compile_matcher rule.matcher
    ok (record { matcher = matcher; profile = rule.profile })

  -- `AppRuleEngine::new` behind the validation of the document.
  unfoldable pub compile_app_rules : List AppRule → Result PolicyError (List CompiledAppRule)
  unfolding compile_app_rule ordered_enabled_rules
  compile_app_rules rules = map_result compile_app_rule (ordered_enabled_rules rules)

  abbrev pub profile_of_rule : Option CompiledAppRule → Option ProfileId
  profile_of_rule none = none
  profile_of_rule (some r) = some r.profile

  -- `AppRuleEngine::match_profile`: the first rule that matches.
  unfoldable pub match_profile : List CompiledAppRule → ProcessInfo → Option ProfileId
  unfolding matcher_matches
  match_profile rules process =
      profile_of_rule (find (λ r. matcher_matches r.matcher process) rules)
