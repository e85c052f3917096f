-- ===== src/Core/Policy/Apps.antt =====
-- `AppRuleEngine::match_profile` of crates/uperf-core/src/policy.rs picks by priority.
use uperf_linux_rev.Base.{
  ◌≡◌, refl, sym, ap, ◌∙◌, subst, inl, inr, Bool, true, false, Option, none, some, List, [], ◌∷◌,
  arith, if◌then◌else◌, Result, ok, err, find, keep, In, In-keep, keep-In, ok-injective, ok-ne-err,
  if-cases,
}
use uperf_linux_rev.Base.Int.{◌≤ℤ◌}
use uperf_linux_rev.Base.Results.{◌>>=◌}
use uperf_linux_rev.Core.Domain.{ProcessInfo}
use uperf_linux_rev.Core.Errors.{PolicyError}
use uperf_linux_rev.Core.Scene.{ProfileId}
use uperf_linux_rev.Core.Policy.Config.{AppRule, ordered_enabled_rules}
use uperf_linux_rev.Core.Policy.Rules.{
  CompiledAppRule, CompiledWorkloadMatcher, Regexes, compile_app_rule, compile_app_rules,
  compile_matcher, map_result, match_profile, matcher_matches, profile_of_rule,
}
use uperf_linux_rev.Core.Policy.Priority.{IsFalling, sort_rules-IsFalling, sort_rules-In}

module _ (regexes : Regexes) (process : ProcessInfo) where
  -- The rule's matcher compiles and matches.
  abbrev rule_applies : Result PolicyError (CompiledWorkloadMatcher regexes) → Bool
  rule_applies (ok m) = matcher_matches regexes m process
  rule_applies (err e) = false

  unfoldable pub rule_matches : AppRule → Bool
  rule_matches rule = rule_applies (compile_matcher regexes rule.matcher)

  -- The chosen profile is that of an enabled rule that matches, and no other such rule has a higher
  -- priority; no profile is chosen only where no enabled rule matches.
  pub data IsChoice (rules : List AppRule) : Option ProfileId → Type 0 where
    unmatched :
        ((q : AppRule) → In q rules → q.enabled ≡ true → rule_matches q ≡ false)
        → IsChoice rules none
    matched :
        (r : AppRule)
        → In r rules
        → r.enabled ≡ true
        → rule_matches r ≡ true
        → ((q : AppRule)
            → In q rules
            → q.enabled ≡ true
            → rule_matches q ≡ true
            → q.priority ≤ℤ r.priority)
        → IsChoice rules (some r.profile)

  abbrev profile_in : Option AppRule → Option ProfileId
  profile_in none = none
  profile_in (some r) = some r.profile

  -- The first of a falling list.
  data IsFirst (xs : List AppRule) : Option AppRule → Type 0 where
    nowhere : ((q : AppRule) → In q xs → rule_matches q ≡ false) → IsFirst xs none
    first :
        (r : AppRule)
        → In r xs
        → rule_matches r ≡ true
        → ((q : AppRule) → In q xs → rule_matches q ≡ true → q.priority ≤ℤ r.priority)
        → IsFirst xs (some r)

  IsFirst-behind :
      (x : AppRule) (xs : List AppRule) (o : Option AppRule)
      → rule_matches x ≡ false
      → IsFirst xs o
      → IsFirst (x ∷ xs) o
  IsFirst-behind x xs _ misses (nowhere h) = nowhere λ q m. elim m [
    | inl e ↦ subst (λ (y : AppRule). rule_matches y ≡ false) (sym e) misses
    | inr k ↦ h q k
  ]
  IsFirst-behind x xs _ misses (first r at applied best) = first r (inr at) applied λ q m applies.
      elim m [
        | inl e ↦ absurd (
            true-ne-false q
              (sym applies ∙ subst (λ (y : AppRule). rule_matches y ≡ false) (sym e) misses))
        | inr k ↦ best q k applies
      ]
    where
      true-ne-false : (q : AppRule) → true ≡ false → ⊥
      true-ne-false q h = cc

  find-IsFirst : (xs : List AppRule) → IsFalling xs → IsFirst xs (find rule_matches xs)
  find-IsFirst [] h = nowhere λ q m. absurd m
  find-IsFirst (x ∷ xs) (below, rest) =
      if-cases (IsFirst (x ∷ xs)) (rule_matches x) (some x) (find rule_matches xs)
        (λ applied. first x (inl refl) applied λ q m applies. elim m [
          | inl e ↦ subst (λ (y : AppRule). y.priority ≤ℤ x.priority) (sym e) (omega arith)
          | inr k ↦ below q k
        ])
        (λ misses. IsFirst-behind x xs (find rule_matches xs) misses (find-IsFirst xs rest))

  chosen :
      (rules : List AppRule) (o : Option AppRule)
      → IsFirst (ordered_enabled_rules rules) o
      → IsChoice rules (profile_in o)
  unfolding ordered_enabled_rules
  chosen rules _ (nowhere h) = unmatched λ q m on.
      h q
        ((sort_rules-In q (keep (λ r. r.enabled) rules)).1 (keep-In (λ r. r.enabled) rules q m on))
  chosen rules _ (first r at applied best) =
      let (m, on) =
        In-keep (λ (x : AppRule). x.enabled) rules r
          ((sort_rules-In r (keep (λ x. x.enabled) rules)).0 at) in
      matched r m on applied λ q k qon applies.
        best q
          ((sort_rules-In q (keep (λ x. x.enabled) rules)).1
            (keep-In (λ x. x.enabled) rules q k qon))
          applies

  choose :
      (b : Bool) (c : CompiledAppRule regexes) (x : AppRule)
      (found : Option (CompiledAppRule regexes)) (o : Option AppRule)
      → c.profile ≡ x.profile
      → profile_of_rule regexes found ≡ profile_in o
      → profile_of_rule regexes (if b then some c else found) ≡ profile_in (if b then some x else o)
  choose true c x found o same rest = ap {B = Option ProfileId} some same
  choose false c x found o same rest = rest

  compiled_step :
      (x : AppRule) (xs : List AppRule) (c : Result PolicyError (CompiledWorkloadMatcher regexes))
      (t : Result PolicyError (List (CompiledAppRule regexes)))
      (cs : List (CompiledAppRule regexes))
      → ((c >>= λ m. ok (record { matcher = m; profile = x.profile })) >>= λ y.
          t >>= λ ys. ok (y ∷ ys))
        ≡ ok cs
      → ((ds : List (CompiledAppRule regexes))
          → t ≡ ok ds
          → match_profile regexes ds process ≡ profile_in (find rule_matches xs))
      → match_profile regexes cs process
        ≡ profile_in (if rule_applies c then some x else find rule_matches xs)
  unfolding match_profile
  compiled_step x xs (err e) t cs h rest = absurd (ok-ne-err (sym h))
  compiled_step x xs (ok m) (err e) cs h rest = absurd (ok-ne-err (sym h))
  compiled_step x xs (ok m) (ok ds) cs h rest =
      subst
        (λ es.
          match_profile regexes es process
          ≡ profile_in (if matcher_matches regexes m process then some x else find rule_matches xs))
        (ok-injective h)
        (choose (matcher_matches regexes m process) (record { matcher = m; profile = x.profile }) x
          _ _ refl (rest ds refl))

  compiled_first :
      (xs : List AppRule) (cs : List (CompiledAppRule regexes))
      → map_result (compile_app_rule regexes) xs ≡ ok cs
      → match_profile regexes cs process ≡ profile_in (find rule_matches xs)
  unfolding match_profile compile_app_rule rule_matches
  compiled_first [] cs h =
      subst (λ es. match_profile regexes es process ≡ none) (ok-injective h) refl
  compiled_first (x ∷ xs) cs h =
      compiled_step x xs (compile_matcher regexes x.matcher)
        (map_result (compile_app_rule regexes) xs) cs h (compiled_first xs)

  -- Where the rules compile, a profile that is chosen is that of an enabled rule that matches the
  -- process, and no other such rule has a higher priority; none is chosen only where no enabled
  -- rule matches.
  pub match_profile-IsChoice :
      (rules : List AppRule) (compiled : List (CompiledAppRule regexes))
      → compile_app_rules regexes rules ≡ ok compiled
      → IsChoice rules (match_profile regexes compiled process)
  unfolding compile_app_rules ordered_enabled_rules
  match_profile-IsChoice rules compiled h =
      subst (IsChoice rules) (sym (compiled_first (ordered_enabled_rules rules) compiled h)) (
        chosen rules (find rule_matches (ordered_enabled_rules rules)) (
          find-IsFirst (ordered_enabled_rules rules)
            (sort_rules-IsFalling (keep (λ r. r.enabled) rules))))
