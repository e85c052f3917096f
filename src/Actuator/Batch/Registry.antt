-- ===== src/Actuator/Batch/Registry.antt =====
-- `TargetRegistry::new` of crates/uperf-actuator/src/lib.rs.
use uperf_linux_rev.Base.Maps.{get, insert, contains_key, get-insert_here, get-insert_there}
use uperf_linux_rev.Base.Text.{Text, text_key, same_path}
use uperf_linux_rev.Base.{
  ◌≡◌, refl, sym, ◌∙◌, subst, ◌≢◌, inl, inr, Bool, false, Option, none, some, List, [], ◌∷◌,
  if◌then◌else◌, Bool-cases, is_some, Result, ok, err, any, All, ok_of_guard, ok-injective,
  ok-ne-err,
}
use uperf_linux_rev.Actuator.Batch.{TargetRegistry}
use uperf_linux_rev.Actuator.Batch.Entries.{IsRegistry, some_injective}
use uperf_linux_rev.Actuator.Errors.{ActuatorError, duplicate_target, invalid_target}
use uperf_linux_rev.Actuator.Target.{FrequencyTarget}

-- `claimed_paths`, which compares paths by their components.
abbrev pub Claims : Type 0
Claims = List (Text × Text)

abbrev pub is_claimed : Text → Claims → Bool
is_claimed path claims = any (λ c. same_path c.0 path) claims

-- The maximum's path is looked up with the minimum's already claimed.
unfoldable pub register :
    FrequencyTarget → TargetRegistry → Claims → Result ActuatorError (TargetRegistry × Claims)
register t targets claims =
    if contains_key t.id targets
    then err (duplicate_target t.id)
    else if is_claimed t.min_path claims
    then err (invalid_target t.id)
    else if is_claimed t.max_path ((t.min_path, t.id) ∷ claims)
    then err (invalid_target t.id)
    else ok (insert t.id t targets, (t.max_path, t.id) ∷ (t.min_path, t.id) ∷ claims)

abbrev pub register_rest :
    (TargetRegistry → Claims → Result ActuatorError TargetRegistry)
    → Result ActuatorError (TargetRegistry × Claims)
    → Result ActuatorError TargetRegistry
register_rest rest (ok (targets, claims)) = rest targets claims
register_rest rest (err e) = err e

unfoldable pub register_all :
    List FrequencyTarget → TargetRegistry → Claims → Result ActuatorError TargetRegistry
register_all [] targets claims = ok targets
register_all (t ∷ ts) targets claims = register_rest (register_all ts) (register t targets claims)

unfoldable pub new_registry : List FrequencyTarget → Result ActuatorError TargetRegistry
new_registry ts = register_all ts [] []

-- What a step keeps of the targets before it.
record Grows (t : FrequencyTarget) (before after : TargetRegistry) : Type 0 where
  keyed : IsRegistry before → IsRegistry after
  kept : (id : Text) (u : FrequencyTarget) → get id before ≡ some u → get id after ≡ some u
  there : get t.id after ≡ some t

none-ne-some : (t : FrequencyTarget) → none ≢ some t
none-ne-some t e = cc

absent : (o : Option FrequencyTarget) (u : FrequencyTarget) → is_some o ≡ false → o ≡ some u → ⊥
absent none u h e = none-ne-some u e
absent (some v) u h e = cc

insert-Grows :
    (t : FrequencyTarget) (targets : TargetRegistry)
    → contains_key t.id targets ≡ false
    → Grows t targets (insert t.id t targets)
unfolding contains_key
insert-Grows t targets fresh = record {
  keyed = λ h id u at. elim (Bool-cases (text_key.same t.id id)) [
    | inl same ↦
        let eq : t.id ≡ id = (text_key.same_iff t.id id).0 same in
        let here : get id (insert t.id t targets) ≡ some t =
          subst (λ x. get x (insert t.id t targets) ≡ some t) eq (get-insert_here t.id t targets) in
        subst (λ (v : FrequencyTarget). v.id ≡ id) (some_injective t u (sym here ∙ at)) eq
    | inr other ↦ h id u (sym (get-insert_there t.id id t targets other) ∙ at)
  ];
  kept = λ id u at. elim (Bool-cases (text_key.same t.id id)) [
    | inl same ↦
        let eq : t.id ≡ id = (text_key.same_iff t.id id).0 same in
        absurd (absent (get t.id targets) u fresh (subst (λ x. get x targets ≡ some u) (sym eq) at))
    | inr other ↦ get-insert_there t.id id t targets other ∙ at
  ];
  there = get-insert_here t.id t targets;
}

register-Grows :
    (t : FrequencyTarget) (targets : TargetRegistry) (claims : Claims)
    (next : TargetRegistry × Claims)
    → register t targets claims ≡ ok next
    → Grows t targets next.0
unfolding register
register-Grows t targets claims next e =
    let (fresh, e₁) = ok_of_guard (contains_key t.id targets) (duplicate_target t.id) _ e in
    let (_, e₂) = ok_of_guard (is_claimed t.min_path claims) (invalid_target t.id) _ e₁ in
    let (_, e₃) =
      ok_of_guard (is_claimed t.max_path ((t.min_path, t.id) ∷ claims)) (invalid_target t.id) _
        e₂ in
    subst (λ (n : TargetRegistry × Claims). Grows t targets n.0) (ok-injective e₃)
      (insert-Grows t targets fresh)

-- What the whole loop establishes.
pub record AreRegistered (ts : List FrequencyTarget) (before after : TargetRegistry) : Type 0 where
  pub keyed : IsRegistry before → IsRegistry after
  pub kept : (id : Text) (u : FrequencyTarget) → get id before ≡ some u → get id after ≡ some u
  pub all_there : All (λ t. get t.id after ≡ some t) ts

step :
    (t : FrequencyTarget) (ts : List FrequencyTarget) (targets registry : TargetRegistry)
    (r : Result ActuatorError (TargetRegistry × Claims))
    → ((next : TargetRegistry × Claims) → r ≡ ok next → Grows t targets next.0)
    → ((next : TargetRegistry) (claims : Claims)
        → register_all ts next claims ≡ ok registry
        → AreRegistered ts next registry)
    → register_rest (register_all ts) r ≡ ok registry
    → AreRegistered (t ∷ ts) targets registry
step t ts targets registry (err e) grows rest h = absurd (ok-ne-err (sym h))
step t ts targets registry (ok (next, claims)) grows rest h =
    let g = grows (next, claims) refl in
    let r = rest next claims h in
    record {
      keyed = λ k. r.keyed (g.keyed k);
      kept = λ id u at. r.kept id u (g.kept id u at);
      all_there = (r.kept t.id t g.there, r.all_there);
    }

register_all-AreRegistered :
    (ts : List FrequencyTarget) (targets : TargetRegistry) (claims : Claims)
    (registry : TargetRegistry)
    → register_all ts targets claims ≡ ok registry
    → AreRegistered ts targets registry
unfolding register_all
register_all-AreRegistered [] targets claims registry h =
    subst (AreRegistered [] targets) (ok-injective h)
      (record { keyed = λ k. k; kept = λ id u at. at; all_there = tt })
register_all-AreRegistered (t ∷ ts) targets claims registry h =
    step t ts targets registry (register t targets claims) (register-Grows t targets claims)
      (λ next c. register_all-AreRegistered ts next c registry) h

empty-IsRegistry : IsRegistry []
unfolding get
empty-IsRegistry id t h = absurd (none-ne-some t h)

-- A registry that `TargetRegistry::new` returns has each of the targets under its own id, and no
-- target under another id.
pub new_registry-IsRegistry :
    (ts : List FrequencyTarget) (registry : TargetRegistry)
    → new_registry ts ≡ ok registry
    → IsRegistry registry × All (λ t. get t.id registry ≡ some t) ts
unfolding new_registry
new_registry-IsRegistry ts registry h =
    let r = register_all-AreRegistered ts [] [] registry h in
    (r.keyed empty-IsRegistry, r.all_there)
