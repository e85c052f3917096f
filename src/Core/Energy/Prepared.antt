-- ===== src/Core/Energy/Prepared.antt =====
-- What the first loop of `transition_governor` establishes of each prepared cluster, and the burst
-- keeps.
use uperf_linux_rev.Base.Maps.{insert}
use uperf_linux_rev.Base.Text.{text_key}
use uperf_linux_rev.Base.Results.{bind-ok}
use uperf_linux_rev.Base.{
  ℕ, zero, suc, ◌≡◌, refl, subst, inl, inr, Bool, ◌||◌, Option, none, some, List, [], ◌∷◌, Result,
  ok, err, ok_or, All, In, ok-injective, if-cases,
}
use uperf_linux_rev.Core.Energy.Budget.{
  apply_burst, burst_demand, burst_each, modify, models_of, performance_order, skip_first,
}
use uperf_linux_rev.Core.Float.{Floats}
use uperf_linux_rev.Core.Domain.{TargetId}
use uperf_linux_rev.Core.Errors.{PolicyError}
use uperf_linux_rev.Core.Frequency.{validate}
use uperf_linux_rev.Core.Energy.Model.{opp_at_or_below}
use uperf_linux_rev.Core.Energy.Governor.{
  CpuTargetPolicy, GovernorInput, Preparation, PreparedTarget, TargetGovernorState, TargetStates,
  check_policy, missing_energy_model, no_opp_below_safety_cap, prepare_all, prepare_cluster,
  prepared_target, safety_cap_for,
}

pub All-modify :
    {A : Type 0} (P : A → Type 0) (f : A → A) (i : ℕ) (xs : List A)
    → ((x : A) → P x → P (f x))
    → All P xs
    → All P (modify f i xs)
All-modify P f i [] keeps h = tt
All-modify P f zero (x ∷ xs) keeps h = (keeps x h.0, h.1)
All-modify P f (suc i) (x ∷ xs) keeps h = (h.0, All-modify P f i xs keeps h.1)

module _ (floats : Floats) (input : GovernorInput floats) where
  -- What the first loop establishes of a prepared target.
  pub record IsPrepared (p : PreparedTarget floats) : Type 0 where
    pub listed : In (p.id, p.target) input.targets
    pub modelled : p.target.energy_model ≡ some p.model
    pub capped : p.safety_cap ≡ safety_cap_for floats input p.id p.target
    pub valid : validate p.target.frequency ≡ ok tt

  ok_or-ok : {E A : Type 0} (o : Option A) (e : E) {a : A} → ok_or o e ≡ ok a → o ≡ some a
  ok_or-ok none e h = cc
  ok_or-ok (some b) e h = cc

  check_policy-ok :
      (id : TargetId) (r : Result PolicyError (Unit {0})) {u : Unit {0}}
      → check_policy floats id r ≡ ok u
      → r ≡ ok tt
  unfolding check_policy
  check_policy-ok id (ok a) h = refl
  check_policy-ok id (err e) h = cc

  prepare_cluster-IsPrepared :
      (id : TargetId) (target : CpuTargetPolicy floats) (states : TargetStates floats)
      (out : TargetGovernorState floats × PreparedTarget floats)
      → In (id, target) input.targets
      → prepare_cluster floats input id target states ≡ ok out
      → IsPrepared out.1
  unfolding prepare_cluster prepared_target
  prepare_cluster-IsPrepared id target states out listed h =
      let (_, valid, h₁) = bind-ok (check_policy floats id (validate target.frequency)) _ h in
      let (model, has, h₂) = bind-ok (ok_or target.energy_model (missing_energy_model id)) _ h₁ in
      let cap = safety_cap_for floats input id target in
      let (maximum, _, h₃) =
        bind-ok (ok_or (opp_at_or_below floats model cap) (no_opp_below_safety_cap id)) _ h₂ in
      subst (λ (x : TargetGovernorState floats × PreparedTarget floats). IsPrepared x.1)
        (ok-injective h₃)
        (record {
          listed = listed;
          modelled = ok_or-ok target.energy_model (missing_energy_model id) has;
          capped = refl;
          valid = check_policy-ok id (validate target.frequency) valid;
        })

  pub prepare_all-IsPrepared :
      (ts : List (TargetId × CpuTargetPolicy floats)) (states : TargetStates floats)
      (power : floats.F) (bypass : Bool) (r : Preparation floats)
      → ((x : TargetId × CpuTargetPolicy floats) → In x ts → In x input.targets)
      → prepare_all floats input ts states power bypass ≡ ok r
      → All IsPrepared r.prepared
  unfolding prepare_all
  prepare_all-IsPrepared [] states power bypass r sub h =
      subst (λ (x : Preparation floats). All IsPrepared x.prepared) (ok-injective h) tt
  prepare_all-IsPrepared ((id, target) ∷ ts) states power bypass r sub h =
      let (out, one, h₁) = bind-ok (prepare_cluster floats input id target states) _ h in
      let (rest, all_rest, h₂) =
        bind-ok
          (prepare_all floats input ts (insert id out.0 states)
            (floats.add power out.1.estimated_power_mw)
            (bypass || out.1.demand.prediction_bypassed_ramp))
          _ h₁ in
      subst (λ (x : Preparation floats). All IsPrepared x.prepared) (ok-injective h₂)
        (
          prepare_cluster-IsPrepared id target states out (sub (id, target) (inl refl)) one,
          prepare_all-IsPrepared ts _ _ _ rest (λ x m. sub x (inr m)) all_rest,
        )

  burst_each-IsPrepared :
      (is : List ℕ) (ps : List (PreparedTarget floats))
      → All IsPrepared ps
      → All IsPrepared (burst_each floats input is ps)
  unfolding burst_each burst_demand
  burst_each-IsPrepared [] ps h = h
  burst_each-IsPrepared (i ∷ is) ps h =
      burst_each-IsPrepared is (modify (burst_demand floats input) i ps) (
        All-modify IsPrepared (burst_demand floats input) i ps
          (λ p q. record {
            listed = q.listed;
            modelled = q.modelled;
            capped = q.capped;
            valid = q.valid;
          })
          h)

  pub apply_burst-IsPrepared :
      (ps : List (PreparedTarget floats))
      → All IsPrepared ps
      → All IsPrepared (apply_burst floats input ps)
  unfolding apply_burst
  apply_burst-IsPrepared ps h =
      if-cases (All IsPrepared) (floats.lt floats.zero input.burst) _ ps
        (λ _.
          burst_each-IsPrepared (skip_first (performance_order floats (models_of floats ps))) ps h)
        (λ _. h)
