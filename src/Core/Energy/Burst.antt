-- ===== src/Core/Energy/Burst.antt =====
-- A burst waives the package budget, and freezes what the budget is kept in.
use uperf_linux_rev.Base.Results.{bind-ok}
use uperf_linux_rev.Base.{
  ℕ, ◌≡◌, refl, sym, ◌∙◌, subst, Bool, true, false, Option, some, List, ◌==◌, ==_iff, ok, length,
  ok-injective, if-cases, if-true, if◌then◌else◌,
}
use uperf_linux_rev.Core.Float.{Floats}
use uperf_linux_rev.Core.Energy.Bucket.{EnergyBucketState}
use uperf_linux_rev.Core.Energy.Budget.{
  BudgetStep, checked_pred, apply_burst, reference_budget_path, sync_path,
}
use uperf_linux_rev.Core.Energy.Governor.{GovernorInput, GovernorState, PreparedTarget, prepare_all}
use uperf_linux_rev.Core.Energy.Transition.{
  GovernorTransition, adjust_unless, budget_package, charge, elapsed_since, govern_package,
  govern_prepared, transition_governor,
}

module _ (floats : Floats) where
  adjust_unless-true :
      (b : Bool) (s : GovernorState floats) (ps : List (PreparedTarget floats))
      (path : List (BudgetStep floats)) (power budget : floats.F)
      → b ≡ true
      → adjust_unless floats b s ps path power budget ≡ s
  unfolding adjust_unless
  adjust_unless-true b s ps path power budget e = rw e

  charge-true :
      (b : Bool) (input : GovernorInput floats) (elapsed : ℕ) (power : floats.F)
      (bucket : EnergyBucketState floats)
      → b ≡ true
      → (charge floats b input elapsed power bucket).0 ≡ bucket
  unfolding charge
  charge-true b input elapsed power bucket e = rw e

  sync_path-bucket :
      (len : ℕ) (ps : List (PreparedTarget floats)) (s : GovernorState floats)
      → (sync_path floats len ps s).bucket ≡ s.bucket
  unfolding sync_path
  sync_path-bucket len ps s =
      if-cases (λ (x : GovernorState floats). x.bucket ≡ s.bucket) (s.budget_path_len == len) _ _
        (λ _. refl) (λ _. refl)

  -- The cursor after a new length of the path: it starts at the end of a path that changed.
  abbrev pub moved_cursor : GovernorState floats → GovernorState floats → Option ℕ
  moved_cursor before after =
      if before.budget_path_len == after.budget_path_len
      then before.budget_cursor
      else checked_pred after.budget_path_len

  sync_path-cursor :
      (len : ℕ) (ps : List (PreparedTarget floats)) (s : GovernorState floats)
      → (sync_path floats len ps s).budget_cursor ≡ moved_cursor s (sync_path floats len ps s)
  unfolding sync_path
  sync_path-cursor len ps s =
      if-cases (λ (x : GovernorState floats). x.budget_cursor ≡ moved_cursor s x)
        (s.budget_path_len == len) _ _
        (λ _. sym (if-true _ _ _ ((==_iff s.budget_path_len s.budget_path_len).1 refl)))
        (λ differs. rw differs)

  -- What the burst leaves of the budget.
  record IsFrozen (before after : GovernorState floats) : Type 0 where
    bucket : after.bucket ≡ before.bucket
    cursor : after.budget_cursor ≡ moved_cursor before after

  budget_package-IsFrozen :
      (input : GovernorInput floats) (elapsed : ℕ) (power : floats.F)
      (ps : List (PreparedTarget floats)) (s : GovernorState floats)
      → floats.lt floats.zero input.burst ≡ true
      → IsFrozen s (budget_package floats input elapsed power ps s).state
  unfolding budget_package
  budget_package-IsFrozen input elapsed power ps s e =
      let path = reference_budget_path floats ps in
      let synced = sync_path floats (length path) ps s in
      let charged = charge-true _ input elapsed power synced.bucket e in
      subst (IsFrozen s) (sym (adjust_unless-true _ _ ps path power _ e)) (record {
        bucket = charged ∙ sync_path-bucket (length path) ps s;
        cursor = sync_path-cursor (length path) ps s;
      })

  transition_governor-IsFrozen :
      (input : GovernorInput floats) (state : GovernorState floats) (t : GovernorTransition floats)
      → floats.lt floats.zero input.burst ≡ true
      → transition_governor floats state input ≡ ok t
      → IsFrozen state t.next_state
  unfolding transition_governor govern_prepared govern_package
  transition_governor-IsFrozen input state t burst h =
      let (r, _, e) =
        bind-ok (prepare_all floats input input.targets state.targets floats.zero false) _ h in
      let ps = apply_burst floats input r.prepared in
      let elapsed = elapsed_since floats input.timestamp state.previous_timestamp in
      let ready : GovernorState floats = record state {
        previous_timestamp = some input.timestamp;
        targets = r.states;
      } in
      let kept = budget_package-IsFrozen input elapsed r.power_mw ps ready burst in
      subst (λ (x : GovernorTransition floats). IsFrozen state x.next_state) (ok-injective e)
        (record { bucket = kept.bucket; cursor = kept.cursor })

  -- While a burst is on, a transition that succeeds leaves the energy bucket as it was; the cursor
  -- stays too, unless the length of the budget path changes: then it is at the path's end (none
  -- where the path is empty).
  pub transition_governor-frozen :
      (input : GovernorInput floats) (state : GovernorState floats) (t : GovernorTransition floats)
      → floats.lt floats.zero input.burst ≡ true
      → transition_governor floats state input ≡ ok t
      → (t.next_state.bucket ≡ state.bucket)
        × (t.next_state.budget_cursor ≡ moved_cursor state t.next_state)
  transition_governor-frozen input state t burst h =
      let frozen = transition_governor-IsFrozen input state t burst h in
      (frozen.bucket, frozen.cursor)
