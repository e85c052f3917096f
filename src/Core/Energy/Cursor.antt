-- ===== src/Core/Energy/Cursor.antt =====
-- The budget cursor and the shared ramp stay in range: `reference_budget_path`,
-- `adjust_reference_budget_cap` and the ramp of `transition_governor`.
use Prim.Native.Nat.{Ordering}
use uperf_linux_rev.Base.Results.{bind-ok}
use uperf_linux_rev.Base.{
  ℕ, zero, suc, ◌+◌, ◌-◌, ◌≤◌, ◌<◌, ◌≡◌, refl, sym, subst, Bool, false, Option, none, some, List,
  [], ◌∷◌, arith, ◌==◌, ==_iff, ok, length, All, All-append, ok-injective, if-cases,
}
use uperf_linux_rev.Core.Float.{Floats}
use uperf_linux_rev.Core.Energy.Model.{EnergyOpp}
use uperf_linux_rev.Core.Energy.Budget.{
  BudgetStep, adjust_from, adjust_at, adjust_reference_budget_cap, all_steps, apply_burst,
  checked_pred, cluster_steps, controls_from, get_elem?, insert_by, is_not_greater, move_cursor,
  reference_budget_path, sort_by, step_order, steps_between, sync_path, take_step,
}
use uperf_linux_rev.Core.Energy.Demand.{reference_nr_cost_penalty}
use uperf_linux_rev.Core.Energy.Governor.{
  GovernorInput, GovernorState, PreparedTarget, default_state, prepare_all,
}
use uperf_linux_rev.Core.Energy.Select.{ramp_elapsed}
use uperf_linux_rev.Core.Energy.Transition.{
  Budgeting, GovernorTransition, adjust_unless, budget_package, elapsed_since, govern_package,
  govern_prepared, transition_governor,
}

-- A cursor points at a step of the path, and is missing only where there is none.
abbrev pub Fits : Option ℕ → ℕ → Type 0
Fits none len = len ≡ 0
Fits (some c) len = c < len

module _ {A : Type 0} (P : A → Type 0) (cmp : A → A → Ordering) where
  All-insert_by : (a : A) (xs : List A) → P a → All P xs → All P (insert_by cmp a xs)
  unfolding insert_by
  All-insert_by a [] p h = (p, tt)
  All-insert_by a (x ∷ xs) p h =
      if-cases (All P) (is_not_greater (cmp a x)) _ _ (λ _. (p, h))
        (λ _. (h.0, All-insert_by a xs p h.1))

  pub All-sort_by : (xs : List A) → All P xs → All P (sort_by cmp xs)
  unfolding sort_by
  All-sort_by [] h = tt
  All-sort_by (x ∷ xs) h = All-insert_by x (sort_by cmp xs) h.0 (All-sort_by xs h.1)

module _ (floats : Floats) where
  abbrev Points : ℕ → BudgetStep floats → Type 0
  Points n s = s.cluster_index < n

  steps_between-Points :
      (penalty : floats.F) (i n : ℕ) (os : List (EnergyOpp floats))
      → i < n
      → All (Points n) (steps_between floats penalty i os)
  unfolding steps_between
  steps_between-Points penalty i n [] h = tt
  steps_between-Points penalty i n (o ∷ []) h = tt
  steps_between-Points penalty i n (o ∷ p ∷ ps) h = (h, steps_between-Points penalty i n (p ∷ ps) h)

  all_steps-Points :
      (i n : ℕ) (ps : List (PreparedTarget floats))
      → i + length ps ≤ n
      → All (Points n) (all_steps floats i ps)
  unfolding all_steps cluster_steps
  all_steps-Points i n [] h = tt
  all_steps-Points i n (p ∷ ps) h =
      All-append (Points n) (cluster_steps floats i p) (all_steps floats (suc i) ps)
        (steps_between-Points
          (reference_nr_cost_penalty floats (floats.of_u64 (length p.target.cpus))) i n
          (controls_from floats p.model.plain_frequency_hz p.model.control_opps) (omega arith))
        (all_steps-Points (suc i) n ps (omega arith))

  -- Every step of the path belongs to a cluster, so that the lookup of its cluster succeeds.
  pub reference_budget_path-Points :
      (ps : List (PreparedTarget floats))
      → All (λ s. s.cluster_index < length ps) (reference_budget_path floats ps)
  unfolding reference_budget_path
  reference_budget_path-Points ps =
      All-sort_by (Points (length ps)) (step_order floats) (all_steps floats 0 ps)
        (all_steps-Points 0 (length ps) ps (omega arith))

  -- The cursor of a state fits a path of the given length, and the state knows that length.
  pub record IsAligned (len : ℕ) (s : GovernorState floats) : Type 0 where
    pub known : s.budget_path_len ≡ len
    pub fits : Fits s.budget_cursor len

  checked_pred-Fits : (len : ℕ) → Fits (checked_pred len) len
  checked_pred-Fits zero = omega arith
  checked_pred-Fits (suc n) = omega arith

  sync_path-IsAligned :
      (len : ℕ) (ps : List (PreparedTarget floats)) (s : GovernorState floats)
      → Fits s.budget_cursor s.budget_path_len
      → IsAligned len (sync_path floats len ps s)
  unfolding sync_path
  sync_path-IsAligned len ps s h =
      if-cases (IsAligned len) (s.budget_path_len == len) _ _
        (λ e.
          let same = (==_iff s.budget_path_len len).0 e in
          record { known = same; fits = subst (Fits s.budget_cursor) same h })
        (λ _. record { known = refl; fits = checked_pred-Fits len })

  move_cursor-IsAligned :
      (len cap c : ℕ) (s : GovernorState floats) (owner : Option (PreparedTarget floats))
      → IsAligned len s
      → c < len
      → IsAligned len (move_cursor floats s owner cap c)
  unfolding move_cursor
  move_cursor-IsAligned len cap c s none h k = h
  move_cursor-IsAligned len cap c s (some p) h k = record { known = h.known; fits = k }

  take_step-IsAligned :
      (len c : ℕ) (s : GovernorState floats) (ps : List (PreparedTarget floats))
      (power budget : floats.F) (step : BudgetStep floats)
      → IsAligned len s
      → c < len
      → IsAligned len (take_step floats s ps len power budget c step)
  unfolding take_step
  take_step-IsAligned len c s ps power budget step h k =
      let owner = get_elem? ps step.cluster_index in
      if-cases (IsAligned len) (floats.lt (floats.mul budget (floats.literal 11 1)) power) _ _
        (λ _. move_cursor-IsAligned len step.lower_hz (c - 1) s owner h (omega arith))
        (λ _.
          if-cases (IsAligned len) (floats.lt power (floats.mul budget (floats.literal 9 1))) _ _
            (λ _. move_cursor-IsAligned len step.upper_hz _ s owner h (ground arith)) (λ _. h))

  adjust-IsAligned :
      (s : GovernorState floats) (ps : List (PreparedTarget floats))
      (path : List (BudgetStep floats)) (power budget : floats.F) (cursor : Option ℕ)
      → IsAligned (length path) s
      → Fits cursor (length path)
      → IsAligned (length path) (adjust_from floats s ps path power budget cursor)
  unfolding adjust_at
  adjust-IsAligned s ps path power budget none h k = h
  adjust-IsAligned s ps path power budget (some c) h k = at (get_elem? path c)
    where
      at :
          (o : Option (BudgetStep floats))
          → IsAligned (length path) (adjust_at floats s ps (length path) power budget c o)
      at none = h
      at (some step) = take_step-IsAligned (length path) c s ps power budget step h k

  budget_package-IsAligned :
      (input : GovernorInput floats) (elapsed : ℕ) (power : floats.F)
      (ps : List (PreparedTarget floats)) (s : GovernorState floats)
      → Fits s.budget_cursor s.budget_path_len
      → IsAligned
          (length (reference_budget_path floats ps))
          (budget_package floats input elapsed power ps s).state
  unfolding budget_package adjust_unless adjust_reference_budget_cap
  budget_package-IsAligned input elapsed power ps s h =
      let path = reference_budget_path floats ps in
      let synced = sync_path-IsAligned (length path) ps s h in
      if-cases (IsAligned (length path)) (floats.lt floats.zero input.burst) _ _
        (λ _. record { known = synced.known; fits = synced.fits })
        (λ _.
          adjust-IsAligned _ ps path power _ _ (record { known = synced.known; fits = synced.fits })
            synced.fits)

  pub record IsGoverned (latency : ℕ) (s : GovernorState floats) : Type 0 where
    pub ramp : s.shared_ramp_elapsed_ms ≤ latency
    pub cursor : Fits s.budget_cursor s.budget_path_len

  ramp_elapsed-le :
      (bypassed increase : Bool) (so_far elapsed latency : ℕ)
      → ramp_elapsed bypassed increase so_far elapsed latency ≤ latency
  unfolding ramp_elapsed
  ramp_elapsed-le bypassed increase so_far elapsed latency = ground arith

  govern_package-IsGoverned :
      (input : GovernorInput floats) (elapsed : ℕ) (bypass : Bool) (power : floats.F)
      (ps : List (PreparedTarget floats)) (b : Budgeting floats) (len : ℕ)
      → IsAligned len b.state
      → IsGoverned input.config.ramp_latency_ms
          (govern_package floats input elapsed bypass power ps b).next_state
  unfolding govern_package
  govern_package-IsGoverned input elapsed bypass power ps b len h = record {
    ramp = ramp_elapsed-le _ _ b.state.shared_ramp_elapsed_ms elapsed input.config.ramp_latency_ms;
    cursor = subst (Fits b.state.budget_cursor) (sym h.known) h.fits;
  }

  -- Over a transition that succeeds the budget cursor keeps pointing at a step of the path of
  -- which the state knows the length, and the ramp time does not pass the ramp latency.
  pub transition_governor-IsGoverned :
      (input : GovernorInput floats) (state : GovernorState floats) (t : GovernorTransition floats)
      → Fits state.budget_cursor state.budget_path_len
      → transition_governor floats state input ≡ ok t
      → IsGoverned input.config.ramp_latency_ms t.next_state
  unfolding transition_governor govern_prepared
  transition_governor-IsGoverned input state t fits h =
      let (r, _, e) =
        bind-ok (prepare_all floats input input.targets state.targets floats.zero false) _ h in
      let ps = apply_burst floats input r.prepared in
      let elapsed = elapsed_since floats input.timestamp state.previous_timestamp in
      let ready : GovernorState floats = record state {
        previous_timestamp = some input.timestamp;
        targets = r.states;
      } in
      subst
        (λ (x : GovernorTransition floats). IsGoverned input.config.ramp_latency_ms x.next_state)
        (ok-injective e)
        (govern_package-IsGoverned input elapsed r.any_bypass r.power_mw ps
          (budget_package floats input elapsed r.power_mw ps ready)
          (length (reference_budget_path floats ps))
          (budget_package-IsAligned input elapsed r.power_mw ps ready fits))

  -- A new governor has no path and no cursor.
  pub default_state-Fits :
      Fits (default_state floats).budget_cursor (default_state floats).budget_path_len
  unfolding default_state
  default_state-Fits = omega arith
