-- ===== src/Core/Energy/Budget.antt =====
-- Burst and the package budget: the burst loop of `transition_governor`, `reference_budget_path` and
-- `adjust_reference_budget_cap` of crates/uperf-core/src/energy.rs.
use Prim.Native.Nat.{Ordering, compare}
use uperf_linux_rev.Base.{
  ℕ, zero, suc, ◌+◌, ◌-◌, Bool, true, false, Option, none, some, List, [], ◌∷◌, ◌++◌, map, ltb, leb,
  ◌==◌, if◌then◌else◌, length,
}
use uperf_linux_rev.Core.Float.{Floats}
use uperf_linux_rev.Core.Energy.Model.{EnergyModel, EnergyOpp}
use uperf_linux_rev.Core.Energy.Demand.{
  reference_burst_demand_performance, reference_nr_cost_penalty,
}
use uperf_linux_rev.Core.Energy.Governor.{
  GovernorInput, GovernorState, PreparedTarget, TargetGovernorState, TargetStates, share,
  update_target_state,
}

-- `then_with`.
abbrev pub then_with : Ordering → Ordering → Ordering
then_with Ordering.eq o = o
then_with Ordering.lt o = Ordering.lt
then_with Ordering.gt o = Ordering.gt

abbrev pub is_not_greater : Ordering → Bool
is_not_greater Ordering.gt = false
is_not_greater Ordering.lt = true
is_not_greater Ordering.eq = true

module _ {A : Type 0} where
  -- `sort_by`, which is stable.
  unfoldable pub insert_by : (A → A → Ordering) → A → List A → List A
  insert_by cmp a [] = a ∷ []
  insert_by cmp a (x ∷ xs) =
      let rest = insert_by cmp a xs in if is_not_greater (cmp a x) then a ∷ x ∷ xs else x ∷ rest

  unfoldable pub sort_by : (A → A → Ordering) → List A → List A
  unfolding insert_by
  sort_by cmp [] = []
  sort_by cmp (x ∷ xs) = insert_by cmp x (sort_by cmp xs)

  -- `xs.get(i)`, and the update of `xs[i]` at an index in range.
  abbrev pub get_elem? : List A → ℕ → Option A
  get_elem? [] i = none
  get_elem? (x ∷ xs) zero = some x
  get_elem? (x ∷ xs) (suc i) = get_elem? xs i

  abbrev pub modify : (A → A) → ℕ → List A → List A
  modify f i [] = []
  modify f zero (x ∷ xs) = f x ∷ xs
  modify f (suc i) (x ∷ xs) = x ∷ modify f i xs

  abbrev pub skip_first : List A → List A
  skip_first [] = []
  skip_first (x ∷ xs) = xs

-- `(start..start + n).collect()`.
unfoldable pub range_from : ℕ → ℕ → List ℕ
range_from start zero = []
range_from start (suc n) = start ∷ range_from (suc start) n

-- `checked_sub(1)`.
abbrev pub checked_pred : ℕ → Option ℕ
checked_pred zero = none
checked_pred (suc n) = some n

module _ (floats : Floats) where
  open floats use {F, mul, lt, of_u64}

  abbrev performance_at : List (EnergyModel floats) → ℕ → F
  performance_at [] i = floats.zero
  performance_at (m ∷ ms) zero = m.performance_per_hz
  performance_at (m ∷ ms) (suc i) = performance_at ms i

  -- The indices of the models by performance per hertz, and by index where that is equal.
  unfoldable pub performance_order : List (EnergyModel floats) → List ℕ
  unfolding sort_by range_from
  performance_order models =
      sort_by
        (λ left right.
          then_with (floats.total_cmp (performance_at models left) (performance_at models right))
            (compare left right))
        (range_from 0 (length models))

  abbrev pub models_of : List (PreparedTarget floats) → List (EnergyModel floats)
  models_of = map λ p. p.model

  -- The floor override of one of the higher clusters.
  unfoldable pub burst_demand : GovernorInput floats → PreparedTarget floats → PreparedTarget floats
  unfolding share
  burst_demand input p =
      let demanded =
        reference_burst_demand_performance floats (mul p.maximum_performance p.demand.selected)
          p.maximum_performance input.margin input.burst in
      record p {
        demanded_performance = demanded;
        effective_demand = share floats demanded p.maximum_performance;
      }

  unfoldable pub burst_each :
      GovernorInput floats → List ℕ → List (PreparedTarget floats) → List (PreparedTarget floats)
  unfolding burst_demand
  burst_each input [] prepared = prepared
  burst_each input (i ∷ is) prepared = burst_each input is (modify (burst_demand input) i prepared)

  -- All clusters but the first in order.
  unfoldable pub apply_burst :
      GovernorInput floats → List (PreparedTarget floats) → List (PreparedTarget floats)
  unfolding burst_each performance_order
  apply_burst input prepared =
      if lt floats.zero input.burst
      then burst_each input (skip_first (performance_order (models_of prepared))) prepared
      else prepared

  pub record BudgetStep : Type 0 where
    pub key : F
    pub cluster_index : ℕ
    pub lower_hz : ℕ
    pub upper_hz : ℕ

  -- `controls[first..]`: from the first operating point at or above the plain frequency, or the
  -- last one alone.
  unfoldable pub controls_from : ℕ → List (EnergyOpp floats) → List (EnergyOpp floats)
  controls_from plain [] = []
  controls_from plain (o ∷ []) = o ∷ []
  controls_from plain (o ∷ p ∷ ps) =
      let rest = controls_from plain (p ∷ ps) in
      if leb plain o.frequency_hz then o ∷ p ∷ ps else rest

  -- `windows(2)`.
  unfoldable pub steps_between : F → ℕ → List (EnergyOpp floats) → List BudgetStep
  steps_between penalty index [] = []
  steps_between penalty index (o ∷ []) = []
  steps_between penalty index (o ∷ p ∷ ps) =
      record {
        key = mul o.power_mw_per_core penalty;
        cluster_index = index;
        lower_hz = o.frequency_hz;
        upper_hz = p.frequency_hz;
      }
      ∷ steps_between penalty index (p ∷ ps)

  unfoldable pub cluster_steps : ℕ → PreparedTarget floats → List BudgetStep
  unfolding steps_between controls_from
  cluster_steps index p =
      steps_between (reference_nr_cost_penalty floats (of_u64 (length p.target.cpus))) index
        (controls_from p.model.plain_frequency_hz p.model.control_opps)

  unfoldable pub all_steps : ℕ → List (PreparedTarget floats) → List BudgetStep
  unfolding cluster_steps
  all_steps index [] = []
  all_steps index (p ∷ ps) = cluster_steps index p ++ all_steps (suc index) ps

  unfoldable pub step_order : BudgetStep → BudgetStep → Ordering
  step_order a b =
      then_with (then_with (floats.total_cmp a.key b.key) (compare a.cluster_index b.cluster_index))
        (compare a.lower_hz b.lower_hz)

  unfoldable pub reference_budget_path : List (PreparedTarget floats) → List BudgetStep
  unfolding all_steps step_order sort_by
  reference_budget_path prepared = sort_by step_order (all_steps 0 prepared)

  abbrev pub with_budget_cap : ℕ → TargetGovernorState floats → TargetGovernorState floats
  with_budget_cap cap s = record s { budget_cap_hz = some cap }

  -- The cap of the step's cluster is set, and the cursor takes its new place.
  unfoldable pub move_cursor :
      GovernorState floats → Option (PreparedTarget floats) → ℕ → ℕ → GovernorState floats
  unfolding update_target_state
  move_cursor state none cap cursor = state
  move_cursor state (some p) cap cursor = record state {
    targets = update_target_state floats p.id (with_budget_cap cap) state.targets;
    budget_cursor = some cursor;
  }

  -- At most one step: down above 110 % of the budget, up below 90 %.
  unfoldable pub take_step :
      GovernorState floats
      → List (PreparedTarget floats)
      → ℕ
      → F
      → F
      → ℕ
      → BudgetStep
      → GovernorState floats
  unfolding move_cursor
  take_step state prepared path_len power budget cursor step =
      let owner = get_elem? prepared step.cluster_index in
      if lt (mul budget (floats.literal 11 1)) power
      then move_cursor state owner step.lower_hz (cursor - 1)
      else if lt power (mul budget (floats.literal 9 1))
      then move_cursor state owner step.upper_hz
          (if ltb (cursor + 1) path_len then cursor + 1 else cursor)
      else state

  unfoldable pub adjust_at :
      GovernorState floats
      → List (PreparedTarget floats)
      → ℕ
      → F
      → F
      → ℕ
      → Option BudgetStep
      → GovernorState floats
  unfolding take_step
  adjust_at state prepared path_len power budget cursor none = state
  adjust_at state prepared path_len power budget cursor (some step) =
      take_step state prepared path_len power budget cursor step

  abbrev pub adjust_from :
      GovernorState floats
      → List (PreparedTarget floats)
      → List BudgetStep
      → F
      → F
      → Option ℕ
      → GovernorState floats
  adjust_from state prepared path power budget none = state
  adjust_from state prepared path power budget (some cursor) =
      adjust_at state prepared (length path) power budget cursor (get_elem? path cursor)

  unfoldable pub adjust_reference_budget_cap :
      GovernorState floats
      → List (PreparedTarget floats)
      → List BudgetStep
      → F
      → F
      → GovernorState floats
  unfolding adjust_at
  adjust_reference_budget_cap state prepared path power budget =
      adjust_from state prepared path power budget state.budget_cursor

  -- A path of another length starts at its end, with every cluster at its highest control point.
  abbrev pub last_control_frequency : List (EnergyOpp floats) → Option ℕ
  last_control_frequency [] = none
  last_control_frequency (o ∷ []) = some o.frequency_hz
  last_control_frequency (o ∷ p ∷ ps) = last_control_frequency (p ∷ ps)

  unfoldable pub reset_caps :
      List (PreparedTarget floats) → TargetStates floats → TargetStates floats
  unfolding update_target_state
  reset_caps [] states = states
  reset_caps (p ∷ ps) states = reset_caps ps (
      update_target_state floats p.id
        (λ s. record s { budget_cap_hz = last_control_frequency p.model.control_opps }) states)

  unfoldable pub sync_path :
      ℕ → List (PreparedTarget floats) → GovernorState floats → GovernorState floats
  unfolding reset_caps
  sync_path path_len prepared state =
      if state.budget_path_len == path_len then state else record state {
        budget_path_len = path_len;
        budget_cursor = checked_pred path_len;
        targets = reset_caps prepared state.targets;
      }
