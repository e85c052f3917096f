-- ===== src/Core/Energy/Demand.antt =====
-- Demand of one cluster: `DemandState`, `reference_normal_demand_performance` and
-- `reference_burst_demand_performance` of crates/uperf-core/src/energy.rs.
use uperf_linux_rev.Base.{ℕ, Bool, ◌&&◌, if◌then◌else◌}
use uperf_linux_rev.Core.Float.{Floats, finite_unit}

module _ (floats : Floats) where
  open floats use {F, add, sub, mul, div, lt, literal, of_u64}

  -- `GovernorConfig` of crates/uperf-core/src/config.rs.
  pub record GovernorConfig : Type 0 where
    pub active_sample_ms : ℕ
    pub idle_sample_ms : ℕ
    pub active_load_threshold : F
    pub idle_load_threshold : F
    pub predict_threshold : F
    pub ramp_latency_ms : ℕ
    pub min_opp_residency_ms : ℕ

  pub record DemandDiagnostics : Type 0 where
    pub raw : F
    pub ema : F
    pub predicted : F
    pub selected : F
    pub prediction_bypassed_ramp : Bool

  pub record DemandState : Type 0 where
    pub previous_raw : F
    pub predicted_performance : F

  unfoldable pub default_demand : DemandState
  default_demand = record { previous_raw = floats.zero; predicted_performance = floats.zero }

  -- The asymmetric accumulator: it rises and falls with different coefficients.
  unfoldable pub next_prediction : F → F → F
  next_prediction predicted performance_load =
      let alpha = if lt predicted performance_load then literal 98 2 else literal 97 2 in
      floats.mul_add alpha predicted (mul (sub floats.one alpha) performance_load)

  -- The clamped inputs of `update_performance`.
  abbrev pub sane_maximum : F → F
  sane_maximum m = if floats.is_finite m then floats.max m floats.zero else floats.zero

  abbrev pub sane_previous : F → F → F
  sane_previous previous maximum =
      if floats.is_finite previous then floats.clamp previous floats.zero maximum else maximum

  abbrev pub normalize : F → F → F
  normalize maximum performance =
      if lt floats.zero maximum then finite_unit floats (div performance maximum) else floats.zero

  -- What the updated prediction selects.
  unfoldable pub selected_performance : Bool → F → F → F → F
  selected_performance bypassed predicted performance_load maximum =
      floats.clamp
        (if bypassed && lt performance_load predicted then predicted else performance_load)
        floats.zero maximum

  unfoldable pub update_sane :
      DemandState → F → F → F → GovernorConfig → DemandState × DemandDiagnostics
  unfolding next_prediction selected_performance
  update_sane d raw performance_load maximum config =
      let predicted = next_prediction d.predicted_performance performance_load in
      let bypassed = lt config.predict_threshold (sub raw d.previous_raw) in
      (
        record { previous_raw = raw; predicted_performance = predicted },
        record {
          raw = raw;
          ema = normalize maximum predicted;
          predicted = normalize maximum predicted;
          selected =
              normalize maximum (selected_performance bypassed predicted performance_load maximum);
          prediction_bypassed_ramp = bypassed;
        },
      )

  -- `DemandState::update_performance`.
  unfoldable pub update_performance :
      DemandState → F → F → F → GovernorConfig → DemandState × DemandDiagnostics
  unfolding update_sane finite_unit
  update_performance d raw previous_final_performance maximum_performance config =
      let unit = finite_unit floats raw in
      let maximum = sane_maximum maximum_performance in
      update_sane d unit (mul unit (sane_previous previous_final_performance maximum)) maximum
        config

  -- `residual_headroom.min(growth_limit).min(maximum_performance)`.
  abbrev pub bounded_demand : F → F → F → F → F
  bounded_demand selected maximum headroom growth =
      floats.min
        (floats.min (add selected (mul (sub maximum selected) headroom))
          (mul selected (floats.max (mul (literal 8 0) growth) (literal 11 1))))
        maximum

  unfoldable pub reference_normal_demand_performance : F → F → F → F
  unfolding finite_unit
  reference_normal_demand_performance selected maximum margin =
      bounded_demand (floats.clamp selected floats.zero maximum) maximum (finite_unit floats margin)
        (finite_unit floats margin)

  unfoldable pub reference_burst_demand_performance : F → F → F → F → F
  unfolding finite_unit
  reference_burst_demand_performance selected maximum margin burst =
      let margin = finite_unit floats margin in
      let burst = finite_unit floats burst in
      bounded_demand (floats.clamp selected floats.zero maximum) maximum (add margin burst)
        (add margin (mul (literal 4 0) burst))

  unfoldable pub reference_concurrency_scale : F → F
  reference_concurrency_scale core_count =
      if floats.le core_count floats.zero
      then floats.zero
      else div (add floats.one (mul (literal 8 1) (sub core_count floats.one))) core_count

  unfoldable pub reference_nr_cost_penalty : F → F
  reference_nr_cost_penalty core_count =
      floats.clamp (add floats.one (mul (literal 1 1) (sub core_count floats.one))) floats.one
        (literal 12 1)
