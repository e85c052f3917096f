-- ===== src/Core/Energy/Model.antt =====
-- Energy models: `EnergyModel` of crates/uperf-core/src/energy.rs, expanded from a configured curve
-- or from measured points onto the operating points of the kernel.
use Prim.Native.String.{String}
use uperf_linux_rev.Base.Words.{saturating_add, saturating_sub, saturating_mul}
use uperf_linux_rev.Base.Results.{◌>>=◌}
use uperf_linux_rev.Base.{
  ℕ, ◌+◌, ◌-◌, ◌*◌, ◌/◌, ◌%◌, ◌^◌, Bool, true, not, ◌&&◌, Option, none, some, List, [], ◌∷◌, map,
  ltb, leb, ◌==◌, if◌then◌else◌, Result, ok, err, length, find,
}
use uperf_linux_rev.Actuator.Target.{snapped}
use uperf_linux_rev.Core.Float.{Floats}
use uperf_linux_rev.Core.Sorting.{dedup, sort_unstable}
use mathlib.Core.List.{reverse}

-- The fields of `CpuEnergyModelConfig::ReferenceCurveV1`.
pub record ReferenceCurve : Type 0 where
  pub relative_performance : ℕ
  pub typical_power_mw_per_core : ℕ
  pub typical_frequency_hz : ℕ
  pub sweet_frequency_hz : ℕ
  pub plain_frequency_hz : ℕ
  pub free_frequency_hz : ℕ

pub record MeasuredOppConfig : Type 0 where
  pub frequency_hz : ℕ
  pub relative_capacity : ℕ
  pub power_mw_per_core : ℕ

pub data CpuEnergyModelConfig : Type 0 where
  reference_curve_v1 : ReferenceCurve → CpuEnergyModelConfig
  measured_opp_v1 : List MeasuredOppConfig → CpuEnergyModelConfig

pub data EnergyModelError : Type 0 where
  insufficient_opps : EnergyModelError
  invalid_value : String → EnergyModelError
  invalid_curve_ordering : EnergyModelError
  missing_measured_opp : ℕ → EnergyModelError

-- `abs_diff` of two frequencies.
abbrev pub abs_diff : ℕ → ℕ → ℕ
abs_diff a b = if leb a b then b - a else a - b

-- What `snap_frequency_nearest` minimises: twice the distance, and one more above the request.
unfoldable pub snap_distance : ℕ → ℕ → ℕ
snap_distance requested frequency =
    saturating_add (saturating_mul (abs_diff frequency requested) 2)
      (if ltb requested frequency then 1 else 0)

-- `min_by_key`: of equal keys the first wins.
unfoldable pub nearest : ℕ → ℕ → List ℕ → ℕ
nearest requested best [] = best
nearest requested best (f ∷ fs) =
    nearest requested
      (if ltb (snap_distance requested f) (snap_distance requested best) then f else best) fs

unfoldable pub snap_frequency_nearest : List ℕ → ℕ → ℕ
snap_frequency_nearest [] requested = requested
snap_frequency_nearest (f ∷ fs) requested = nearest requested f fs

-- The product and the sum wrap at 64 bits, as in a release build; a debug build panics there.
unfoldable pub interpolate_hertz : ℕ → ℕ → ℕ → ℕ → ℕ
interpolate_hertz lower upper part total =
    (lower + saturating_sub upper lower * part % 2 ^ 64 / total) % 2 ^ 64

abbrev pub last_or : ℕ → List ℕ → ℕ
last_or d [] = d
last_or d (f ∷ fs) = last_or f fs

-- The frequencies that the sparse set asks for, in order.
unfoldable pub sparse_requests : ℕ → ℕ → ℕ → ℕ → List ℕ
unfolding interpolate_hertz
sparse_requests maximum free plain sweet =
    free
    ∷ plain
    ∷ interpolate_hertz plain sweet 1 3
    ∷ interpolate_hertz plain sweet 2 3
    ∷ interpolate_hertz plain sweet 3 3
    ∷ interpolate_hertz sweet maximum 1 4
    ∷ interpolate_hertz sweet maximum 2 4
    ∷ interpolate_hertz sweet maximum 3 4
    ∷ interpolate_hertz sweet maximum 4 4
    ∷ []

-- `binary_search_by_key` on the sorted points finds the point at the frequency if there is one. The
-- validation of a configuration refuses two points at one frequency.
unfoldable pub measured_at : ℕ → List MeasuredOppConfig → Option MeasuredOppConfig
measured_at frequency points = find (λ p. p.frequency_hz == frequency) points

module _ (floats : Floats) where
  open floats use {F, add, sub, mul, div, ge, lt, powi, of_u64, literal}

  pub record EnergyOpp : Type 0 where
    pub frequency_hz : ℕ
    pub performance : F
    pub power_mw_per_core : F

  unfoldable pub cost_mw_per_performance : EnergyOpp → F
  cost_mw_per_performance opp = div opp.power_mw_per_core opp.performance

  pub record EnergyModel : Type 0 where
    pub opps : List EnergyOpp
    pub control_opps : List EnergyOpp
    pub performance_per_hz : F
    pub free_frequency_hz : ℕ
    pub sweet_frequency_hz : ℕ
    pub plain_frequency_hz : ℕ

  abbrev pub last_opp : List EnergyOpp → Option EnergyOpp
  last_opp [] = none
  last_opp (o ∷ []) = some o
  last_opp (o ∷ p ∷ ps) = last_opp (p ∷ ps)

  abbrev pub first_opp : List EnergyOpp → Option EnergyOpp
  first_opp [] = none
  first_opp (o ∷ os) = some o

  abbrev pub or_else : Option EnergyOpp → Option EnergyOpp → Option EnergyOpp
  or_else (some o) d = some o
  or_else none d = d

  -- `iter().rev().find(|opp| opp.frequency_hz <= cap)`.
  unfoldable pub highest_at_most : ℕ → List EnergyOpp → Option EnergyOpp
  highest_at_most cap opps = find (λ o. leb o.frequency_hz cap) (reverse opps)

  unfoldable pub opp_at_or_below : EnergyModel → ℕ → Option EnergyOpp
  unfolding highest_at_most
  opp_at_or_below model cap = highest_at_most cap model.opps

  unfoldable pub first_opp_meeting_performance : EnergyModel → F → Option EnergyOpp
  first_opp_meeting_performance model performance =
      or_else (find (λ o. ge o.performance performance) model.control_opps)
        (last_opp model.control_opps)

  -- `is_none_or(|previous| previous < snapped)`.
  abbrev pub rises_from : Option ℕ → ℕ → Bool
  rises_from none snapped = true
  rises_from (some previous) snapped = ltb previous snapped

  -- What a request selects: the point at the nearest frequency, if it is above the last one.
  unfoldable pub sparse_choice : List EnergyOpp → List ℕ → Option ℕ → ℕ → Option EnergyOpp
  unfolding snap_frequency_nearest
  sparse_choice opps available last target =
      let snapped = snap_frequency_nearest available target in
      if rises_from last snapped then find (λ o. o.frequency_hz == snapped) opps else none

  -- The loop over the requests; `last` is the frequency selected last.
  unfoldable pub select_sparse : List EnergyOpp → List ℕ → Option ℕ → List ℕ → List EnergyOpp
  unfolding sparse_choice
  select_sparse opps available last [] = []
  select_sparse opps available last (target ∷ targets) =
      elim (sparse_choice opps available last target) [
        | none ↦ select_sparse opps available last targets
        | some opp ↦ opp ∷ select_sparse opps available (some opp.frequency_hz) targets
      ]

  abbrev pub frequencies_of : List EnergyOpp → List ℕ
  frequencies_of = map λ o. o.frequency_hz

  unfoldable pub sparse_reference_control_opps : List EnergyOpp → ℕ → ℕ → ℕ → List EnergyOpp
  unfolding select_sparse sparse_requests
  sparse_reference_control_opps opps free plain sweet =
      select_sparse opps (frequencies_of opps) none
        (sparse_requests (last_or sweet (frequencies_of opps)) free plain sweet)

  -- One point of the reference curve: linear up to the plain frequency, quadratic up to the sweet
  -- one, cubic above.
  unfoldable pub reference_opp : ReferenceCurve → ℕ → EnergyOpp
  reference_opp curve frequency_hz =
      let typical = of_u64 curve.typical_frequency_hz in
      let a₃ = div (of_u64 curve.typical_power_mw_per_core) (powi typical 3) in
      let a₂ = mul a₃ (of_u64 curve.sweet_frequency_hz) in
      let a₁ = mul a₂ (of_u64 curve.plain_frequency_hz) in
      let frequency = of_u64 frequency_hz in
      record {
        frequency_hz = frequency_hz;
        performance = mul frequency (div (of_u64 curve.relative_performance) (literal 100 0));
        power_mw_per_core =
            if leb frequency_hz curve.plain_frequency_hz
            then mul a₁ frequency
            else if leb frequency_hz curve.sweet_frequency_hz
            then mul a₂ (powi frequency 2)
            else mul a₃ (powi frequency 3);
      }

  abbrev pub is_ordered_curve : ReferenceCurve → Bool
  is_ordered_curve c =
      leb c.free_frequency_hz c.plain_frequency_hz
      && leb c.plain_frequency_hz c.sweet_frequency_hz
      && leb c.sweet_frequency_hz c.typical_frequency_hz

  abbrev pub reference_model : ReferenceCurve → List ℕ → EnergyModel
  reference_model curve frequencies =
      let opps = map (reference_opp curve) frequencies in
      let free = snap_frequency_nearest frequencies curve.free_frequency_hz in
      let plain = snap_frequency_nearest frequencies curve.plain_frequency_hz in
      let sweet = snap_frequency_nearest frequencies curve.sweet_frequency_hz in
      record {
        opps = opps;
        control_opps = sparse_reference_control_opps opps free plain sweet;
        performance_per_hz = div (of_u64 curve.relative_performance) (literal 100 0);
        free_frequency_hz = free;
        sweet_frequency_hz = sweet;
        plain_frequency_hz = plain;
      }

  unfoldable pub expand_reference_curve :
      ReferenceCurve → List ℕ → Result EnergyModelError EnergyModel
  expand_reference_curve curve frequencies =
      if curve.relative_performance == 0
      then err (invalid_value "relative_performance")
      else if curve.typical_power_mw_per_core == 0
      then err (invalid_value "typical_power_mw_per_core")
      else if not (is_ordered_curve curve)
      then err invalid_curve_ordering
      else ok (reference_model curve frequencies)

  -- The point at one frequency.
  unfoldable pub measured_opp : ℕ → Option MeasuredOppConfig → Result EnergyModelError EnergyOpp
  measured_opp frequency none = err (missing_measured_opp frequency)
  measured_opp frequency (some p) =
      if p.relative_capacity == 0
      then err (invalid_value "relative_capacity")
      else if p.power_mw_per_core == 0
      then err (invalid_value "power_mw_per_core")
      else ok (record {
        frequency_hz = frequency;
        performance = of_u64 p.relative_capacity;
        power_mw_per_core = of_u64 p.power_mw_per_core;
      })

  -- `collect::<Result<Vec<_>, _>>()`: the first error ends it.
  unfoldable pub measured_opps :
      List MeasuredOppConfig → List ℕ → Result EnergyModelError (List EnergyOpp)
  measured_opps points [] = ok []
  measured_opps points (f ∷ fs) = do
    opp ← measured_opp f (measured_at f points)
    opps ← measured_opps points fs
    ok (opp ∷ opps)

  -- `min_by` on the cost: of equal costs, and where a cost is not a number, the earlier stays.
  unfoldable pub cheapest : EnergyOpp → List EnergyOpp → EnergyOpp
  unfolding cost_mw_per_performance
  cheapest best [] = best
  cheapest best (o ∷ os) =
      cheapest (if lt (cost_mw_per_performance o) (cost_mw_per_performance best) then o else best)
        os

  abbrev pub cheapest_frequency : List EnergyOpp → ℕ
  cheapest_frequency [] = 0
  cheapest_frequency (o ∷ os) = (cheapest o os).frequency_hz

  abbrev pub performance_per_hz_of : Option EnergyOpp → F
  performance_per_hz_of none = floats.zero
  performance_per_hz_of (some o) = div o.performance (of_u64 o.frequency_hz)

  abbrev pub measured_model : List EnergyOpp → EnergyModel
  measured_model opps = record {
    opps = opps;
    control_opps = opps;
    performance_per_hz = performance_per_hz_of (last_opp opps);
    free_frequency_hz = cheapest_frequency opps;
    sweet_frequency_hz = cheapest_frequency opps;
    plain_frequency_hz = cheapest_frequency opps;
  }

  unfoldable pub expand_measured_opps :
      List MeasuredOppConfig → List ℕ → Result EnergyModelError EnergyModel
  expand_measured_opps points frequencies = do
    opps ← measured_opps points frequencies
    ok (measured_model opps)

  abbrev pub expand : CpuEnergyModelConfig → List ℕ → Result EnergyModelError EnergyModel
  expand (reference_curve_v1 curve) frequencies = expand_reference_curve curve frequencies
  expand (measured_opp_v1 points) frequencies = expand_measured_opps points frequencies

  -- `EnergyModel::from_config`.
  unfoldable pub from_config : CpuEnergyModelConfig → List ℕ → Result EnergyModelError EnergyModel
  from_config config available_opps =
      let frequencies = dedup (sort_unstable available_opps) in
      if ltb (length frequencies) 2 then err insufficient_opps else expand config frequencies
