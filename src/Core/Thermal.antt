-- ===== src/Core/Thermal.antt =====
-- The thermal guard: `ThermalState`, `ThermalGuard` and `worst_thermal_state` of
-- crates/uperf-core/src/policy.rs.
pub mod Safety
pub mod Dwell
use uperf_linux_rev.Base.Int.{ℤ, leℤ, ltℤ, sub_i64}
use uperf_linux_rev.Base.{
  ℕ, zero, suc, ◌+◌, ◌-◌, ◌*◌, ◌/◌, ◌%◌, ◌^◌, ◌≤◌, ◌<◌, min, max, ◌≡◌, refl, sym, ap, ◌∙◌, subst,
  ◌≢◌, ◌↔◌, ◌⊎◌, inl, inr, Bool, true, false, not, ◌&&◌, ◌||◌, Option, none, some, List, [], ◌∷◌,
  ◌++◌, map, arith, ltb, leb, ◌==◌, if◌then◌else◌, ltb→lt, leb→le, le→leb, ==_iff, Bool-cases,
  Option-cases, is_some, some_or, Result, ok, err, ok_or, Result-cases, &&-true, length,
  length-append, any, all, find, keep, All, In, All-append, All-keep, All-of-keep, All-In, In-keep,
  keep-In, ok_of_guard, ok-injective, ok-ne-err, or-false, if-cases, elim-cases, if-true, if-false,
}
use uperf_linux_rev.Core.Units.{ThermalReading, is_healthy, duration_since}

pub data ThermalState : Type 0 where
  normal warning throttled critical degraded : ThermalState

-- The position in the declaration, by which the derived `Ord` compares, and the key of
-- `worst_thermal_state`.
abbrev pub severity : ThermalState → ℕ
severity normal = 0
severity warning = 1
severity throttled = 2
severity critical = 3
severity degraded = 4

abbrev pub same_state : ThermalState → ThermalState → Bool
same_state a b = severity a == severity b

pub record ThermalThresholds : Type 0 where
  pub warning : ℤ
  pub throttled : ℤ
  pub critical : ℤ
  pub hysteresis : ℤ
  pub dwell_ms : ℕ
  pub stale_after_ms : ℕ

pub record ThermalGuard : Type 0 where
  pub thresholds : ThermalThresholds
  pub state : ThermalState
  pub pending : Option (ThermalState × ℕ)

-- `ThermalGuard::new`.
unfoldable pub new : ThermalThresholds → ThermalGuard
new t = record { thresholds = t; state = normal; pending = none }

unfoldable pub classify_temperature : ℤ → ThermalThresholds → ThermalState
classify_temperature temperature t =
    if leℤ t.critical temperature
    then critical
    else if leℤ t.throttled temperature
    then throttled
    else if leℤ t.warning temperature
    then warning
    else normal

-- The threshold that the temperature must fall below, by the hysteresis, before the state recovers.
abbrev pub recovery_threshold : ThermalState → ThermalThresholds → Option ℤ
recovery_threshold critical t = some t.critical
recovery_threshold throttled t = some t.throttled
recovery_threshold warning t = some t.warning
recovery_threshold normal t = none
recovery_threshold degraded t = none

abbrev pub recovered : ThermalGuard → ℤ → ThermalState → Option ℤ → ThermalState
recovered g temperature raw none = raw
recovered g temperature raw (some threshold) =
    if ltℤ temperature (sub_i64 threshold g.thresholds.hysteresis) then raw else g.state

-- `ThermalGuard::candidate_state`.
unfoldable pub candidate_state : ThermalGuard → ℤ → ThermalState
candidate_state g temperature =
    let raw = classify_temperature temperature g.thresholds in
    if leb (severity g.state) (severity raw) || same_state g.state degraded
    then raw
    else recovered g temperature raw (recovery_threshold g.state g.thresholds)

abbrev pub settle : ThermalGuard → ThermalState → ThermalGuard
settle g s = record g { state = s; pending = none }

-- The arms of `match self.pending`.
unfoldable pub debounce : ThermalGuard → ℕ → ThermalState → Option (ThermalState × ℕ) → ThermalGuard
debounce g now candidate none =
    if g.thresholds.dwell_ms == 0
    then settle g candidate
    else record g { pending = some (candidate, now) }
debounce g now candidate (some (waiting, since)) =
    if same_state waiting candidate
    then if leb g.thresholds.dwell_ms (duration_since now since) then settle g candidate else g
    else if g.thresholds.dwell_ms == 0
    then settle g candidate
    else record g { pending = some (candidate, now) }

unfoldable pub accept : ThermalGuard → ℕ → ThermalState → ThermalGuard
unfolding debounce
accept g now candidate =
    if same_state candidate critical
    then settle g candidate
    else if same_state candidate g.state
    then record g { pending = none }
    else debounce g now candidate g.pending

-- A reading that the guard must not trust, its missing temperature aside.
abbrev pub is_untrusted : ThermalGuard → ℕ → ThermalReading → Bool
is_untrusted g now r =
    not (is_healthy r.health)
    || ltb now r.sampled_at
    || ltb g.thresholds.stale_after_ms (duration_since now r.sampled_at)

abbrev pub on_temperature : ThermalGuard → ℕ → Option ℤ → ThermalGuard
on_temperature g now none = settle g degraded
on_temperature g now (some temperature) = accept g now (candidate_state g temperature)

-- `ThermalGuard::update`; the state that it returns is the new guard's.
unfoldable pub update : ThermalGuard → ℕ → ThermalReading → ThermalGuard
update g now r =
    if is_untrusted g now r then settle g degraded else on_temperature g now r.temperature

-- `max_by_key`: of equal keys the last wins.
worst_from : ThermalState → List ThermalState → ThermalState
worst_from best [] = best
worst_from best (s ∷ ss) = worst_from (if ltb (severity s) (severity best) then best else s) ss

unfoldable pub worst_thermal_state : List ThermalState → ThermalState
unfolding worst_from
worst_thermal_state [] = degraded
worst_thermal_state (s ∷ ss) = worst_from s ss
