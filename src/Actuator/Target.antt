-- ===== src/Actuator/Target.antt =====
-- A frequency target: `FrequencyTarget` of crates/uperf-actuator/src/lib.rs.
pub mod Snap
pub mod Limits
pub mod Writable
use mathlib.Core.List.{reverse}
use uperf_linux_rev.Base.Words.{is_multiple_of}
use uperf_linux_rev.Base.Text.{Text, same_text, is_absolute, components, same_path, text}
use uperf_linux_rev.Base.{
  ℕ, min, max, Bool, false, not, ◌&&◌, ◌||◌, List, [], ◌∷◌, ltb, leb, ◌==◌, if◌then◌else◌, some_or,
  Result, ok, err, any, all, find,
}
use uperf_linux_rev.Core.Units.{FrequencyLimits, new_limits}
use uperf_linux_rev.Core.Sorting.{sort_unstable, dedup}
use uperf_linux_rev.Actuator.Errors.{ActuatorError, invalid_target, invalid_limits}

pub record FrequencyTarget : Type 0 where
  pub id : Text
  pub min_path : Text
  pub max_path : Text
  pub hardware_min : ℕ
  pub hardware_max : ℕ
  pub opps : List ℕ
  pub hertz_per_unit : ℕ

abbrev starts_with_sys : List Text → Bool
starts_with_sys [] = false
starts_with_sys (c ∷ cs) = same_text c (text "sys")

-- `validate_sysfs_path`.
unfoldable pub validate_sysfs_path : Text → Result ActuatorError (Unit {0})
validate_sysfs_path path =
    if not (is_absolute path)
      || not (starts_with_sys (components path))
      || any (λ c. same_text c (text "..")) (components path)
    then err (invalid_target path)
    else ok tt

abbrev pub and_then {ℓ κ} :
    {A : Type ℓ} {B : Type κ}
    → Result ActuatorError A
    → Result ActuatorError B
    → Result ActuatorError B
and_then (ok a) r = r
and_then (err e) r = err e

-- `FrequencyTarget::new`.
unfoldable pub new : Text → Text → Text → ℕ → ℕ → List ℕ → Result ActuatorError FrequencyTarget
new id min_path max_path hardware_min hardware_max opps =
    let sorted = dedup (sort_unstable opps) in
    and_then (validate_sysfs_path min_path) (
      and_then (validate_sysfs_path max_path) (
        if same_path min_path max_path
        then err (invalid_target id)
        else if ltb hardware_max hardware_min
        then err (invalid_limits id hardware_min hardware_max)
        else if any (λ opp. ltb opp hardware_min || ltb hardware_max opp) sorted
        then err (invalid_target id)
        else ok (record {
          id = id;
          min_path = min_path;
          max_path = max_path;
          hardware_min = hardware_min;
          hardware_max = hardware_max;
          opps = sorted;
          hertz_per_unit = 1;
        })))

abbrev pub all_representable : FrequencyTarget → ℕ → Bool
all_representable t unit =
    is_multiple_of t.hardware_min unit
    && is_multiple_of t.hardware_max unit
    && all (λ f. is_multiple_of f unit) t.opps

unfoldable pub with_hertz_per_unit : FrequencyTarget → ℕ → Result ActuatorError FrequencyTarget
with_hertz_per_unit t unit =
    if unit == 0
    then err (invalid_target t.id)
    else if not (all_representable t unit)
    then err (invalid_target t.id)
    else ok (record t { hertz_per_unit = unit })

abbrev pub bad_limits : FrequencyTarget → FrequencyLimits → Bool
bad_limits t l =
    ltb l.min t.hardware_min
    || ltb t.hardware_max l.max
    || ltb l.max l.min
    || t.hertz_per_unit == 0
    || not (is_multiple_of l.min t.hertz_per_unit)
    || not (is_multiple_of l.max t.hertz_per_unit)

unfoldable pub validate_limits : FrequencyTarget → FrequencyLimits → Result ActuatorError (Unit {0})
validate_limits t l = if bad_limits t l then err (invalid_limits t.id l.min l.max) else ok tt

abbrev pub or_reversed : FrequencyTarget → ℕ → ℕ → Result ActuatorError FrequencyLimits
or_reversed t lo hi = elim (new_limits (min lo hi) hi) [
  | ok l ↦ ok l
  | err e ↦ err (invalid_limits t.id lo hi)
]

-- The two searches of `snap_limits`, over the ascending operating points.
unfoldable pub snapped :
    FrequencyTarget → FrequencyLimits → List ℕ → Result ActuatorError FrequencyLimits
snapped t requested [] = ok requested
snapped t requested (o ∷ os) =
    or_reversed t (some_or (find (λ opp. leb requested.min opp) (o ∷ os)) t.hardware_max)
      (some_or (find (λ opp. leb opp requested.max) (reverse (o ∷ os))) t.hardware_min)

unfoldable pub snap_limits :
    FrequencyTarget → FrequencyLimits → Result ActuatorError FrequencyLimits
snap_limits t requested =
    if bad_limits t requested
    then err (invalid_limits t.id requested.min requested.max)
    else snapped t requested t.opps

abbrev pub hardware_limits : FrequencyTarget → FrequencyLimits
hardware_limits t = record { min = t.hardware_min; max = t.hardware_max }
