-- ===== src/Core/Float.antt =====
-- `f64`: the values and operations that the policy code takes from the language, as an interface.
use Prim.Native.Nat.{Ordering}
use uperf_linux_rev.Base.Int.{ℤ}
use uperf_linux_rev.Base.{ℕ, Bool, List, if◌then◌else◌}

-- `ge`, `le`, `lt` and `is_finite` are the comparisons and the test of `f64`, `max`, `min`,
-- `clamp`, `hypot`, `powi`, `mul_add` and `total_cmp` its methods, `sum` is `Iterator::sum`; `seconds` is
-- `Duration::from_millis(ms).as_secs_f64()`, `of_u64` and `of_i32` the conversions of an integer, and
-- `literal digits places` the number written with that many decimal places.
pub record Floats : Type 1 where
  pub F : Type 0
  pub zero : F
  pub one : F
  pub infinity : F
  pub epsilon : F
  pub literal : ℕ → ℕ → F
  pub of_u64 : ℕ → F
  pub of_i32 : ℤ → F
  pub seconds : ℕ → F
  pub add : F → F → F
  pub sub : F → F → F
  pub mul : F → F → F
  pub div : F → F → F
  pub neg : F → F
  pub exp : F → F
  pub powi : F → ℕ → F
  pub mul_add : F → F → F → F
  pub max : F → F → F
  pub min : F → F → F
  pub hypot : F → F → F
  pub clamp : F → F → F → F
  pub sum : List F → F
  pub ge : F → F → Bool
  pub le : F → F → Bool
  pub lt : F → F → Bool
  pub total_cmp : F → F → Ordering
  pub is_finite : F → Bool

module _ (floats : Floats) where
  -- `finite_unit` of crates/uperf-core/src/energy.rs.
  unfoldable pub finite_unit : floats.F → floats.F
  finite_unit value =
      if floats.is_finite value then floats.clamp value floats.zero floats.one else floats.zero
