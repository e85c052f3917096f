-- ===== src/Actuator/Values.antt =====
-- The values that the actuator reads, writes and journals: crates/uperf-core/src/domain.rs,
-- crates/uperf-platform/src/lib.rs and the scalar types of crates/uperf-actuator/src/lib.rs.
use uperf_linux_rev.Base.Int.{ℤ}
use uperf_linux_rev.Base.Text.{Text}
use uperf_linux_rev.Base.{ℕ, Bool, Option, List}
pub use uperf_linux_rev.Core.Domain.{
  CpuSet, ProcessIdentity, SchedulingClass, other, batch, idle, fifo,
}

pub record ProcessSchedulingState : Type 0 where
  pub affinity : CpuSet
  pub nice : ℤ
  pub policy : SchedulingClass
  pub rt_priority : Option ℕ
  pub uclamp_min : Option ℕ
  pub uclamp_max : Option ℕ

pub record SystemdUnitProperties : Type 0 where
  pub cpu_weight : Option ℕ
  pub allowed_cpus : Option CpuSet

pub data SystemdUnitInstanceKey : Type 0 where
  invocation_id : List ℕ → SystemdUnitInstanceKey
  control_group : Text → SystemdUnitInstanceKey

pub record SystemdUnitInstanceIdentity : Type 0 where
  pub unit : Text
  pub key : SystemdUnitInstanceKey

pub data ScalarValue : Type 0 where
  integer : ℤ → ScalarValue
  string : Text → ScalarValue
  cpu_list : CpuSet → ScalarValue

pub data ScalarDomain : Type 0 where
  integer_range : ℤ → ℤ → ScalarDomain
  integer_enum : List ℤ → ScalarDomain
  string_enum : List Text → ScalarDomain
  cpu_list_of : CpuSet → Bool → ScalarDomain
