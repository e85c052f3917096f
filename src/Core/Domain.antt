-- ===== src/Core/Domain.antt =====
-- Identifiers of targets, processors and processes, and plans for tasks:
-- crates/uperf-core/src/domain.rs.
use uperf_linux_rev.Base.Int.{ℤ}
use uperf_linux_rev.Base.Text.{Text}
use uperf_linux_rev.Base.{ℕ, ◌≡◌, ◌↔◌, Bool, true, ◌&&◌, ◌||◌, Option, List, arith, ltb, ◌==◌}
use uperf_linux_rev.Base.Maps.{Key}

-- `TargetId(String)`.
abbrev pub TargetId : Type 0
TargetId = Text

-- `CpuSet(BTreeSet<CpuId>)`: ascending, each once.
abbrev pub CpuSet : Type 0
CpuSet = List ℕ

pub record ProcessIdentity : Type 0 where
  pub pid : ℕ
  pub start_time_ticks : ℕ
  pub uid : ℕ

pub record ProcessInfo : Type 0 where
  pub identity : ProcessIdentity
  pub owner_control_safe : Bool
  pub comm : Text
  pub executable : Option Text
  pub desktop_id : Option Text

-- The derived order compares the fields in turn.
abbrev pub same_identity : ProcessIdentity → ProcessIdentity → Bool
same_identity a b = a.pid == b.pid && a.start_time_ticks == b.start_time_ticks && a.uid == b.uid

abbrev pub before_identity : ProcessIdentity → ProcessIdentity → Bool
before_identity a b =
    ltb a.pid b.pid
    || (a.pid == b.pid
        && (ltb a.start_time_ticks b.start_time_ticks
            || (a.start_time_ticks == b.start_time_ticks && ltb a.uid b.uid)))

pub same_identity_iff : (a b : ProcessIdentity) → (same_identity a b ≡ true) ↔ (a ≡ b)
same_identity_iff a b = ground arith

instance abbrev pub identity_key : Key ProcessIdentity
identity_key = record {
  same = same_identity;
  before = before_identity;
  same_iff = same_identity_iff;
}

pub data SchedulingClass : Type 0 where
  other batch idle fifo : SchedulingClass

pub record TaskPlan : Type 0 where
  pub affinity : Option CpuSet
  pub nice : Option ℤ
  pub scheduling_class : Option SchedulingClass
  pub rt_priority : Option ℕ
  pub uclamp_min : Option ℕ
  pub uclamp_max : Option ℕ

pub data ScalarSettingValue : Type 0 where
  integer : ℤ → ScalarSettingValue
  string : Text → ScalarSettingValue
  cpu_list : CpuSet → ScalarSettingValue
