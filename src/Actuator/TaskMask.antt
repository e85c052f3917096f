-- ===== src/Actuator/TaskMask.antt =====
-- Which scheduling fields a task's journal entry owns: `TaskFieldMask`, `same_policy_priority` and
-- `validate_journal_scheduling_state` of crates/uperf-actuator/src/lib.rs.
pub mod Laws
use uperf_linux_rev.Base.Int.{ℤ, pos, negsuc}
use uperf_linux_rev.Base.Text.{Text, same_text, same_text_iff}
use uperf_linux_rev.Base.{
  ℕ, Bool, true, false, not, ◌&&◌, ◌||◌, Option, none, some, leb, ◌==◌, if◌then◌else◌, Result, ok,
  err,
}
use uperf_linux_rev.Actuator.Journal.{TaskFieldMask}
use uperf_linux_rev.Actuator.Values.{
  ProcessSchedulingState, SchedulingClass, batch, fifo, idle, other,
}

-- The derived equality tests.
abbrev pub same_ℤ : ℤ → ℤ → Bool
same_ℤ (pos a) (pos b) = a == b
same_ℤ (negsuc a) (negsuc b) = a == b
same_ℤ (pos a) (negsuc b) = false
same_ℤ (negsuc a) (pos b) = false

abbrev pub same_option : Option ℕ → Option ℕ → Bool
same_option none none = true
same_option none (some b) = false
same_option (some a) none = false
same_option (some a) (some b) = a == b

abbrev pub class_rank : SchedulingClass → ℕ
class_rank other = 0
class_rank batch = 1
class_rank idle = 2
class_rank fifo = 3

abbrev pub same_class : SchedulingClass → SchedulingClass → Bool
same_class a b = class_rank a == class_rank b

unfoldable pub same_policy_priority : ProcessSchedulingState → ProcessSchedulingState → Bool
same_policy_priority l r = same_class l.policy r.policy && same_option l.rt_priority r.rt_priority

unfoldable pub changed : ProcessSchedulingState → ProcessSchedulingState → TaskFieldMask
changed before after = record {
  affinity = not (same_text before.affinity after.affinity);
  nice = not (same_ℤ before.nice after.nice);
  policy =
      not (same_class before.policy after.policy)
      || not (same_option before.rt_priority after.rt_priority);
  uclamp_min = not (same_option before.uclamp_min after.uclamp_min);
  uclamp_max = not (same_option before.uclamp_max after.uclamp_max);
}

unfoldable pub union : TaskFieldMask → TaskFieldMask → TaskFieldMask
union a b = record {
  affinity = a.affinity || b.affinity;
  nice = a.nice || b.nice;
  policy = a.policy || b.policy;
  uclamp_min = a.uclamp_min || b.uclamp_min;
  uclamp_max = a.uclamp_max || b.uclamp_max;
}

unfoldable pub without : TaskFieldMask → TaskFieldMask → TaskFieldMask
without a b = record {
  affinity = a.affinity && not b.affinity;
  nice = a.nice && not b.nice;
  policy = a.policy && not b.policy;
  uclamp_min = a.uclamp_min && not b.uclamp_min;
  uclamp_max = a.uclamp_max && not b.uclamp_max;
}

-- `self == Self::default()`: every field is false.
unfoldable pub is_empty : TaskFieldMask → Bool
is_empty a = not a.affinity && not a.nice && not a.policy && not a.uclamp_min && not a.uclamp_max

unfoldable pub intersects : TaskFieldMask → TaskFieldMask → Bool
intersects a b =
    (a.affinity && b.affinity)
    || (a.nice && b.nice)
    || (a.policy && b.policy)
    || (a.uclamp_min && b.uclamp_min)
    || (a.uclamp_max && b.uclamp_max)

unfoldable pub fields_matching_either :
    TaskFieldMask
    → ProcessSchedulingState
    → ProcessSchedulingState
    → ProcessSchedulingState
    → TaskFieldMask
fields_matching_either a current first second = record {
  affinity =
      a.affinity
      && (same_text current.affinity first.affinity || same_text current.affinity second.affinity);
  nice = a.nice && (same_ℤ current.nice first.nice || same_ℤ current.nice second.nice);
  policy = a.policy && (same_policy_priority current first || same_policy_priority current second);
  uclamp_min =
      a.uclamp_min
      && (same_option current.uclamp_min first.uclamp_min
          || same_option current.uclamp_min second.uclamp_min);
  uclamp_max =
      a.uclamp_max
      && (same_option current.uclamp_max first.uclamp_max
          || same_option current.uclamp_max second.uclamp_max);
}

-- `copy`: the destination after it.
unfoldable pub copy :
    TaskFieldMask → ProcessSchedulingState → ProcessSchedulingState → ProcessSchedulingState
copy a destination source = record {
  affinity = if a.affinity then source.affinity else destination.affinity;
  nice = if a.nice then source.nice else destination.nice;
  policy = if a.policy then source.policy else destination.policy;
  rt_priority = if a.policy then source.rt_priority else destination.rt_priority;
  uclamp_min = if a.uclamp_min then source.uclamp_min else destination.uclamp_min;
  uclamp_max = if a.uclamp_max then source.uclamp_max else destination.uclamp_max;
}

unfoldable pub values_equal : TaskFieldMask → ProcessSchedulingState → ProcessSchedulingState → Bool
values_equal a l r =
    (not a.affinity || same_text l.affinity r.affinity)
    && (not a.nice || same_ℤ l.nice r.nice)
    && (not a.policy || same_policy_priority l r)
    && (not a.uclamp_min || same_option l.uclamp_min r.uclamp_min)
    && (not a.uclamp_max || same_option l.uclamp_max r.uclamp_max)

-- What `validate_journal_scheduling_state` reports.
pub data SchedulingFault : Type 0 where
  priority_out_of_range : ℕ → SchedulingFault
  missing_priority : SchedulingFault
  unexpected_priority : ℕ → SchedulingFault

unfoldable pub validate_journal_scheduling_state :
    SchedulingClass → Option ℕ → Result SchedulingFault (Unit {0})
validate_journal_scheduling_state fifo (some p) =
    if leb 1 p && leb p 99 then ok tt else err (priority_out_of_range p)
validate_journal_scheduling_state fifo none = err missing_priority
validate_journal_scheduling_state other none = ok tt
validate_journal_scheduling_state batch none = ok tt
validate_journal_scheduling_state idle none = ok tt
validate_journal_scheduling_state other (some p) = err (unexpected_priority p)
validate_journal_scheduling_state batch (some p) = err (unexpected_priority p)
validate_journal_scheduling_state idle (some p) = err (unexpected_priority p)
