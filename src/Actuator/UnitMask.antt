-- ===== src/Actuator/UnitMask.antt =====
-- Which properties a unit's journal entry owns: `UnitFieldMask` of crates/uperf-
-- actuator/src/lib.rs.
pub mod Laws
use uperf_linux_rev.Base.Text.{Text, same_text}
use uperf_linux_rev.Base.{Bool, true, false, not, ◌&&◌, ◌||◌, Option, none, some, if◌then◌else◌}
use uperf_linux_rev.Actuator.Journal.{UnitFieldMask}
use uperf_linux_rev.Actuator.TaskMask.{same_option}
use uperf_linux_rev.Actuator.Values.{CpuSet, SystemdUnitProperties}

abbrev pub same_cpus : Option CpuSet → Option CpuSet → Bool
same_cpus none none = true
same_cpus none (some b) = false
same_cpus (some a) none = false
same_cpus (some a) (some b) = same_text a b

unfoldable pub changed : SystemdUnitProperties → SystemdUnitProperties → UnitFieldMask
changed before after = record {
  cpu_weight = not (same_option before.cpu_weight after.cpu_weight);
  allowed_cpus = not (same_cpus before.allowed_cpus after.allowed_cpus);
}

unfoldable pub union : UnitFieldMask → UnitFieldMask → UnitFieldMask
union a b = record {
  cpu_weight = a.cpu_weight || b.cpu_weight;
  allowed_cpus = a.allowed_cpus || b.allowed_cpus;
}

unfoldable pub without : UnitFieldMask → UnitFieldMask → UnitFieldMask
without a b = record {
  cpu_weight = a.cpu_weight && not b.cpu_weight;
  allowed_cpus = a.allowed_cpus && not b.allowed_cpus;
}

-- `self == Self::default()`.
unfoldable pub is_empty : UnitFieldMask → Bool
is_empty a = not a.cpu_weight && not a.allowed_cpus

unfoldable pub intersects : UnitFieldMask → UnitFieldMask → Bool
intersects a b = (a.cpu_weight && b.cpu_weight) || (a.allowed_cpus && b.allowed_cpus)

unfoldable pub fields_matching_either :
    UnitFieldMask
    → SystemdUnitProperties
    → SystemdUnitProperties
    → SystemdUnitProperties
    → UnitFieldMask
fields_matching_either a current first second = record {
  cpu_weight =
      a.cpu_weight
      && (same_option current.cpu_weight first.cpu_weight
          || same_option current.cpu_weight second.cpu_weight);
  allowed_cpus =
      a.allowed_cpus
      && (same_cpus current.allowed_cpus first.allowed_cpus
          || same_cpus current.allowed_cpus second.allowed_cpus);
}

unfoldable pub copy :
    UnitFieldMask → SystemdUnitProperties → SystemdUnitProperties → SystemdUnitProperties
copy a destination source = record {
  cpu_weight = if a.cpu_weight then source.cpu_weight else destination.cpu_weight;
  allowed_cpus = if a.allowed_cpus then source.allowed_cpus else destination.allowed_cpus;
}

unfoldable pub values_equal : UnitFieldMask → SystemdUnitProperties → SystemdUnitProperties → Bool
values_equal a l r =
    (not a.cpu_weight || same_option l.cpu_weight r.cpu_weight)
    && (not a.allowed_cpus || same_cpus l.allowed_cpus r.allowed_cpus)
