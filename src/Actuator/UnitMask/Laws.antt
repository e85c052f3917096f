-- ===== src/Actuator/UnitMask/Laws.antt =====
-- `changed` and `copy` of `UnitFieldMask` in crates/uperf-actuator/src/lib.rs.
use uperf_linux_rev.Base.Text.{same_text_iff}
use uperf_linux_rev.Base.{◌≡◌, refl, ap, true, Option, none, some}
use uperf_linux_rev.Actuator.TaskMask.{same_option}
use uperf_linux_rev.Actuator.TaskMask.Laws.{chosen, same_option_sound}
use uperf_linux_rev.Actuator.UnitMask.{changed, copy, same_cpus}
use uperf_linux_rev.Actuator.Values.{CpuSet, SystemdUnitProperties}

same_cpus_sound : (a b : Option CpuSet) → same_cpus a b ≡ true → a ≡ b
same_cpus_sound none none h = refl
same_cpus_sound none (some b) h = cc
same_cpus_sound (some a) none h = cc
same_cpus_sound (some a) (some b) h = ap {B = Option CpuSet} some ((same_text_iff a b).0 h)

-- Copying the properties that `changed` names from the state after to the state before gives the
-- state after.
copy-changed_unit :
    (before after : SystemdUnitProperties) → copy (changed before after) before after ≡ after
unfolding copy changed
copy-changed_unit b a =
    let weight =
      chosen (same_option b.cpu_weight a.cpu_weight) b.cpu_weight a.cpu_weight
        (same_option_sound b.cpu_weight a.cpu_weight) in
    let cpus =
      chosen (same_cpus b.allowed_cpus a.allowed_cpus) b.allowed_cpus a.allowed_cpus
        (same_cpus_sound b.allowed_cpus a.allowed_cpus) in
    λ i. record { cpu_weight = weight i; allowed_cpus = cpus i }
