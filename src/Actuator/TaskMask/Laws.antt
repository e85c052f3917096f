-- ===== src/Actuator/TaskMask/Laws.antt =====
-- `changed`, `copy`, `without` and `union` of `TaskFieldMask` in crates/uperf-
-- actuator/src/lib.rs.
use uperf_linux_rev.Base.Int.{ℤ, pos, negsuc}
use uperf_linux_rev.Base.Text.{same_text, same_text_iff}
use uperf_linux_rev.Base.{
  ℕ, ◌≡◌, refl, ap, Bool, true, false, not, ◌||◌, Option, none, some, arith, if◌then◌else◌, ==_iff,
}
use uperf_linux_rev.Actuator.Journal.{TaskFieldMask}
use uperf_linux_rev.Actuator.TaskMask.{
  changed, copy, intersects, is_empty, same_class, same_option, same_ℤ, union, without,
}
use uperf_linux_rev.Actuator.Values.{ProcessSchedulingState, SchedulingClass}

same_ℤ_sound : (a b : ℤ) → same_ℤ a b ≡ true → a ≡ b
same_ℤ_sound (pos a) (pos b) h = ap pos ((==_iff a b).0 h)
same_ℤ_sound (negsuc a) (negsuc b) h = ap negsuc ((==_iff a b).0 h)
same_ℤ_sound (pos a) (negsuc b) h = cc
same_ℤ_sound (negsuc a) (pos b) h = cc

pub same_option_sound : (a b : Option ℕ) → same_option a b ≡ true → a ≡ b
same_option_sound none none h = refl
same_option_sound none (some b) h = cc
same_option_sound (some a) none h = cc
same_option_sound (some a) (some b) h = ap {B = Option ℕ} some ((==_iff a b).0 h)

same_class_sound : (a b : SchedulingClass) → same_class a b ≡ true → a ≡ b
same_class_sound a b h = ground arith

-- A field that is copied where it differs is the source's.
pub chosen :
    {A : Type 0} (same : Bool) (d s : A) → (same ≡ true → d ≡ s) → (if not same then s else d) ≡ s
chosen true d s h = h refl
chosen false d s h = refl

chosen_pair :
    {A B : Type 0} (p q : Bool) (d s : A) (e t : B)
    → (p ≡ true → d ≡ s)
    → (q ≡ true → e ≡ t)
    → ((if not p || not q then s else d) ≡ s) × ((if not p || not q then t else e) ≡ t)
chosen_pair true true d s e t h k = (h refl, k refl)
chosen_pair true false d s e t h k = (refl, refl)
chosen_pair false true d s e t h k = (refl, refl)
chosen_pair false false d s e t h k = (refl, refl)

-- Copying the fields that `changed` names from the state after to the state before gives the state
-- after: no field is missed, the policy and its priority among them.
copy-changed :
    (before after : ProcessSchedulingState) → copy (changed before after) before after ≡ after
unfolding copy changed
copy-changed b a =
    let affinity =
      chosen (same_text b.affinity a.affinity) b.affinity a.affinity
        (same_text_iff b.affinity a.affinity).0 in
    let nice = chosen (same_ℤ b.nice a.nice) b.nice a.nice (same_ℤ_sound b.nice a.nice) in
    let pair =
      chosen_pair (same_class b.policy a.policy) (same_option b.rt_priority a.rt_priority) b.policy
        a.policy b.rt_priority a.rt_priority (same_class_sound b.policy a.policy)
        (same_option_sound b.rt_priority a.rt_priority) in
    let low =
      chosen (same_option b.uclamp_min a.uclamp_min) b.uclamp_min a.uclamp_min
        (same_option_sound b.uclamp_min a.uclamp_min) in
    let high =
      chosen (same_option b.uclamp_max a.uclamp_max) b.uclamp_max a.uclamp_max
        (same_option_sound b.uclamp_max a.uclamp_max) in
    λ i. record {
      affinity = affinity i;
      nice = nice i;
      policy = pair.0 i;
      rt_priority = pair.1 i;
      uclamp_min = low i;
      uclamp_max = high i;
    }

-- Two states between which nothing `changed` are equal.
changed-is_empty :
    (before after : ProcessSchedulingState)
    → is_empty (changed before after) ≡ true
    → before ≡ after
unfolding is_empty changed
changed-is_empty b a h =
    let affinity = (same_text_iff b.affinity a.affinity).0 (ground (arith, h)) in
    let nice = same_ℤ_sound b.nice a.nice (ground (arith, h)) in
    let policy = same_class_sound b.policy a.policy (ground (arith, h)) in
    let priority = same_option_sound b.rt_priority a.rt_priority (ground (arith, h)) in
    let low = same_option_sound b.uclamp_min a.uclamp_min (ground (arith, h)) in
    let high = same_option_sound b.uclamp_max a.uclamp_max (ground (arith, h)) in
    λ i. record {
      affinity = affinity i;
      nice = nice i;
      policy = policy i;
      rt_priority = priority i;
      uclamp_min = low i;
      uclamp_max = high i;
    }

-- `without` and `union` split a mask: what is left does not meet what was taken, and together with
-- what was taken covers the mask.
without-splits :
    (a b : TaskFieldMask)
    → (intersects (without a b) b ≡ false) × (union (without a b) b ≡ union a b)
unfolding without intersects union
without-splits a b = (ground arith, ground arith)
