-- ===== src/Actuator/Target/Writable.antt =====
-- The ranges that `snap_limits` of crates/uperf-actuator/src/lib.rs returns, against the check
-- `validate_limits`.
use uperf_linux_rev.Base.{
  ℕ, ◌≤◌, min, ◌≡◌, refl, sym, ap, ◌∙◌, subst, ◌⊎◌, inl, false, Option, none, some, List, [], ◌∷◌,
  arith, some_or, ok, All, In, All-In, ok_of_guard, ok-injective,
}
use uperf_linux_rev.Core.Units.{FrequencyLimits}
use uperf_linux_rev.Core.Frequency.{snap_up, snap_down}
use uperf_linux_rev.Core.Frequency.Snap.{
  IsSnapUp, IsSnapDown, snap_up-IsSnapUp, snap_down-IsSnapDown,
}
use uperf_linux_rev.Actuator.Errors.{invalid_limits}
use uperf_linux_rev.Actuator.Target.Limits.{
  IsTarget, Whole, snap_limits_equiv, after_snap, reference_snap,
}
use uperf_linux_rev.Actuator.Target.{FrequencyTarget, snap_limits, bad_limits}

-- The snapped range can be written: it passes the target's own check.
pub record IsWritable (t : FrequencyTarget) (l : FrequencyLimits) : Type 0 where
  pub low : t.hardware_min ≤ l.min
  pub high : l.max ≤ t.hardware_max
  pub ordered : l.min ≤ l.max
  pub whole_min : Whole t.hertz_per_unit l.min
  pub whole_max : Whole t.hertz_per_unit l.max

pub writable : (t : FrequencyTarget) (l : FrequencyLimits) → bad_limits t l ≡ false → IsWritable t l
writable t l h = record {
  low = ground arith;
  high = ground arith;
  ordered = ground arith;
  whole_min = ground arith;
  whole_max = ground arith;
}

abbrev Fits : FrequencyTarget → ℕ → Type 0
Fits t f = (t.hardware_min ≤ f) × (f ≤ t.hardware_max) × Whole t.hertz_per_unit f

fit_of :
    (t : FrequencyTarget) (opps : List ℕ) (f : ℕ)
    → All (λ f. (t.hardware_min ≤ f) × (f ≤ t.hardware_max)) opps
    → All (Whole t.hertz_per_unit) opps
    → In f opps
    → Fits t f
fit_of t opps f inside whole m =
    let (a, b) = All-In (λ f. (t.hardware_min ≤ f) × (f ≤ t.hardware_max)) opps f inside m in
    (a, b, All-In (Whole t.hertz_per_unit) opps f whole m)

down-Fits :
    (t : FrequencyTarget) (r : ℕ) (o : Option ℕ)
    → IsTarget t
    → IsSnapDown t.opps r o
    → t.hardware_min ≤ r
    → Fits t (some_or o t.hardware_min) × (some_or o t.hardware_min ≤ r)
down-Fits t r none v h le = ((omega arith, v.ordered, v.whole_min), le)
down-Fits t r (some m) v h le = (fit_of t t.opps m v.inside v.whole_opps h.0, h.1)

up-Fits :
    (t : FrequencyTarget) (r : ℕ) (o : Option ℕ)
    → IsTarget t
    → IsSnapUp t.opps r o
    → r ≤ t.hardware_max
    → Fits t (some_or o t.hardware_max) × (r ≤ some_or o t.hardware_max)
up-Fits t r none v h le = ((v.ordered, omega arith, v.whole_max), le)
up-Fits t r (some m) v h le = (fit_of t t.opps m v.inside v.whole_opps h.0, h.1)

-- A range that fits the target, and keeps to the request where the operating points allow it.
pub record IsSnapped (t : FrequencyTarget) (requested l : FrequencyLimits) : Type 0 where
  pub fits : IsWritable t l
  pub capped : l.max ≤ requested.max
  pub floor_kept : (requested.min ≤ l.min) ⊎ (l.min ≡ l.max)

Whole-of_min : (unit a b : ℕ) → Whole unit a → Whole unit b → Whole unit (min a b)
Whole-of_min unit a b h k = ground arith

reference-IsSnapped :
    (t : FrequencyTarget) (requested : FrequencyLimits)
    → IsTarget t
    → IsWritable t requested
    → IsSnapped t requested (reference_snap t requested t.opps)
reference-IsSnapped t requested v w =
    let (d, below) =
      down-Fits t requested.max _ v (snap_down-IsSnapDown t.opps requested.max)
        (omega (arith, w.low, w.ordered)) in
    let (u, above) =
      up-Fits t requested.min _ v (snap_up-IsSnapUp t.opps requested.min)
        (omega (arith, w.high, w.ordered)) in
    record {
      fits = record {
        low = omega (arith, d.0, u.0);
        high = d.1;
        ordered = omega arith;
        whole_min =
            Whole-of_min t.hertz_per_unit (some_or (snap_up t.opps requested.min) t.hardware_max)
              (some_or (snap_down t.opps requested.max) t.hardware_min) u.2 d.2;
        whole_max = d.2;
      };
      capped = below;
      floor_kept = ground (arith, above);
    }

after_snap-IsSnapped :
    (t : FrequencyTarget) (requested l : FrequencyLimits) (opps : List ℕ)
    → t.opps ≡ opps
    → IsTarget t
    → IsWritable t requested
    → after_snap t requested opps ≡ ok l
    → IsSnapped t requested l
after_snap-IsSnapped t requested l [] e v w h =
    subst (IsSnapped t requested) (ok-injective h)
      (record { fits = w; capped = omega arith; floor_kept = inl (omega arith) })
after_snap-IsSnapped t requested l (o ∷ os) e v w h =
    subst (IsSnapped t requested) (ap (reference_snap t requested) e ∙ ok-injective h)
      (reference-IsSnapped t requested v w)

-- On a well-formed target, a range that `snap_limits` returns passes the target's own check again,
-- never passes the requested maximum, and keeps the requested minimum unless it has collapsed onto
-- its maximum.
pub snap_limits-IsSnapped :
    (t : FrequencyTarget) (requested l : FrequencyLimits)
    → IsTarget t
    → snap_limits t requested ≡ ok l
    → IsSnapped t requested l
snap_limits-IsSnapped t requested l v e =
    let (good, done) =
      ok_of_guard (bad_limits t requested) (invalid_limits t.id requested.min requested.max) _
        (sym (snap_limits_equiv t requested v) ∙ e) in
    after_snap-IsSnapped t requested l t.opps refl v (writable t requested good) done
