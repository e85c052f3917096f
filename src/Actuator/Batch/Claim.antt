-- ===== src/Actuator/Batch/Claim.antt =====
-- What `prepare_claim`, the decision for one request in `apply_batch` of
-- crates/uperf-actuator/src/lib.rs, tells.
use uperf_linux_rev.Base.Maps.{get}
use uperf_linux_rev.Base.Text.{text_key}
use uperf_linux_rev.Base.{
  ◌≡◌, ◌⊎◌, inl, inr, subst, refl, sym, not, ◌&&◌, Option, none, some, ok, Bool, true, false,
  ok-injective, ok-ne-err, if-cases,
}
use uperf_linux_rev.Actuator.Batch.{prepare_claim}
use uperf_linux_rev.Actuator.Io.{PreparedFrequencyMutation}
use uperf_linux_rev.Actuator.Journal.{Journal, JournalEntry}
use uperf_linux_rev.Actuator.Target.{FrequencyTarget, hardware_limits}
use uperf_linux_rev.Core.Units.{FrequencyLimits, same_limits, same_limits_iff}

-- What the journal says of a target: the range it was last asked for, or the full hardware range
-- where it is not owned.
abbrev pub requested_of : FrequencyTarget → Option JournalEntry → FrequencyLimits
requested_of t none = hardware_limits t
requested_of t (some e) = e.desired

abbrev pub IsPrevious : Journal → PreparedFrequencyMutation → Type 0
IsPrevious j p = p.previous_request ≡ requested_of p.target (get p.target.id j.entries)

-- What a decision for one request tells.
pub record IsClaim (t : FrequencyTarget) (desired before : FrequencyLimits)
    (o : Option JournalEntry) (p : PreparedFrequencyMutation) : Type 0 where
  pub target : p.target ≡ t
  pub wanted : p.desired_request ≡ desired
  pub effective : p.before_effective ≡ before
  pub previous : p.previous_request ≡ requested_of t o
  pub idle :
      p.needs_write ≡ false
      → (p.desired_request ≡ p.previous_request) ⊎ (p.desired_request ≡ p.before_effective)

not-false : (b : Bool) → not b ≡ false → b ≡ true
not-false true h = refl
not-false false h = cc

pub prepare_claim-IsClaim :
    (t : FrequencyTarget) (desired before : FrequencyLimits) (o : Option JournalEntry)
    (p : PreparedFrequencyMutation)
    → prepare_claim t desired before o ≡ ok p
    → IsClaim t desired before o p
unfolding prepare_claim
prepare_claim-IsClaim t desired before none p =
    if-cases (λ r. r ≡ ok p → IsClaim t desired before none p)
      (not (same_limits before desired) && not (same_limits before (hardware_limits t))) _ _
      (λ _ h. absurd (ok-ne-err (sym h)))
      (λ _ h. subst (IsClaim t desired before none) (ok-injective h) (record {
        target = refl;
        wanted = refl;
        effective = refl;
        previous = refl;
        idle = λ still. inr (
            sym
              ((same_limits_iff before desired).0 (not-false (same_limits before desired) still)));
      }))
prepare_claim-IsClaim t desired before (some e) p = λ h.
    subst (IsClaim t desired before (some e)) (ok-injective h) (record {
      target = refl;
      wanted = refl;
      effective = refl;
      previous = refl;
      idle = λ still. inl (
          sym (
            (same_limits_iff e.desired desired).0
              (not-false (same_limits e.desired desired) still)));
    })
