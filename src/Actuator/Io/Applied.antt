-- ===== src/Actuator/Io/Applied.antt =====
-- The results of `apply_requested_limits` in crates/uperf-actuator/src/lib.rs.
use uperf_linux_rev.Base.Text.{Text, text_key}
use uperf_linux_rev.Base.{◌≡◌, refl, sym, ◌∙◌, subst, ◌⊎◌, inl, inr, Result, ok, ok_of_guard}
use uperf_linux_rev.Actuator.Errors.{ActuatorError, invalid_limits}
use uperf_linux_rev.Actuator.Io.{apply_requested_limits, wait_for_limits, write_ordered}
use uperf_linux_rev.Actuator.Io.Frame.{IsFrame, wait_for_limits-Respects, write_ordered-Respects}
use uperf_linux_rev.Actuator.Io.Ordered.{HasMoved, write_ordered-HasMoved}
use uperf_linux_rev.Actuator.Io.Settle.{IsSettled, wait_for_limits-IsSettled}
use uperf_linux_rev.Actuator.Io.Steps.{
  EndsAt, EndsAt-bind, EndsAt-lift, EndsAt-ok, HasShown, Nowhere, Steps, Steps-frame, ends_badly,
  ends_well,
}
use uperf_linux_rev.Actuator.Machine.{
  Machine, Platform, bind_result, read_clock, read_string, sleep, write_string,
}
use uperf_linux_rev.Actuator.Target.{FrequencyTarget, bad_limits, validate_limits}
use uperf_linux_rev.Actuator.Target.Writable.{IsWritable, writable}
use uperf_linux_rev.Core.Units.{FrequencyLimits}

checked :
    (t : FrequencyTarget) (l : FrequencyLimits) (u : Unit {0})
    → validate_limits t l ≡ ok u
    → IsWritable t l
unfolding validate_limits
checked t l u h =
    writable t l (ok_of_guard (bad_limits t l) (invalid_limits t.id l.min l.max) (ok tt) h).0

abbrev pub FileOf : FrequencyTarget → Text → Type 0
FileOf t path = (path ≡ t.min_path) ⊎ (path ≡ t.max_path)

module _ {W : Type 0} (os : Platform W) where
  -- Nothing is written.
  silent-frame : IsFrame os (λ m n. n.trace ≡ m.trace) Nowhere
  unfolding read_string write_string read_clock sleep
  silent-frame = record {
    order = record { self = λ m. refl; chain = λ a b c h k. k ∙ h };
    reading = λ path. record { at = λ m. refl };
    writing = λ path value never. absurd never;
    clock = record { at = λ m. refl };
    napping = λ ns. record { at = λ m. refl };
  }

module _ {W : Type 0} (os : Platform W) (t : FrequencyTarget) where
  -- Both ranges passed the check; the writes took the files from the one to the other; after them
  -- nothing was written, and the last step was a reading of the files that showed the range that
  -- was asked for, which is the result.
  pub record IsApplied (current desired actual : FrequencyLimits) (m n : Machine W) : Type 0 where
    pub current_fits : IsWritable t current
    pub desired_fits : IsWritable t desired
    pub exact : actual ≡ desired
    pub writer : Machine W
    pub written : HasMoved t current desired m writer
    pub reached : Steps os (FileOf t) m writer
    pub silent : n.trace ≡ writer.trace
    pub shown : HasShown os Nowhere Nowhere t desired writer n

  module _ (current desired : FrequencyLimits) (m : Machine W) (low : IsWritable t current)
      (high : IsWritable t desired) where
    abbrev Done : FrequencyLimits → Machine W → Type 0
    Done actual n = IsApplied current desired actual m n

    waited :
        (w : Machine W) (out : Result ActuatorError FrequencyLimits × Machine W)
        → HasMoved t current desired m w
        → Steps os (FileOf t) m w
        → out.1.trace ≡ w.trace
        → EndsAt (IsSettled os t desired w) out
        → EndsAt Done out
    waited w _ written reached silent (ends_badly e n) = ends_badly e n
    waited w _ written reached silent (ends_well actual n (exact, shown)) =
        ends_well actual n (record {
          current_fits = low;
          desired_fits = high;
          exact = exact;
          writer = w;
          written = written;
          reached = reached;
          silent = silent;
          shown = shown;
        })

    wrote_first :
        (out : Result ActuatorError (Unit {0}) × Machine W)
        → Steps os (FileOf t) m out.1
        → EndsAt (λ u n. HasMoved t current desired m n) out
        → EndsAt Done (bind_result out λ u. wait_for_limits os t desired)
    wrote_first _ reached (ends_badly e n) = ends_badly e n
    wrote_first _ reached (ends_well u w written) =
        waited w _ written reached ((wait_for_limits-Respects (silent-frame os) t desired).at w)
          (wait_for_limits-IsSettled os t desired w)

    applying :
        EndsAt Done
          (bind_result (write_ordered os t current desired m) λ u. wait_for_limits os t desired)
    applying =
        wrote_first _
          ((write_ordered-Respects (Steps-frame os) t current desired (inl refl, inr refl)).at m)
          (write_ordered-HasMoved os t current m desired low.ordered high.ordered)

  pub apply_requested-EndsAt :
      (current desired : FrequencyLimits) (m : Machine W)
      → EndsAt
          (λ actual n. IsApplied current desired actual m n)
          (apply_requested_limits os t current desired m)
  unfolding apply_requested_limits
  apply_requested-EndsAt current desired m =
      let Q = λ (actual : FrequencyLimits) (n : Machine W). IsApplied current desired actual m n in
      EndsAt-bind _ Q _ _ (EndsAt-lift (validate_limits t current) m) λ u n low.
        EndsAt-bind _ Q _ _ (EndsAt-lift (validate_limits t desired) n) λ v k high.
          subst
            (λ x. EndsAt Q (
              bind_result (write_ordered os t current desired x) λ w. wait_for_limits os t desired))
            (sym (high.1 ∙ low.1))
            (applying current desired m (checked t current u low.0) (checked t desired v high.0))

  -- Where `apply_requested_limits` succeeds, the range before and the requested one passed the
  -- target's check; what it wrote took the target's files from the one range to the other, one
  -- bound at a time and never past the other bound; and after the last write it read the files,
  -- which showed exactly the requested range.
  pub apply_requested_limits-IsApplied :
      (current desired actual : FrequencyLimits) (m : Machine W)
      → (apply_requested_limits os t current desired m).0 ≡ ok actual
      → IsApplied current desired actual m (apply_requested_limits os t current desired m).1
  apply_requested_limits-IsApplied current desired actual m =
      EndsAt-ok (λ a n. IsApplied current desired a m n) _ actual
        (apply_requested-EndsAt current desired m)
