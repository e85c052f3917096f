-- ===== src/Actuator/Io/Settle.antt =====
-- The results of `wait_for_limits` in crates/uperf-actuator/src/lib.rs.
use uperf_linux_rev.Actuator.Errors.{
  readback_unsettled, ActuatorError, invalid_readback, transaction,
}
use uperf_linux_rev.Base.Text.{text_key}
use uperf_linux_rev.Base.{
  ℕ, zero, suc, ◌-◌, min, ◌≡◌, refl, ◌∙◌, ap, Bool, true, false, Option, none, some, leb, Result,
  ok, err,
}
use uperf_linux_rev.Actuator.Io.{
  judge_reading, poll, poll_interval, read_limits, settle_polls, settled, wait_for_limits,
  wait_loop,
}
use uperf_linux_rev.Actuator.Io.Frame.{read_limits-Respects}
use uperf_linux_rev.Actuator.Io.Steps.{
  EndsAt, HasShown, Nowhere, Steps, Steps-frame, ends_badly, ends_well, Steps-chain, looks, naps,
  start,
}
use uperf_linux_rev.Actuator.Machine.{
  Action, Machine, Platform, bind_result, fail, lift, pure, read_clock, sleep, ◌>>=◌, ◌>>◌,
}
use uperf_linux_rev.Actuator.Target.{FrequencyTarget}
use uperf_linux_rev.Core.Units.{FrequencyLimits, same_limits, same_limits_iff}

module _ {W : Type 0} (os : Platform W) (t : FrequencyTarget) (requested : FrequencyLimits)
    (from : Machine W) where
  -- The range that is returned was asked for, and the last step was the reading that showed it.
  abbrev pub IsSettled : FrequencyLimits → Machine W → Type 0
  IsSettled actual n = (actual ≡ requested) × HasShown os Nowhere Nowhere t requested from n

  Agrees : Option FrequencyLimits → Machine W → Type 0
  Agrees none n = Unit {0}
  Agrees (some actual) n = IsSettled actual n

  Waits : Machine W → Type 0
  Waits n = Steps os Nowhere from n

  module _ (deadline : ℕ) (rest : Action W (Option FrequencyLimits))
      (goes_on : (n : Machine W) → Waits n → EndsAt Agrees (rest n)) where
    abbrev sleeping : ℕ → Bool → Action W (Option FrequencyLimits)
    sleeping now b = elim b [
      | true ↦ fail (transaction t.id readback_unsettled)
      | false ↦ do sleep os (min poll_interval (deadline - now)); rest
    ]

    sleeping-Agrees :
        (now : ℕ) (b : Bool) (n : Machine W) → Waits n → EndsAt Agrees (sleeping now b n)
    unfolding sleep Waits
    sleeping-Agrees now true n h = ends_badly _ n
    sleeping-Agrees now false n h = goes_on _ (naps (min poll_interval (deadline - now)) n h)

    abbrev late : Action W (Option FrequencyLimits)
    late = read_clock os >>= λ now. poll os t deadline rest now

    late-Agrees : (n : Machine W) → Waits n → EndsAt Agrees (late n)
    unfolding read_clock poll Waits
    late-Agrees n h = sleeping-Agrees _ (leb deadline (os.now n.world).0) _ (looks n h)

    abbrev deciding : FrequencyLimits → Bool → Action W (Option FrequencyLimits)
    deciding actual b = elim b [ true ↦ pure (some actual) | false ↦ late ]

    matched :
        (actual : FrequencyLimits) (k n : Machine W) (b : Bool)
        → Waits k
        → Waits n
        → read_limits os t k ≡ (ok actual, n)
        → same_limits actual requested ≡ b
        → EndsAt Agrees (deciding actual b n)
    unfolding Agrees Waits
    matched actual k n true before h reading same =
        let exact = (same_limits_iff actual requested).0 same in
        ends_well (some actual) n (
          exact,
          record {
            reader = k;
            reached = n;
            earlier = before;
            reading = reading ∙ ap (λ x. (ok x, n)) exact;
            later = start;
          },
        )
    matched actual k n false before h reading same = late-Agrees n h

    judge-Agrees :
        (k : Machine W) (out : Result ActuatorError FrequencyLimits × Machine W)
        → Waits k
        → Waits out.1
        → read_limits os t k ≡ out
        → EndsAt Agrees (judge_reading os t requested deadline rest out.0 out.1)
    unfolding judge_reading
    judge-Agrees k (ok actual, n) before h reading =
        matched actual k n (same_limits actual requested) before h reading refl
    judge-Agrees k (err (invalid_readback path value), n) before h reading = late-Agrees n h
    judge-Agrees k (err e, n) before h reading = ends_badly e n

  wait_loop-Agrees :
      (fuel deadline : ℕ) (n : Machine W)
      → Waits n
      → EndsAt Agrees (wait_loop os fuel t requested deadline n)
  unfolding wait_loop Agrees Waits
  wait_loop-Agrees zero deadline n h = ends_well none n tt
  wait_loop-Agrees (suc fuel) deadline n h =
      judge-Agrees deadline (wait_loop os fuel t requested deadline)
        (wait_loop-Agrees fuel deadline) n (read_limits os t n) h
        (Steps-chain os from n _ h ((read_limits-Respects (Steps-frame os) t).at n)) refl

  settled-Agrees :
      (out : Result ActuatorError (Option FrequencyLimits) × Machine W)
      → EndsAt Agrees out
      → EndsAt IsSettled (bind_result out λ o. lift (settled os t o))
  unfolding Agrees
  settled-Agrees _ (ends_well none n a) = ends_badly _ n
  settled-Agrees _ (ends_well (some l) n a) = ends_well l n a
  settled-Agrees _ (ends_badly e n) = ends_badly e n

  pub wait_for_limits-IsSettled : EndsAt IsSettled (wait_for_limits os t requested from)
  unfolding wait_for_limits read_clock Waits
  wait_for_limits-IsSettled =
      settled-Agrees _ (wait_loop-Agrees settle_polls _ _ (looks from start))
