-- ===== src/Daemon/Reconcile/Safety.antt =====
-- `reconcile_frequencies` of crates/uperf-daemon/src/reconcile.rs keeps the actuator's state sound.
use uperf_linux_rev.Base.{ℕ, List, [], ◌∷◌, Result, ok, err}
use uperf_linux_rev.Base.Text.{text_key}
use uperf_linux_rev.Actuator.Batch.{Applied, FrequencyRequest, TargetRegistry, apply_batch}
use uperf_linux_rev.Actuator.Batch.Entries.{IsRegistry}
use uperf_linux_rev.Actuator.Batch.Safety.{IsSound, apply_batch-IsSound}
use uperf_linux_rev.Actuator.Errors.{ActuatorError, ownership_required}
use uperf_linux_rev.Actuator.Fast.Synced.{apply_owned_batch_fast-synced}
use uperf_linux_rev.Actuator.Machine.{Machine, Platform}
use uperf_linux_rev.Actuator.Restore.Intents.{IsIndexed}
use uperf_linux_rev.Core.Domain.{TargetId}
use uperf_linux_rev.Daemon.Reconcile.Steps.{IsReady, IsClean, plan_requests-IsClean}
use uperf_linux_rev.Daemon.Reconcile.{
  Limits, ReconcileError, Worker, apply_owned, claim_batch, insert_all, reconcile_frequencies,
  send_requests, settle_batch,
}
use uperf_linux_rev.Daemon.Reconcile.Rules.{
  Keeps, Keeps-bind, Keeps-call, Keeps-call_result, Keeps-fail, Keeps-get_applied, Keeps-pure,
  Keeps-set_applied, Post, PostAction,
}

module _ {W : Type 0} (os : Platform W) (registry : TargetRegistry)
    (named : IsRegistry registry) where
  abbrev Sound : Machine W → Type 0
  Sound = IsSound registry

  whichever :
      {A : Type 0} (E : Machine W → Type 0) (r : Result ActuatorError A) (m : Machine W)
      → E m
      → PostAction (λ (a : A). E) E r m
  whichever E (ok a) m h = h
  whichever E (err e) m h = h

  settle_batch-IsSound :
      (requests : List FrequencyRequest) (r : Result ActuatorError Applied)
      → Keeps
          (IsSound registry)
          (λ a. IsSound registry)
          (IsSound registry)
          (settle_batch os registry requests r)
  unfolding settle_batch
  settle_batch-IsSound requests (ok result) = Keeps-pure (λ a. IsSound registry) result (λ m p. p)
  settle_batch-IsSound requests (err (ownership_required id)) =
      Keeps-call (λ a. IsSound registry) claim_batch _
        λ m sound.
          whichever (IsSound registry) (apply_batch os registry requests m).0 _
            (apply_batch-IsSound os registry named requests m sound)
  settle_batch-IsSound requests (err e) =
      Keeps-fail (λ a. IsSound registry) (apply_owned e) (λ m p. p)

  send_requests-IsSound :
      (requests : List FrequencyRequest)
      → Keeps
          (IsClean registry)
          (λ u. IsSound registry)
          (IsSound registry)
          (send_requests os registry requests)
  unfolding send_requests
  send_requests-IsSound [] = Keeps-pure (λ u. IsSound registry) tt (λ m clean. clean.sound)
  send_requests-IsSound (r ∷ rs) =
      let any = λ (A : Type 0) (a : A). Sound in
      Keeps-bind (any (Result ActuatorError Applied)) (any (Unit {0})) _ _
        (Keeps-call_result (any (Result ActuatorError Applied)) _ λ m clean.
          apply_owned_batch_fast-synced os registry (r ∷ rs) m named clean.sound clean.synced)
        λ fast.
          Keeps-bind (any Applied) (any (Unit {0})) _ _ (settle_batch-IsSound (r ∷ rs) fast)
            λ result.
              Keeps-bind (any Limits) (any (Unit {0})) _ _
                (Keeps-get_applied (IsSound registry) (λ m p. p))
                λ applied. Keeps-set_applied Sound (insert_all result applied) (λ m p. p)

  reconciling :
      (desired : Limits) (caps : List (TargetId × ℕ))
      → Keeps (IsReady registry) (λ u. Sound) Sound (reconcile_frequencies os registry desired caps)
  unfolding reconcile_frequencies
  reconciling desired caps =
      Keeps-bind (λ rs. IsClean registry) (λ u. Sound) _ _
        (plan_requests-IsClean os registry named desired caps) send_requests-IsSound

  same_end :
      {A : Type 0} (E : Machine W → Type 0) (r : Result ReconcileError A) (m : Machine W)
      → Post (λ (a : A). E) E r m
      → E m
  same_end E (ok a) m h = h
  same_end E (err e) m h = h

  -- With a registry that keeps each target under its id, and from a sound state whose journal keeps
  -- each entry under its target's id, a whole reconciliation keeps the actuator's state sound,
  -- however it ends.
  pub reconcile_frequencies-IsSound :
      (desired : Limits) (caps : List (TargetId × ℕ)) (s : Worker W)
      → IsSound registry s.machine
      → IsIndexed s.machine.state.journal
      → IsSound registry (reconcile_frequencies os registry desired caps s).1.machine
  reconcile_frequencies-IsSound desired caps s sound keyed =
      same_end (IsSound registry) (reconcile_frequencies os registry desired caps s).0 _
        ((reconciling desired caps).at s (record { sound = sound; keyed = keyed }))
