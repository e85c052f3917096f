-- ===== src/Actuator/Fast/Transact.antt =====
-- The transaction of `apply_owned_batch_fast`, from the claims to the rollback.
use uperf_linux_rev.Actuator.Errors.{rollback_failed}
use uperf_linux_rev.Base.Maps.{insert}
use uperf_linux_rev.Base.Text.{Text, text_key}
use uperf_linux_rev.Base.{
  ℕ, refl, inl, Option, none, some, List, [], ◌∷◌, Result, ok, err, All, elim-cases,
}
use uperf_linux_rev.Actuator.Batch.{Applied, Progress, TargetRegistry, bump, moving, reached}
use uperf_linux_rev.Actuator.Batch.Durable.{ClaimsPath}
use uperf_linux_rev.Actuator.Batch.Entries.{AreClaimed, IsEntryFor}
use uperf_linux_rev.Actuator.Errors.{ActuatorError, transaction, write_failed}
use uperf_linux_rev.Actuator.Fast.{
  finish_owned, move_owned, put_journal_back, transact_owned, update_owned, write_owned,
}
use uperf_linux_rev.Actuator.Fast.Owned.{Covers, FitsUnder, put_back-IsJournalFor}
use uperf_linux_rev.Actuator.Fast.Steps.{
  Covers-frame, Covers-modify, Covers-preorder, degrade-Covers, update_owned-Covers,
}
use uperf_linux_rev.Actuator.Io.{
  PreparedFrequencyMutation, apply_requested_limits, rollback_frequency_requests,
}
use uperf_linux_rev.Actuator.Io.Frame.{Reaches, apply_requested-Respects, rollback-Respects}
use uperf_linux_rev.Actuator.Journal.{Journal, JournalEntry}
use uperf_linux_rev.Actuator.Machine.{
  Action, Platform, attempt, degrade, fail, get_state, pure, set_journal, ◌>>=◌, ◌>>◌,
}
use uperf_linux_rev.Actuator.Machine.Ends.{
  Meets, Meets-Respects, Meets-bind, Meets-pure, Respects-Meets,
}
use uperf_linux_rev.Actuator.Machine.Rules.{
  IsPreorder, Respects, Respects-attempt, Respects-bind, Respects-fail, Respects-pure,
}
use uperf_linux_rev.Actuator.Target.{FrequencyTarget}
use uperf_linux_rev.Actuator.Writes.Legal.{transaction_legal_pairs-ends}
use uperf_linux_rev.Core.Units.{FrequencyLimits}

moving_keeps :
    (from to : FrequencyLimits) (e : JournalEntry) (t : FrequencyTarget)
    → IsEntryFor t e
    → IsEntryFor t (moving e from to)
moving_keeps from to e t own = record {
  named = own.named;
  low = own.low;
  high = own.high;
  origin = own.origin;
  legal = (transaction_legal_pairs-ends from to).0;
}

reached_keeps :
    (actual : FrequencyLimits) (e : JournalEntry) (t : FrequencyTarget)
    → IsEntryFor t e
    → IsEntryFor t (reached e actual)
reached_keeps actual e t own = record {
  named = own.named;
  low = own.low;
  high = own.high;
  origin = own.origin;
  legal = inl refl;
}

module _ {W : Type 0} (os : Platform W) (registry : TargetRegistry) (held : Journal) where
  order : IsPreorder (Covers {W = W} registry held)
  order = Covers-preorder registry held

  Reached : Progress → Type 0
  Reached progress = All (λ p. Reaches (ClaimsPath held) p.target) progress.attempted

  move_owned-Covers :
      (ps : List PreparedFrequencyMutation) → Respects (Covers registry held) (move_owned os ps)
  unfolding move_owned
  move_owned-Covers [] = Respects-pure order tt
  move_owned-Covers (p ∷ ps) =
      elim-cases (Respects (Covers registry held)) p.needs_write
        (update_owned os p.target.id (λ e. moving e p.before_effective p.desired_request)
          >> move_owned os ps)
        (move_owned os ps)
        (λ wanted.
          Respects-bind order _ _
            (update_owned-Covers registry held p.target.id
              (λ e. moving e p.before_effective p.desired_request)
              (λ e t listed. moving_keeps p.before_effective p.desired_request e t) os)
            λ u. move_owned-Covers ps)
        (λ idle. move_owned-Covers ps)

  -- What the loop does with the outcome of one write.
  abbrev next :
      PreparedFrequencyMutation
      → List PreparedFrequencyMutation
      → Applied
      → List PreparedFrequencyMutation
      → Result ActuatorError FrequencyLimits
      → Action W Progress
  next p ps applied attempted r = elim r [
    | ok actual ↦ do
      update_owned os p.target.id (λ e. reached e actual)
      write_owned os ps (insert p.target.id actual applied) (p ∷ attempted)
    | err e ↦
        pure (record { applied = applied; attempted = p ∷ attempted; failure = some p.target.id })
  ]

  next-Reached :
      (p : PreparedFrequencyMutation) (ps : List PreparedFrequencyMutation) (applied : Applied)
      (attempted : List PreparedFrequencyMutation) (r : Result ActuatorError FrequencyLimits)
      → All (λ q. Reaches (ClaimsPath held) q.target) (p ∷ attempted)
      → ((a : Applied) → Meets (Covers registry held) Reached (write_owned os ps a (p ∷ attempted)))
      → Meets (Covers registry held) Reached (next p ps applied attempted r)
  unfolding Reached
  next-Reached p ps applied attempted (ok actual) reach rest =
      Meets-bind order (λ x. Unit {0}) Reached _ _
        (Meets-Respects order (λ x. Unit {0}) _ (λ x. tt)
          (update_owned-Covers registry held p.target.id (λ e. reached e actual)
            (λ e t listed. reached_keeps actual e t) os))
        λ x u. rest (insert p.target.id actual applied)
  next-Reached p ps applied attempted (err e) reach rest = Meets-pure order Reached _ reach

  write_owned-Reached :
      (ps : List PreparedFrequencyMutation) (applied : Applied)
      (attempted : List PreparedFrequencyMutation)
      → AreClaimed held ps
      → All (λ q. Reaches (ClaimsPath held) q.target) attempted
      → Meets (Covers registry held) Reached (write_owned os ps applied attempted)
  unfolding write_owned Reached
  write_owned-Reached [] applied attempted claims done = Meets-pure order Reached _ done
  write_owned-Reached (p ∷ ps) applied attempted claims done =
      let one = apply_requested_limits os p.target p.before_effective p.desired_request in
      elim-cases (Meets (Covers registry held) Reached) p.needs_write
        (attempt one >>= next p ps applied attempted)
        (write_owned os ps (insert p.target.id p.before_effective applied) attempted)
        (λ wanted.
          Meets-bind order (λ x. Unit {0}) Reached _ _
            (Meets-Respects order (λ x. Unit {0}) (attempt one) (λ x. tt)
              (Respects-attempt order one (
                apply_requested-Respects (Covers-frame registry held os) p.target p.before_effective
                  p.desired_request (claims.0 wanted))))
            λ r u.
              next-Reached p ps applied attempted r (claims.0 wanted, done)
                λ a. write_owned-Reached ps a (p ∷ attempted) claims.1 (claims.0 wanted, done))
        (λ idle.
          write_owned-Reached ps (insert p.target.id p.before_effective applied) attempted claims.1
            done)

  module _ (generation : ℕ) (saved : List (Text × JournalEntry))
      (fits : All (FitsUnder registry) saved) where
    abbrev after_undo : Text → Result ActuatorError (Unit {0}) → Action W Applied
    after_undo failed r = elim r [
      | err e ↦ degrade rollback_failed
      | ok _ ↦ do
        s ← get_state
        set_journal (put_journal_back os generation saved s.journal)
        fail (transaction failed write_failed)
    ]

    after_undo-Covers :
        (failed : Text) (r : Result ActuatorError (Unit {0}))
        → Respects (Covers registry held) (after_undo failed r)
    after_undo-Covers failed (err e) = degrade-Covers registry held rollback_failed
    after_undo-Covers failed (ok a) =
        Covers-modify registry held (put_journal_back os generation saved)
          (fail (transaction failed write_failed))
          (λ j inv. put_back-IsJournalFor registry saved j fits inv) (Respects-fail order _)

    abbrev ending : Progress → Option Text → Action W Applied
    ending progress o = elim o [
      | none ↦ pure progress.applied
      | some failed ↦ do
        undone ← attempt (rollback_frequency_requests os progress.attempted)
        after_undo failed undone
    ]

    ending-Covers :
        (progress : Progress) (o : Option Text)
        → Reached progress
        → Respects (Covers registry held) (ending progress o)
    unfolding Reached
    ending-Covers progress none reach = Respects-pure order progress.applied
    ending-Covers progress (some failed) reach =
        Respects-bind order _ _
          (Respects-attempt order _
            (rollback-Respects (Covers-frame registry held os) progress.attempted reach))
          (after_undo-Covers failed)

    finish_owned-Covers :
        (progress : Progress)
        → Reached progress
        → Respects (Covers registry held) (finish_owned os generation saved progress)
    unfolding finish_owned
    finish_owned-Covers progress reach = ending-Covers progress progress.failure reach

    pub transact_owned-Covers :
        (prepared : List PreparedFrequencyMutation)
        → AreClaimed held prepared
        → Respects (Covers registry held) (transact_owned os prepared generation saved)
    unfolding transact_owned
    transact_owned-Covers prepared claims =
        Covers-modify registry held bump
          (move_owned os prepared
            >> (write_owned os prepared [] [] >>= finish_owned os generation saved))
          (λ j inv. inv)
          (Respects-bind order _ _ (move_owned-Covers prepared) λ u.
            Respects-Meets order (λ x. Unit {0}) _
              (Meets-bind order Reached (λ x. Unit {0}) _ _
                (write_owned-Reached prepared [] [] claims tt)
                λ progress reach.
                  Meets-Respects order (λ x. Unit {0}) _ (λ x. tt)
                    (finish_owned-Covers progress reach)))
