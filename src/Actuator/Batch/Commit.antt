-- ===== src/Actuator/Batch/Commit.antt =====
-- The phases of `apply_batch` in crates/uperf-actuator/src/lib.rs, put together.
use uperf_linux_rev.Actuator.Batch.{cannot_persist_before}
use uperf_linux_rev.Actuator.Batch.{record_effective}
use uperf_linux_rev.Base.Text.{Text, text_key}
use uperf_linux_rev.Base.{
  refl, sym, ap, ◌∙◌, subst, Option, none, some, List, [], Result, ok, err, All, elim-cases,
}
use uperf_linux_rev.Actuator.Batch.{
  Applied, FrequencyRequest, Progress, TargetRegistry, apply_batch, bump, claim_all,
  commit_prepared, finish_batch, nothing_to_write, prepare, transact, undo_batch, undo_unstored,
  write_all,
}
use uperf_linux_rev.Actuator.Batch.Durable.{ClaimsPath, IsCovered, IsSynced, durable}
use uperf_linux_rev.Actuator.Batch.Entries.{
  AreClaimed, IsJournalFor, IsListed, IsRegistry, claim_all-AreClaimed, claim_all-IsJournalFor,
}
use uperf_linux_rev.Actuator.Batch.Outcome.{Outcome, committed, gave_up, reverted, untouched}
use uperf_linux_rev.Actuator.Batch.Prepare.{Quiet, Quiet-preorder, prepare-Meets}
use uperf_linux_rev.Actuator.Batch.Stores.{
  IsStored, is_stored, not_stored, persist_journal-IsStored,
}
use uperf_linux_rev.Actuator.Batch.Undo.{
  Midway, Midway-Works, degrade-Outcome, undo_batch-Outcome, undo_unstored-Outcome,
}
use uperf_linux_rev.Actuator.Batch.Works.{Wrote, write_all-Wrote, wrote_all}
use uperf_linux_rev.Actuator.Errors.{ActuatorError}
use uperf_linux_rev.Actuator.Io.{PreparedFrequencyMutation}
use uperf_linux_rev.Actuator.Io.Frame.{Reaches}
use uperf_linux_rev.Actuator.Journal.{Journal}
use uperf_linux_rev.Actuator.Machine.{
  Action, Machine, Platform, RuntimeState, attempt, bind_result, degrade, ensure_mutation_ready,
  get_state, persist_journal, pure, set_journal, ◌>>=◌, ◌>>◌,
}
use uperf_linux_rev.Actuator.Machine.Ends.{Ends, fails, succeeds}

Outcome-shift :
    {W : Type 0} (registry : TargetRegistry) (before m : Machine W)
    (out : Result ActuatorError Applied × Machine W)
    → Quiet before m
    → Outcome registry m out
    → Outcome registry before out
Outcome-shift registry before m _ quiet (untouched r n q) =
    untouched r n (Quiet-preorder.chain before m n quiet q)
Outcome-shift registry before m _ quiet (committed a n mode required journal disk covered) =
    committed a n (mode ∙ ap (λ (s : RuntimeState). s.mode) quiet.0)
      (required ∙ ap (λ (s : RuntimeState). s.recovery_required) quiet.0) journal disk covered
Outcome-shift registry before m _ quiet (reverted e n same synced covered) =
    reverted e n (same ∙ quiet.0)
      (subst (λ (s : RuntimeState). IsSynced n.trace s.journal) quiet.0 synced) covered
Outcome-shift registry before m _ quiet (gave_up reason n mode required journal covered) =
    gave_up reason n mode (required ∙ ap (λ (s : RuntimeState). s.recovery_required) quiet.0)
      journal covered

module _ {W : Type 0} (os : Platform W) (registry : TargetRegistry) where
  module _ (before : Machine W) (ordered : IsJournalFor registry before.state.journal)
      (covered : IsCovered before.trace) (held : Journal) where
    abbrev settle : Progress → Result ActuatorError (Unit {0}) → Action W Applied
    settle progress r = elim r [
      | ok _ ↦ pure progress.applied
      | err e ↦ undo_unstored os before.state.journal progress.attempted
    ]

    settle-Outcome :
        (progress : Progress) (n : Machine W) (out : Result ActuatorError (Unit {0}) × Machine W)
        → All (λ p. Reaches (ClaimsPath held) p.target) progress.attempted
        → Midway registry held before n
        → IsStored n.state.journal n out
        → Outcome registry before (settle progress out.0 out.1)
    unfolding durable
    settle-Outcome progress n _ reach half (is_stored w) =
        committed progress.applied _ half.mode half.required half.journal refl half.covered
    settle-Outcome progress n _ reach half (not_stored e w) =
        undo_unstored-Outcome os registry held before ordered progress.attempted _ reach (record {
          mode = half.mode;
          required = half.required;
          journal = half.journal;
          disk = half.disk;
          covered = half.covered;
        })

    abbrev finishing : Progress → Option Text → Action W Applied
    finishing progress o = elim o [
      | some failed ↦ undo_batch os before.state.journal progress.attempted failed
      | none ↦ do
        s ← get_state
        result ← attempt (persist_journal os s.journal)
        settle progress result
    ]

    finishing-Outcome :
        (progress : Progress) (o : Option Text) (n : Machine W)
        → All (λ p. Reaches (ClaimsPath held) p.target) progress.attempted
        → Midway registry held before n
        → Outcome registry before (finishing progress o n)
    finishing-Outcome progress (some failed) n reach half =
        undo_batch-Outcome os registry held before ordered progress.attempted failed n reach half
    finishing-Outcome progress none n reach half =
        settle-Outcome progress n _ reach half (persist_journal-IsStored os n.state.journal n)

    finish_batch-Outcome :
        (n : Machine W) (out : Result ActuatorError Progress × Machine W)
        → Midway registry held before n
        → Wrote registry held n out
        → Outcome registry before (bind_result out (finish_batch os before.state.journal))
    unfolding finish_batch
    finish_batch-Outcome n _ half (wrote_all progress k w reach) =
        finishing-Outcome progress progress.failure k reach
          (Midway-Works registry held before n k half w)

    abbrev claim_stored :
        List PreparedFrequencyMutation → Result ActuatorError (Unit {0}) → Action W Applied
    claim_stored prepared r = elim r [
      | err e ↦ do set_journal before.state.journal; degrade cannot_persist_before
      | ok _ ↦ do
        progress ← write_all os prepared [] []
        finish_batch os before.state.journal progress
    ]

    claim_stored-Outcome :
        (prepared : List PreparedFrequencyMutation)
        (out : Result ActuatorError (Unit {0}) × Machine W)
        → All (λ p. IsListed registry p.target) prepared
        → AreClaimed held prepared
        → IsJournalFor registry held
        → IsStored held (record before { state = record before.state { journal = held } }) out
        → Outcome registry before (claim_stored prepared out.0 out.1)
    unfolding durable
    claim_stored-Outcome prepared _ listed claims journal (not_stored e w) =
        degrade-Outcome os registry held before ordered cannot_persist_before _ refl ordered covered
    claim_stored-Outcome prepared _ listed claims journal (is_stored w) =
        finish_batch-Outcome _ _
          (record {
            mode = refl;
            required = refl;
            journal = journal;
            disk = refl;
            covered = covered;
          })
          (write_all-Wrote os registry held prepared [] [] _ listed claims tt)

  transact-Outcome :
      (prepared : List PreparedFrequencyMutation) (m : Machine W)
      → All (λ p. IsListed registry p.target) prepared
      → IsJournalFor registry m.state.journal
      → IsCovered m.trace
      → Outcome registry m (transact os prepared m.state.journal m)
  unfolding transact
  transact-Outcome prepared m listed ordered covered =
      let held = claim_all prepared (bump m.state.journal) in
      claim_stored-Outcome m ordered covered held prepared _ listed
        (claim_all-AreClaimed registry prepared (bump m.state.journal) ordered listed)
        (claim_all-IsJournalFor registry prepared (bump m.state.journal) listed ordered)
        (persist_journal-IsStored os held _)

  commit_prepared-Outcome :
      (prepared : List PreparedFrequencyMutation) (m : Machine W)
      → All (λ p. IsListed registry p.target) prepared
      → IsJournalFor registry m.state.journal
      → IsCovered m.trace
      → Outcome registry m (commit_prepared os prepared m)
  unfolding commit_prepared
  commit_prepared-Outcome prepared m listed ordered covered =
      elim-cases (λ (a : Action W Applied). Outcome registry m (a m)) (nothing_to_write prepared)
        (pure (record_effective prepared [])) (get_state >>= λ s. transact os prepared s.journal)
        (λ idle. untouched _ m (refl, refl))
        (λ busy. transact-Outcome prepared m listed ordered covered)

  committing :
      (m : Machine W) (out : Result ActuatorError (List PreparedFrequencyMutation) × Machine W)
      → IsJournalFor registry m.state.journal
      → IsCovered m.trace
      → Ends Quiet (All (λ p. IsListed registry p.target)) m out
      → Outcome registry m (bind_result out (commit_prepared os))
  committing m _ ordered covered (fails e n quiet) = untouched (err e) n quiet
  committing m _ ordered covered (succeeds prepared n quiet listed) =
      Outcome-shift registry m n _ quiet (
        commit_prepared-Outcome prepared n listed
          (subst (λ (s : RuntimeState). IsJournalFor registry s.journal) (sym quiet.0) ordered)
          (subst IsCovered (sym quiet.1) covered))

  checking :
      (requests : List FrequencyRequest) (m : Machine W) (r : Result ActuatorError (Unit {0}))
      → IsRegistry registry
      → IsJournalFor registry m.state.journal
      → IsCovered m.trace
      → Outcome registry m
          (bind_result (r, m) λ _. prepare os registry requests [] >>= commit_prepared os)
  checking requests m (err e) keyed ordered covered = untouched (err e) m (refl, refl)
  checking requests m (ok a) keyed ordered covered =
      committing m _ ordered covered ((prepare-Meets os registry keyed requests []).at m)

  pub apply_batch-Outcome :
      (requests : List FrequencyRequest) (m : Machine W)
      → IsRegistry registry
      → IsJournalFor registry m.state.journal
      → IsCovered m.trace
      → Outcome registry m (apply_batch os registry requests m)
  unfolding apply_batch
  apply_batch-Outcome requests m = checking requests m (ensure_mutation_ready m.state)
