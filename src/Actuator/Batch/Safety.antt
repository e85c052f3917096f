-- ===== src/Actuator/Batch/Safety.antt =====
-- `apply_batch` of crates/uperf-actuator/src/lib.rs as a whole, and sequences of its calls.
use uperf_linux_rev.Base.Text.{text_key}
use uperf_linux_rev.Base.{
  ◌≡◌, refl, sym, ap, ◌∙◌, subst, ◌⊎◌, inl, inr, List, [], ◌∷◌, Result, ok, err,
}
use uperf_linux_rev.Actuator.Batch.{
  Applied, FrequencyRequest, TargetRegistry, apply_batch, commit_prepared, prepare,
}
use uperf_linux_rev.Actuator.Batch.Commit.{apply_batch-Outcome}
use uperf_linux_rev.Actuator.Batch.Durable.{IsCovered, IsSynced}
use uperf_linux_rev.Actuator.Batch.Entries.{IsJournalFor, IsRegistry}
use uperf_linux_rev.Actuator.Batch.Outcome.{Outcome, committed, gave_up, reverted, untouched}
use uperf_linux_rev.Actuator.Batch.Whole.{apply_batch-Tells}
use uperf_linux_rev.Actuator.Batch.Told.{AreSettled, AreUndone, IsDegraded, Tells}
use uperf_linux_rev.Actuator.Errors.{ActuatorError, Reason, degraded}
use uperf_linux_rev.Actuator.Machine.{
  Event, Machine, Platform, RuntimeState, bind_result, ensure_mutation_ready, read_only_degraded,
  ready_result, ◌>>=◌,
}

-- A success keeps the mode and answers every request; a failure degrades, or leaves the whole state
-- as it was with every target given back.
abbrev pub EndsWhole :
    {W A : Type 0}
    → Platform W
    → TargetRegistry
    → List FrequencyRequest
    → Machine W
    → Result ActuatorError A × Machine W
    → Type 0
EndsWhole os registry requests before (ok a, n) =
    (n.state.mode ≡ before.state.mode)
    × (n.state.recovery_required ≡ before.state.recovery_required)
    × AreSettled os registry requests before n
EndsWhole os registry requests before (err e, n) =
    IsDegraded n ⊎ ((n.state ≡ before.state) × AreUndone os before n)

-- The journal's entries are those of their targets, and every write so far was covered by the disk.
pub record IsSound {W : Type 0} (registry : TargetRegistry) (m : Machine W) : Type 0 where
  pub entries : IsJournalFor registry m.state.journal
  pub covered : IsCovered m.trace

module _ {W : Type 0} (os : Platform W) (registry : TargetRegistry) (keyed : IsRegistry registry)
    (requests : List FrequencyRequest) (m : Machine W) (sound : IsSound registry m) where
  outcome : Outcome registry m (apply_batch os registry requests m)
  outcome = apply_batch-Outcome os registry requests m keyed sound.entries sound.covered

  -- From a sound state, with a registry that keeps each target under its id. On a success
  -- `apply_batch` keeps the mode and the recovery flag; for every request either its target was
  -- attempted or its snapped range is the one that the journal had as requested or that the
  -- target's files showed; only files of attempted targets were written, and each attempted target
  -- showed exactly its snapped range during the call. On a failure it leaves the actuator degraded,
  -- or its whole state is as before, and every target whose files it wrote was given back: its files
  -- showed the range that the journal had for it before the call (the full hardware range where it
  -- had none), and later only files of targets given back after it were written.
  pub apply_batch-EndsWhole : EndsWhole os registry requests m (apply_batch os registry requests m)
  apply_batch-EndsWhole =
      go (apply_batch os registry requests m) outcome (apply_batch-Tells os registry m requests)
    where
      go :
          (out : Result ActuatorError Applied × Machine W)
          → Outcome registry m out
          → Tells os registry requests m out
          → EndsWhole os registry requests m out
      go _ (untouched (ok a) n quiet) settled = (
        ap (λ (s : RuntimeState). s.mode) quiet.0,
        ap (λ (s : RuntimeState). s.recovery_required) quiet.0,
        settled,
      )
      go _ (untouched (err e) n quiet) (inl stopped) = inl stopped
      go _ (untouched (err e) n quiet) (inr undone) = inr (quiet.0, undone)
      go _ (committed a n mode required journal disk covered) settled = (mode, required, settled)
      go _ (reverted e n same synced covered) (inl stopped) = inl stopped
      go _ (reverted e n same synced covered) (inr undone) = inr (same, undone)
      go _ (gave_up reason n mode required journal covered) told = inl (reason, mode)

  -- With a registry that keeps each target under its id, `apply_batch` keeps the state sound:
  -- every entry has its target's paths, the full hardware range as the value to restore and a
  -- legal current value, and every sysfs write so far, those of a rollback included, was made
  -- while the disk held a journal that claims its file.
  pub apply_batch-IsSound : IsSound registry (apply_batch os registry requests m).1
  apply_batch-IsSound = go (apply_batch os registry requests m) outcome
    where
      carried : (n : Machine W) → n.state ≡ m.state → IsJournalFor registry n.state.journal
      carried n same =
          subst (λ (s : RuntimeState). IsJournalFor registry s.journal) (sym same) sound.entries

      go :
          (out : Result ActuatorError Applied × Machine W)
          → Outcome registry m out
          → IsSound registry out.1
      go _ (untouched r n quiet) = record {
        entries = carried n quiet.0;
        covered = subst IsCovered (sym quiet.1) sound.covered;
      }
      go _ (committed a n mode required journal disk covered) = record {
        entries = journal;
        covered = covered;
      }
      go _ (reverted e n same synced covered) = record {
        entries = carried n same;
        covered = covered;
      }
      go _ (gave_up reason n mode required journal covered) = record {
        entries = journal;
        covered = covered;
      }

  -- From a sound state, with a registry that keeps each target under its id: if the disk agrees
  -- with the journal in memory before a call, then it does after it, unless the call leaves the
  -- actuator degraded.
  pub apply_batch-IsSynced :
      IsSynced m.trace m.state.journal
      → IsSynced
          (apply_batch os registry requests m).1.trace
          (apply_batch os registry requests m).1.state.journal
        ⊎ IsDegraded (apply_batch os registry requests m).1
  apply_batch-IsSynced synced = go (apply_batch os registry requests m) outcome
    where
      go :
          (out : Result ActuatorError Applied × Machine W)
          → Outcome registry m out
          → IsSynced out.1.trace out.1.state.journal ⊎ IsDegraded out.1
      go _ (untouched r n quiet) = inl (
          subst (λ (x : RuntimeState × List Event). IsSynced x.1 x.0.journal)
            (λ i. (sym quiet.0 i, sym quiet.1 i)) synced)
      go _ (committed a n mode required journal disk covered) = inl (inl disk)
      go _ (reverted e n same agrees covered) =
          inl (subst (λ (s : RuntimeState). IsSynced n.trace s.journal) (sym same) agrees)
      go _ (gave_up reason n mode required journal covered) = inr (reason, mode)

-- The machine after a sequence of batches.
unfoldable pub run_batches :
    {W : Type 0}
    → Platform W
    → TargetRegistry
    → List (List FrequencyRequest)
    → Machine W
    → Machine W
run_batches os registry [] m = m
run_batches os registry (b ∷ bs) m = run_batches os registry bs (apply_batch os registry b m).1

-- With a registry that keeps each target under its id, whatever batches are applied to a sound
-- state, the state stays sound.
pub run_batches-IsSound :
    {W : Type 0} (os : Platform W) (registry : TargetRegistry) (keyed : IsRegistry registry)
    (batches : List (List FrequencyRequest)) (m : Machine W)
    → IsSound registry m
    → IsSound registry (run_batches os registry batches m)
unfolding run_batches
run_batches-IsSound os registry keyed [] m sound = sound
run_batches-IsSound os registry keyed (b ∷ bs) m sound =
    run_batches-IsSound os registry keyed bs (apply_batch os registry b m).1
      (apply_batch-IsSound os registry keyed b m sound)

-- Where the readiness check fails, `apply_batch` returns its error and changes nothing.
apply_batch-not_ready :
    {W : Type 0} (os : Platform W) (registry : TargetRegistry) (requests : List FrequencyRequest)
    (m : Machine W) (e : ActuatorError)
    → ensure_mutation_ready m.state ≡ err e
    → apply_batch os registry requests m ≡ (err e, m)
unfolding apply_batch
apply_batch-not_ready os registry requests m e h =
    ap (λ r. bind_result (r, m) λ _. prepare os registry requests [] >>= commit_prepared os) h

degraded-not_ready :
    (s : RuntimeState) (reason : Reason)
    → s.mode ≡ read_only_degraded reason
    → ensure_mutation_ready s ≡ err (degraded reason)
unfolding ensure_mutation_ready
degraded-not_ready s reason h = ap (λ mode. ready_result mode s.recovery_required) h

-- A degraded actuator stays as it is: no later batch changes the state, the world or the trace.
pub run_batches-degraded :
    {W : Type 0} (os : Platform W) (registry : TargetRegistry)
    (batches : List (List FrequencyRequest)) (m : Machine W)
    → IsDegraded m
    → run_batches os registry batches m ≡ m
unfolding run_batches
run_batches-degraded os registry [] m h = refl
run_batches-degraded os registry (b ∷ bs) m (reason, h) =
    let refused = apply_batch-not_ready os registry b m _ (degraded-not_ready m.state reason h) in
    ap (λ out. run_batches os registry bs out.1) refused
    ∙ run_batches-degraded os registry bs m (reason, h)
