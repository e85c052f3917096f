-- ===== src/Actuator/Batch/Whole.antt =====
-- What `apply_batch` of crates/uperf-actuator/src/lib.rs leaves of the files, phase by phase.
use uperf_linux_rev.Base.Text.{Text, text_key}
use uperf_linux_rev.Base.{
  ◌≡◌, refl, ap, inl, inr, Bool, true, false, arith, ◌∷◌, In, Option, none, some, List, [], Result,
  ok, err, All, elim-cases,
}
use uperf_linux_rev.Actuator.Batch.{
  Applied, FrequencyRequest, Progress, TargetRegistry, apply_batch, bump, claim_all,
  commit_prepared, finish_batch, nothing_to_write, prepare, record_effective, transact, undo_batch,
  undo_unstored, write_all,
}
use uperf_linux_rev.Actuator.Batch.Claim.{IsPrevious}
use uperf_linux_rev.Actuator.Batch.Files.{AreReady, IsReady, prepare-AreReady, prepare-Keeps}
use uperf_linux_rev.Actuator.Batch.Told.{IsAnswered, Tells, anywhere, nowhere}
use uperf_linux_rev.Actuator.Batch.Undoing.{undo_batch-Tells, undo_unstored-Tells}
use uperf_linux_rev.Actuator.Batch.Writing.{
  AreShown-later, IsComplete, IsTracked, Returns, returns, write_all-IsComplete, write_all-Tracked,
}
use uperf_linux_rev.Actuator.Errors.{ActuatorError, cannot_persist_before}
use uperf_linux_rev.Actuator.Io.{PreparedFrequencyMutation}
use uperf_linux_rev.Actuator.Io.Steps.{
  EndsAt, Nowhere, Steps, Steps-chain, ends_badly, ends_well, moves, start, stores,
}
use uperf_linux_rev.Actuator.Journal.{Journal}
use uperf_linux_rev.Actuator.Machine.{
  Action, Machine, Platform, attempt, bind_result, degrade, ensure_mutation_ready, get_state,
  persist_journal, pure, set_journal, ◌>>=◌, ◌>>◌,
}

module _ {W : Type 0} (os : Platform W) (registry : TargetRegistry) (before : Machine W) where
  all-IsPrevious :
      (rs : List FrequencyRequest) (ps : List PreparedFrequencyMutation)
      → AreReady os registry before rs ps
      → All (IsPrevious before.state.journal) ps
  all-IsPrevious [] [] h = tt
  all-IsPrevious [] (p ∷ ps) h = elim h [ ]
  all-IsPrevious (r ∷ rs) [] h = elim h [ ]
  all-IsPrevious (r ∷ rs) (p ∷ ps) (h, hs) = (h.previous, all-IsPrevious rs ps hs)

  one-IsAnswered :
      (attempted : List PreparedFrequencyMutation) (r : FrequencyRequest)
      (p : PreparedFrequencyMutation) (b : Bool)
      → IsReady os registry before r p
      → p.needs_write ≡ b
      → (p.needs_write ≡ true → In p attempted)
      → IsAnswered os registry attempted before r
  one-IsAnswered attempted r p true h e went = (p, h, inl (went e))
  one-IsAnswered attempted r p false h e went = (p, h, inr (h.idle e))

  -- Where all that needs a write was attempted, every request was answered.
  all-IsAnswered :
      (attempted : List PreparedFrequencyMutation) (rs : List FrequencyRequest)
      (ps : List PreparedFrequencyMutation)
      → AreReady os registry before rs ps
      → ((q : PreparedFrequencyMutation) → In q ps → q.needs_write ≡ true → In q attempted)
      → All (IsAnswered os registry attempted before) rs
  all-IsAnswered attempted [] [] h went = tt
  all-IsAnswered attempted [] (p ∷ ps) h went = elim h [ ]
  all-IsAnswered attempted (r ∷ rs) [] h went = elim h [ ]
  all-IsAnswered attempted (r ∷ rs) (p ∷ ps) (h, hs) went = (
    one-IsAnswered attempted r p p.needs_write h refl (went p (inl refl)),
    all-IsAnswered attempted rs ps hs λ q m. went q (inr m),
  )

  all_idle :
      (ps : List PreparedFrequencyMutation) (q : PreparedFrequencyMutation)
      → nothing_to_write ps ≡ true
      → In q ps
      → q.needs_write ≡ true
      → ⊥
  all_idle [] q idle m w = elim m [ ]
  all_idle (p ∷ ps) q idle (inl e) w =
      ground (arith, ap (λ (x : PreparedFrequencyMutation). x.needs_write) e)
  all_idle (p ∷ ps) q idle (inr m) w = all_idle ps q (ground arith) m w

  module _ (requests : List FrequencyRequest) (prepared : List PreparedFrequencyMutation)
      (ready : AreReady os registry before requests prepared) where
    abbrev settle : Journal → Progress → Result ActuatorError (Unit {0}) → Action W Applied
    settle journal progress r = elim r [
      | ok _ ↦ pure progress.applied
      | err e ↦ undo_unstored os journal progress.attempted
    ]

    settle-Tells :
        (journal : Journal) (progress : Progress) (k : Machine W)
        (r : Result ActuatorError (Unit {0})) (n : Machine W)
        → IsTracked os before progress.attempted none k
        → All (IsAnswered os registry progress.attempted before) requests
        → Steps os Nowhere k n
        → Tells os registry requests before (settle journal progress r n)
    settle-Tells journal progress k (ok u) n t answers h = record {
      attempted = progress.attempted;
      path = Steps-chain os before k n t.path (nowhere os k n h);
      shown = AreShown-later os progress.attempted before k n (t.shown refl) (anywhere os k n h);
      answered = answers;
    }
    settle-Tells journal progress k (err e) n t answers h =
        undo_unstored-Tells os registry requests before journal progress.attempted t.previous n
          (Steps-chain os before k n t.path (nowhere os k n h))

    abbrev finishing : Journal → Progress → Option Text → Action W Applied
    finishing journal progress o = elim o [
      | some failed ↦ undo_batch os journal progress.attempted failed
      | none ↦ do
        s ← get_state
        result ← attempt (persist_journal os s.journal)
        settle journal progress result
    ]

    finishing-Tells :
        (journal : Journal) (progress : Progress) (o : Option Text) (k : Machine W)
        → IsTracked os before progress.attempted o k
        → (o ≡ none → All (IsAnswered os registry progress.attempted before) requests)
        → Tells os registry requests before (finishing journal progress o k)
    finishing-Tells journal progress (some failed) k t answers =
        undo_batch-Tells os registry requests before journal progress.attempted t.previous failed k
          t.path
    finishing-Tells journal progress none k t answers =
        settle-Tells journal progress k (persist_journal os k.state.journal k).0 _ t (answers refl)
          (stores k.state.journal k start)

    finish_batch-Tells :
        (journal : Journal) (out : Result ActuatorError Progress × Machine W)
        → Returns (λ progress n. IsTracked os before progress.attempted progress.failure n) out
        → Returns (IsComplete os prepared []) out
        → Tells os registry requests before (bind_result out (finish_batch os journal))
    unfolding finish_batch
    finish_batch-Tells journal _ (returns progress k t) (returns _ _ complete) =
        finishing-Tells journal progress progress.failure k t λ went.
          all-IsAnswered progress.attempted requests prepared ready
            λ q m w. complete went q (inl (m, w))

    abbrev claim_stored : Journal → Result ActuatorError (Unit {0}) → Action W Applied
    claim_stored journal r = elim r [
      | err e ↦ do set_journal journal; degrade cannot_persist_before
      | ok _ ↦ do progress ← write_all os prepared [] []; finish_batch os journal progress
    ]

    claim_stored-Tells :
        (journal : Journal) (r : Result ActuatorError (Unit {0})) (k : Machine W)
        → Steps os Nowhere before k
        → Tells os registry requests before (claim_stored journal r k)
    unfolding degrade
    claim_stored-Tells journal (err e) k h = inl (cannot_persist_before, refl)
    claim_stored-Tells journal (ok u) k h =
        finish_batch-Tells journal _
          (write_all-Tracked os before prepared [] [] k (all-IsPrevious requests prepared ready)
            (record { path = nowhere os before k h; previous = tt; shown = λ _. tt }))
          (write_all-IsComplete os prepared [] [] k)

    transact-Tells :
        (journal : Journal) (n : Machine W)
        → Steps os Nowhere before n
        → Tells os registry requests before (transact os prepared journal n)
    unfolding transact
    transact-Tells journal n h =
        let held = claim_all prepared (bump journal) in
        let set = record n { state = record n.state { journal = held } } in
        claim_stored-Tells journal (persist_journal os held set).0 _
          (Steps-chain os before n _ h (stores held set (moves _ n start)))

    commit_prepared-Tells :
        (n : Machine W)
        → Steps os Nowhere before n
        → Tells os registry requests before (commit_prepared os prepared n)
    unfolding commit_prepared
    commit_prepared-Tells n h =
        elim-cases (λ (a : Action W Applied). Tells os registry requests before (a n))
          (nothing_to_write prepared) (pure (record_effective prepared []))
          (get_state >>= λ s. transact os prepared s.journal)
          (λ idle. record {
            attempted = [];
            path = nowhere os before n h;
            shown = tt;
            answered =
                all-IsAnswered [] requests prepared ready
                  λ q m w. absurd (all_idle prepared q idle m w);
          })
          (λ busy. transact-Tells n.state.journal n h)

  committing :
      (requests : List FrequencyRequest)
      (out : Result ActuatorError (List PreparedFrequencyMutation) × Machine W)
      → Steps os Nowhere before out.1
      → EndsAt (λ ps n. AreReady os registry before requests ps) out
      → Tells os registry requests before (bind_result out (commit_prepared os))
  committing requests _ h (ends_well prepared n ready) =
      commit_prepared-Tells requests prepared ready n h
  committing requests _ h (ends_badly e n) =
      inr (record { attempted = []; path = nowhere os before n h; previous = tt; back = tt })

  checking :
      (requests : List FrequencyRequest) (r : Result ActuatorError (Unit {0}))
      → Tells os registry requests before
          (bind_result (r, before) λ _. prepare os registry requests [] >>= commit_prepared os)
  checking requests (err e) =
      inr (record { attempted = []; path = start; previous = tt; back = tt })
  checking requests (ok u) =
      committing requests (prepare os registry requests [] before)
        ((prepare-Keeps os registry requests []).at before).0
        (prepare-AreReady os registry before requests [] before (start, refl))

  pub apply_batch-Tells :
      (requests : List FrequencyRequest)
      → Tells os registry requests before (apply_batch os registry requests before)
  unfolding apply_batch
  apply_batch-Tells requests = checking requests (ensure_mutation_ready before.state)
