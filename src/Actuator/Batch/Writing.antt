-- ===== src/Actuator/Batch/Writing.antt =====
-- The files in the write loop of `apply_batch` in crates/uperf-actuator/src/lib.rs.
use uperf_linux_rev.Base.Maps.{insert}
use uperf_linux_rev.Base.Text.{Text, text_key}
use uperf_linux_rev.Base.{
  ◌≡◌, ◌≢◌, refl, sym, ap, ◌∙◌, true, false, In, ◌⊎◌, inl, inr, Option, none, some, List, [], ◌∷◌,
  Result, ok, err, All, elim-cases,
}
use uperf_linux_rev.Actuator.Batch.{Applied, Progress, reached, with_entry, write_all}
use uperf_linux_rev.Actuator.Batch.Claim.{IsPrevious}
use uperf_linux_rev.Actuator.Errors.{ActuatorError}
use uperf_linux_rev.Actuator.Io.{PreparedFrequencyMutation, apply_requested_limits}
use uperf_linux_rev.Actuator.Io.Applied.{FileOf, IsApplied, apply_requested-EndsAt}
use uperf_linux_rev.Actuator.Io.Frame.{apply_requested-Respects}
use uperf_linux_rev.Actuator.Io.Rollback.{HasShown-later, HasShown-widen, IsFileOfAny}
use uperf_linux_rev.Actuator.Io.Steps.{
  Anywhere, EndsAt, HasShown, Nowhere, Steps, Steps-chain, Steps-frame, Steps-widen, ends_badly,
  ends_well, moves, start,
}
use uperf_linux_rev.Actuator.Machine.{
  Action, Machine, Platform, attempt, get_state, pure, set_journal, ◌>>=◌, ◌>>◌,
}
use uperf_linux_rev.Core.Units.{FrequencyLimits}
use uperf_linux_rev.Actuator.Batch.Told.{anywhere, nowhere}

-- An action that never fails.
pub data Returns {W A : Type 0} (Q : A → Machine W → Type 0)
    : Result ActuatorError A × Machine W → Type 0 where
  returns : (a : A) (n : Machine W) → Q a n → Returns Q (ok a, n)

module _ {W : Type 0} (os : Platform W) where
  abbrev AreShown : List PreparedFrequencyMutation → Machine W → Machine W → Type 0
  AreShown ps m n = All (λ p. HasShown os Anywhere Anywhere p.target p.desired_request m n) ps

  pub AreShown-later :
      (ps : List PreparedFrequencyMutation) (m k n : Machine W)
      → AreShown ps m k
      → Steps os Anywhere k n
      → AreShown ps m n
  AreShown-later [] m k n shown h = tt
  AreShown-later (p ∷ ps) m k n (first, rest) h =
      (HasShown-later os p.target p.desired_request m k n first h, AreShown-later ps m k n rest h)

  some-ne-none : {A : Type 0} (a : A) → some a ≢ none
  some-ne-none a h = cc

  true-ne-false : true ≢ false
  true-ne-false h = cc

  -- What the loop does with the outcome of one write.
  abbrev go_on :
      PreparedFrequencyMutation
      → List PreparedFrequencyMutation
      → Applied
      → List PreparedFrequencyMutation
      → Result ActuatorError FrequencyLimits
      → Action W Progress
  go_on p ps applied attempted r = elim r [
    | ok actual ↦ do
      s ← get_state
      set_journal (with_entry p.target.id (λ e. reached e actual) s.journal)
      write_all os ps (insert p.target.id actual applied) (p ∷ attempted)
    | err e ↦
        pure (record { applied = applied; attempted = p ∷ attempted; failure = some p.target.id })
  ]

  module _ (before : Machine W) where
    -- Where the write loop stands: each attempted mutation but the one that failed has shown.
    pub record IsTracked (attempted : List PreparedFrequencyMutation) (failure : Option Text)
        (n : Machine W) : Type 0 where
      pub path : Steps os (IsFileOfAny attempted) before n
      pub previous : All (IsPrevious before.state.journal) attempted
      pub shown : failure ≡ none → AreShown attempted before n

    abbrev Tracked : Progress → Machine W → Type 0
    Tracked progress n = IsTracked progress.attempted progress.failure n

    module _ (p : PreparedFrequencyMutation) (ps : List PreparedFrequencyMutation)
        (is_previous : IsPrevious before.state.journal p)
        (attempted : List PreparedFrequencyMutation) (applied : Applied)
        (rest : (next : Applied) (n : Machine W)
          → IsTracked (p ∷ attempted) none n
          → Returns Tracked (write_all os ps next (p ∷ attempted) n)) where
      -- The path goes on through the files of one more target.
      longer :
          (m n : Machine W)
          → IsTracked attempted none m
          → Steps os (FileOf p.target) m n
          → Steps os (IsFileOfAny (p ∷ attempted)) before n
      longer m n t h =
          Steps-chain os before m n (Steps-widen os (λ path w. inr w) before m t.path)
            (Steps-widen os (λ path w. inl w) m n h)

      go_on-Tracked :
          (m : Machine W) (out : Result ActuatorError FrequencyLimits × Machine W)
          → IsTracked attempted none m
          → Steps os (FileOf p.target) m out.1
          → EndsAt
              (λ actual n. IsApplied os p.target p.previous_request p.desired_request actual m n)
              out
          → Returns Tracked (go_on p ps applied attempted out.0 out.1)
      go_on-Tracked m _ t h (ends_badly e n) = returns _ n (record {
        path = longer m n t h;
        previous = (is_previous, t.previous);
        shown = λ failed. absurd (some-ne-none p.target.id failed);
      })
      go_on-Tracked m _ t h (ends_well actual n done) =
          let k = record n {
            state = record n.state {
              journal = with_entry p.target.id (λ e. reached e actual) n.state.journal;
            };
          } in
          let set : Steps os Nowhere n k = moves _ n start in
          let seen =
            HasShown-widen os p.target p.desired_request before done.writer n
              (Steps-chain os before m done.writer (anywhere os before m t.path)
                (anywhere os m done.writer done.reached))
              done.shown in
          rest _ k (record {
            path = Steps-chain os before n k (longer m n t h) (nowhere os n k set);
            previous = (is_previous, t.previous);
            shown = λ _. (
              HasShown-later os p.target p.desired_request before n k seen (anywhere os n k set),
              AreShown-later attempted before m k (t.shown refl)
                  (Steps-chain os m n k (anywhere os m n h) (anywhere os n k set)),
            );
          })

    pub write_all-Tracked :
        (ps : List PreparedFrequencyMutation) (applied : Applied)
        (attempted : List PreparedFrequencyMutation) (m : Machine W)
        → All (IsPrevious before.state.journal) ps
        → IsTracked attempted none m
        → Returns Tracked (write_all os ps applied attempted m)
    unfolding write_all
    write_all-Tracked [] applied attempted m h t = returns _ m t
    write_all-Tracked (p ∷ ps) applied attempted m (h, hs) t =
        let attempt_one = apply_requested_limits os p.target p.previous_request p.desired_request in
        elim-cases (λ (a : Action W Progress). Returns Tracked (a m)) p.needs_write
          (attempt attempt_one >>= go_on p ps applied attempted)
          (write_all os ps (insert p.target.id p.before_effective applied) attempted)
          (λ wanted.
            go_on-Tracked p ps h attempted applied
              (λ next n u. write_all-Tracked ps next (p ∷ attempted) n hs u) m (attempt_one m) t
              ((apply_requested-Respects (Steps-frame os) p.target p.previous_request
                  p.desired_request (inl refl, inr refl)).at
                m)
              (apply_requested-EndsAt os p.target p.previous_request p.desired_request m))
          (λ idle.
            write_all-Tracked ps (insert p.target.id p.before_effective applied) attempted m hs t)

  -- What a write loop that met no failure attempted: what was attempted before it, and the rest
  -- of what needs a write.
  abbrev pub IsComplete :
      List PreparedFrequencyMutation
      → List PreparedFrequencyMutation
      → Progress
      → Machine W
      → Type 0
  IsComplete ps attempted progress n =
      progress.failure ≡ none
      → (q : PreparedFrequencyMutation) → (In q ps × (q.needs_write ≡ true)) ⊎ In q attempted
      → In q progress.attempted

  regroup :
      (p q : PreparedFrequencyMutation) (ps attempted : List PreparedFrequencyMutation)
      → (In q (p ∷ ps) × (q.needs_write ≡ true)) ⊎ In q attempted
      → (In q ps × (q.needs_write ≡ true)) ⊎ In q (p ∷ attempted)
  regroup p q ps attempted (inl (inl e, w)) = inr (inl e)
  regroup p q ps attempted (inl (inr m, w)) = inl (m, w)
  regroup p q ps attempted (inr m) = inr (inr m)

  pass_over :
      (p q : PreparedFrequencyMutation) (ps attempted : List PreparedFrequencyMutation)
      → p.needs_write ≡ false
      → (In q (p ∷ ps) × (q.needs_write ≡ true)) ⊎ In q attempted
      → (In q ps × (q.needs_write ≡ true)) ⊎ In q attempted
  pass_over p q ps attempted idle (inl (inl e, w)) =
      absurd
        (true-ne-false (sym w ∙ ap (λ (x : PreparedFrequencyMutation). x.needs_write) e ∙ idle))
  pass_over p q ps attempted idle (inl (inr m, w)) = inl (m, w)
  pass_over p q ps attempted idle (inr m) = inr m

  Returns-weaken :
      {A : Type 0} (P Q : A → Machine W → Type 0) (out : Result ActuatorError A × Machine W)
      → ((a : A) (n : Machine W) → P a n → Q a n)
      → Returns P out
      → Returns Q out
  Returns-weaken P Q _ h (returns a n p) = returns a n (h a n p)

  go_on-IsComplete :
      (p : PreparedFrequencyMutation) (ps : List PreparedFrequencyMutation) (applied : Applied)
      (attempted : List PreparedFrequencyMutation) (r : Result ActuatorError FrequencyLimits)
      (n : Machine W)
      → ((next : Applied) (k : Machine W)
          → Returns (IsComplete ps (p ∷ attempted)) (write_all os ps next (p ∷ attempted) k))
      → Returns (IsComplete (p ∷ ps) attempted) (go_on p ps applied attempted r n)
  go_on-IsComplete p ps applied attempted (err e) n rest =
      returns _ n λ failed. absurd (some-ne-none p.target.id failed)
  go_on-IsComplete p ps applied attempted (ok actual) n rest =
      Returns-weaken (IsComplete ps (p ∷ attempted)) (IsComplete (p ∷ ps) attempted) _
        (λ progress k h went q m. h went q (regroup p q ps attempted m)) (rest _ _)

  pub write_all-IsComplete :
      (ps : List PreparedFrequencyMutation) (applied : Applied)
      (attempted : List PreparedFrequencyMutation) (m : Machine W)
      → Returns (IsComplete ps attempted) (write_all os ps applied attempted m)
  unfolding write_all
  write_all-IsComplete [] applied attempted m =
      returns _ m λ went q h. elim h [ inl (never, w) ↦ absurd never | inr x ↦ x ]
  write_all-IsComplete (p ∷ ps) applied attempted m =
      let attempt_one = apply_requested_limits os p.target p.previous_request p.desired_request in
      elim-cases (λ (a : Action W Progress). Returns (IsComplete (p ∷ ps) attempted) (a m))
        p.needs_write (attempt attempt_one >>= go_on p ps applied attempted)
        (write_all os ps (insert p.target.id p.before_effective applied) attempted)
        (λ wanted.
          go_on-IsComplete p ps applied attempted (attempt_one m).0 (attempt_one m).1
            λ next k. write_all-IsComplete ps next (p ∷ attempted) k)
        (λ idle.
          Returns-weaken (IsComplete ps attempted) (IsComplete (p ∷ ps) attempted) _
            (λ progress k h went q x. h went q (pass_over p q ps attempted idle x))
            (write_all-IsComplete ps (insert p.target.id p.before_effective applied) attempted m))
