-- ===== src/Actuator/Io/Rollback.antt =====
-- What a success of `restore_frequency_request` and `rollback_frequency_requests` in
-- crates/uperf-actuator/src/lib.rs tells about the files.
use uperf_linux_rev.Base.Text.{Text, text_key}
use uperf_linux_rev.Base.{
  ◌≡◌, ◌≢◌, All, refl, sym, subst, ◌⊎◌, inl, inr, List, [], ◌∷◌, ◌++◌, Result, ok, err,
}
use uperf_linux_rev.Actuator.Errors.{ActuatorError}
use uperf_linux_rev.Actuator.Io.{
  PreparedFrequencyMutation, all_restored, note_failure, reset_frequency_request,
  restore_frequency_request, rollback_frequency_requests, rollback_loop, wait_for_limits,
}
use uperf_linux_rev.Actuator.Io.Applied.{FileOf}
use uperf_linux_rev.Actuator.Io.Frame.{
  Reaches, restore-Respects, reset-Respects, rollback_loop-Respects,
}
use uperf_linux_rev.Actuator.Io.Settle.{IsSettled, wait_for_limits-IsSettled}
use uperf_linux_rev.Actuator.Io.Steps.{
  Anywhere, EndsAt, EndsAt-bind, EndsAt-lift, HasShown, Nowhere, Steps, Steps-chain, Steps-frame,
  Steps-widen, ends_badly, ends_well,
}
use uperf_linux_rev.Actuator.Machine.{Machine, Platform, bind_result, lift}
use uperf_linux_rev.Actuator.Target.{FrequencyTarget, validate_limits}
use uperf_linux_rev.Core.Units.{FrequencyLimits}

-- A file of one of the mutations' targets.
abbrev pub IsFileOfAny : List PreparedFrequencyMutation → Text → Type 0
IsFileOfAny [] path = ⊥
IsFileOfAny (p ∷ ps) path = FileOf p.target path ⊎ IsFileOfAny ps path

module _ {W : Type 0} (os : Platform W) where
  -- Each target, in this order, was read on the way to `n` and showed the request from before the
  -- mutation; from that reading on only files of the targets that come later were written.
  abbrev pub AreGivenBack : List PreparedFrequencyMutation → Machine W → Machine W → Type 0
  AreGivenBack [] m n = Unit {0}
  AreGivenBack (p ∷ ps) m n =
      HasShown os Anywhere (IsFileOfAny ps) p.target p.previous_request m n × AreGivenBack ps m n

  HasShown-earlier :
      {After : Text → Type 0} (t : FrequencyTarget) (range : FrequencyLimits) (m k n : Machine W)
      → Steps os Anywhere m k
      → HasShown os Anywhere After t range k n
      → HasShown os Anywhere After t range m n
  HasShown-earlier t range m k n h shown = record {
    reader = shown.reader;
    reached = shown.reached;
    earlier = Steps-chain os m k _ h shown.earlier;
    reading = shown.reading;
    later = shown.later;
  }

  pub HasShown-later :
      {Before After : Text → Type 0} (t : FrequencyTarget) (range : FrequencyLimits)
      (m k n : Machine W)
      → HasShown os Before After t range m k
      → Steps os After k n
      → HasShown os Before After t range m n
  HasShown-later t range m k n shown h = record {
    reader = shown.reader;
    reached = shown.reached;
    earlier = shown.earlier;
    reading = shown.reading;
    later = Steps-chain os shown.reached k n shown.later h;
  }

  pub AreGivenBack-earlier :
      (ps : List PreparedFrequencyMutation) (m k n : Machine W)
      → Steps os Anywhere m k
      → AreGivenBack ps k n
      → AreGivenBack ps m n
  AreGivenBack-earlier [] m k n h back = tt
  AreGivenBack-earlier (p ∷ ps) m k n h (shown, back) = (
    HasShown-earlier p.target p.previous_request m k n h shown,
    AreGivenBack-earlier ps m k n h back,
  )

  pub AreGivenBack-later :
      (ps : List PreparedFrequencyMutation) (m k n : Machine W)
      → AreGivenBack ps m k
      → Steps os Nowhere k n
      → AreGivenBack ps m n
  AreGivenBack-later [] m k n back h = tt
  AreGivenBack-later (p ∷ ps) m k n (shown, back) h = (
    HasShown-later p.target p.previous_request m k n shown
        (Steps-widen os (λ path never. absurd never) k n h),
    AreGivenBack-later ps m k n back h,
  )

  -- The waiting writes nothing, so any kind of later steps may follow it.
  pub HasShown-widen :
      {After : Text → Type 0} (t : FrequencyTarget) (range : FrequencyLimits) (m k n : Machine W)
      → Steps os Anywhere m k
      → HasShown os Nowhere Nowhere t range k n
      → HasShown os Anywhere After t range m n
  HasShown-widen t range m k n h shown = record {
    reader = shown.reader;
    reached = shown.reached;
    earlier =
        Steps-chain os m k shown.reader h
          (Steps-widen os (λ path never. absurd never) k shown.reader shown.earlier);
    reading = shown.reading;
    later = Steps-widen os (λ path never. absurd never) shown.reached n shown.later;
  }

  pub restore-EndsAt :
      (After : Text → Type 0) (t : FrequencyTarget) (desired : FrequencyLimits) (m : Machine W)
      → EndsAt
          (λ actual n. HasShown os Anywhere After t desired m n)
          (restore_frequency_request os t desired m)
  unfolding restore_frequency_request
  restore-EndsAt After t desired m =
      let Q =
        λ (actual : FrequencyLimits) (n : Machine W). HasShown os Anywhere After t desired m n in
      EndsAt-bind _ Q _ _ (EndsAt-lift (validate_limits t desired) m) λ u n valid.
        subst
          (λ x. EndsAt Q (
            bind_result (reset_frequency_request os t desired x) λ v. wait_for_limits os t desired))
          (sym valid.1)
          (waiting (reset_frequency_request os t desired m)
            ((reset-Respects (Steps-frame os) t desired (tt, tt)).at m))
    where
      waiting :
          (out : Result ActuatorError (Unit {0}) × Machine W)
          → Steps os Anywhere m out.1
          → EndsAt
              (λ actual n. HasShown os Anywhere After t desired m n)
              (bind_result out λ v. wait_for_limits os t desired)
      waiting (err e, n) h = ends_badly e n
      waiting (ok v, n) h = settled _ (wait_for_limits-IsSettled os t desired n)
        where
          settled :
              (last : Result ActuatorError FrequencyLimits × Machine W)
              → EndsAt (IsSettled os t desired n) last
              → EndsAt (λ actual k. HasShown os Anywhere After t desired m k) last
          settled _ (ends_badly e k) = ends_badly e k
          settled _ (ends_well actual k (exact, shown)) =
              ends_well actual k (HasShown-widen t desired m n k h shown)

  files_of_more :
      (p : PreparedFrequencyMutation) (ps qs : List PreparedFrequencyMutation)
      → All (λ q. Reaches (IsFileOfAny ps) q.target) qs
      → All (λ q. Reaches (IsFileOfAny (p ∷ ps)) q.target) qs
  files_of_more p ps [] h = tt
  files_of_more p ps (q ∷ qs) (h, hs) = ((inr h.0, inr h.1), files_of_more p ps qs hs)

  pub own_files :
      (ps : List PreparedFrequencyMutation) → All (λ p. Reaches (IsFileOfAny ps) p.target) ps
  own_files [] = tt
  own_files (p ∷ ps) = ((inl (inl refl), inl (inr refl)), files_of_more p ps ps (own_files ps))

  snoc-ne-[] : (xs : List Text) (x : Text) → xs ++ x ∷ [] ≢ []
  snoc-ne-[] [] x h = cc
  snoc-ne-[] (y ∷ ys) x h = cc

  -- A rollback that reports no failure restored every target.
  abbrev AllWent :
      List PreparedFrequencyMutation → List Text → Machine W → List Text → Machine W → Type 0
  AllWent ps failures m fs n = fs ≡ [] → (failures ≡ []) × AreGivenBack ps m n

  loop_step :
      (p : PreparedFrequencyMutation) (ps : List PreparedFrequencyMutation) (failures : List Text)
      (m : Machine W) (out : Result ActuatorError FrequencyLimits × Machine W)
      (last : Result ActuatorError (List Text) × Machine W)
      → Steps os Anywhere m out.1
      → Steps os (IsFileOfAny ps) out.1 last.1
      → EndsAt
          (λ actual n. HasShown os Anywhere (IsFileOfAny ps) p.target p.previous_request m n)
          out
      → EndsAt (AllWent ps (note_failure os p.target.id out.0 failures) out.1) last
      → EndsAt (AllWent (p ∷ ps) failures m) last
  loop_step p ps failures m out _ h k restored (ends_badly e n) = ends_badly e n
  loop_step p ps failures m _ _ h k (ends_well actual j shown) (ends_well fs n went) =
      ends_well fs n λ empty.
        let (none_before, back) = went empty in
        (
          none_before,
          (
            HasShown-later p.target p.previous_request m j n shown k,
            AreGivenBack-earlier ps m j n h back,
          ),
        )
  loop_step p ps failures m _ _ h k (ends_badly e j) (ends_well fs n went) =
      ends_well fs n λ empty. absurd (snoc-ne-[] failures p.target.id (went empty).0)

  rollback_loop-AllWent :
      (ps : List PreparedFrequencyMutation) (failures : List Text) (m : Machine W)
      → EndsAt (AllWent ps failures m) (rollback_loop os ps failures m)
  unfolding rollback_loop
  rollback_loop-AllWent [] failures m = ends_well failures m λ h. (h, tt)
  rollback_loop-AllWent (p ∷ ps) failures m =
      let out = restore_frequency_request os p.target p.previous_request m in
      let noted = note_failure os p.target.id out.0 failures in
      loop_step p ps failures m out _
        ((restore-Respects (Steps-frame os) p.target p.previous_request (tt, tt)).at m)
        ((rollback_loop-Respects (Steps-frame os) ps noted (own_files ps)).at out.1)
        (restore-EndsAt (IsFileOfAny ps) p.target p.previous_request m)
        (rollback_loop-AllWent ps noted out.1)

  reported :
      (ps : List PreparedFrequencyMutation) (m : Machine W)
      (out : Result ActuatorError (List Text) × Machine W)
      → EndsAt (AllWent ps [] m) out
      → EndsAt (λ u n. AreGivenBack ps m n) (bind_result out λ fs. lift (all_restored os fs))
  reported ps m _ (ends_badly e n) = ends_badly e n
  reported ps m _ (ends_well [] n went) = ends_well tt n (went refl).1
  reported ps m _ (ends_well (id ∷ ids) n went) = ends_badly _ n

  -- Where `rollback_frequency_requests` succeeds, every target showed its request from before.
  pub rollback-AreGivenBack :
      (ps : List PreparedFrequencyMutation) (m : Machine W)
      → EndsAt (λ u n. AreGivenBack ps m n) (rollback_frequency_requests os ps m)
  unfolding rollback_frequency_requests
  rollback-AreGivenBack ps m = reported ps m _ (rollback_loop-AllWent ps [] m)
