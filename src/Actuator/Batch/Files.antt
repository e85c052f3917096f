-- ===== src/Actuator/Batch/Files.antt =====
-- The files and the previous requests in the preparation of `apply_batch` in
-- crates/uperf-actuator/src/lib.rs.
use uperf_linux_rev.Base.Maps.{get}
use uperf_linux_rev.Base.Text.{Text, text_key}
use uperf_linux_rev.Base.{
  ◌≡◌, ◌⊎◌, subst, refl, sym, ap, ◌∙◌, some, List, [], ◌∷◌, ok, err, ok_or, Bool, true, false,
  Result,
}
use uperf_linux_rev.Actuator.Batch.{
  FrequencyRequest, TargetRegistry, prepare, prepare_claim, prepare_one, seen_before,
}
use uperf_linux_rev.Actuator.Batch.Claim.{IsClaim, IsPrevious, prepare_claim-IsClaim, requested_of}
use uperf_linux_rev.Actuator.Batch.Prepare.{ok_or-some}
use uperf_linux_rev.Actuator.Errors.{ActuatorError, duplicate_request, unknown_target}
use uperf_linux_rev.Actuator.Io.{PreparedFrequencyMutation, read_limits}
use uperf_linux_rev.Actuator.Io.Frame.{IsFrame, read_limits-Respects}
use uperf_linux_rev.Actuator.Io.Steps.{
  EndsAt, EndsAt-bind, EndsAt-lift, Nowhere, Steps, Steps-chain, ends_badly, ends_well, looks, naps,
  reads, start,
}
use uperf_linux_rev.Actuator.Machine.{
  Action, Machine, Platform, RuntimeState, bind_result, fail, get_state, lift, pure, read_clock,
  read_string, sleep, write_string, ◌>>=◌,
}
use uperf_linux_rev.Actuator.Machine.Rules.{
  IsPreorder, Respects, Respects-bind, Respects-fail, Respects-get_state, Respects-lift,
  Respects-pure,
}
use uperf_linux_rev.Actuator.Target.{FrequencyTarget, snap_limits}
use uperf_linux_rev.Core.Units.{FrequencyLimits}

module _ {W : Type 0} (os : Platform W) where
  -- Nothing is written, and the state stays.
  abbrev pub Keeps : Machine W → Machine W → Type 0
  Keeps m n = Steps os Nowhere m n × (n.state ≡ m.state)

  Keeps-preorder : IsPreorder Keeps
  Keeps-preorder = record {
    self = λ m. (start, refl);
    chain = λ a b c h k. (Steps-chain os a b c h.0 k.0, k.1 ∙ h.1);
  }

  Keeps-frame : IsFrame os Keeps Nowhere
  unfolding read_string write_string read_clock sleep
  Keeps-frame = record {
    order = Keeps-preorder;
    reading = λ path. record { at = λ m. (reads path m start, refl) };
    writing = λ path value never. absurd never;
    clock = record { at = λ m. (looks m start, refl) };
    napping = λ ns. record { at = λ m. (naps ns m start, refl) };
  }

  module _ (registry : TargetRegistry) where
    prepare_one-Keeps : (r : FrequencyRequest) → Respects Keeps (prepare_one os registry r)
    unfolding prepare_one
    prepare_one-Keeps r =
        let o = Keeps-preorder in
        Respects-bind o _ _
          (Respects-lift o (ok_or (get r.target registry) (unknown_target r.target)))
          λ t. Respects-bind o _ _ (Respects-lift o (snap_limits t r.limits)) λ desired.
            Respects-bind o _ _ (read_limits-Respects Keeps-frame t)
              λ before. Respects-bind o _ _ (Respects-get_state o) λ s. Respects-lift o _

    choice-Keeps :
        {A : Type 0} (b : Bool) (x y : Action W A)
        → Respects Keeps x
        → Respects Keeps y
        → Respects Keeps (elim b [ true ↦ x | false ↦ y ])
    choice-Keeps true x y h k = h
    choice-Keeps false x y h k = k

    pub prepare-Keeps :
        (rs : List FrequencyRequest) (seen : List Text)
        → Respects Keeps (prepare os registry rs seen)
    unfolding prepare
    prepare-Keeps [] seen = Respects-pure Keeps-preorder []
    prepare-Keeps (r ∷ rs) seen =
        let o = Keeps-preorder in
        choice-Keeps (seen_before seen r.target) _ _ (Respects-fail o (duplicate_request r.target))
          (Respects-bind o _ _ (prepare_one-Keeps r) λ p.
            Respects-bind o _ _ (prepare-Keeps rs (r.target ∷ seen)) λ ps. Respects-pure o (p ∷ ps))

    module _ (from : Machine W) where
      -- The mutation for a request of the batch that starts at `from`: its target is the registered
      -- one, its range the snapped one, its previous request that of the journal, and the effective
      -- range is what the files showed before anything was written. It is idle only where the range
      -- is that previous request or that effective range.
      pub record IsReady (r : FrequencyRequest) (p : PreparedFrequencyMutation) : Type 0 where
        pub known : get r.target registry ≡ some p.target
        pub wanted : snap_limits p.target r.limits ≡ ok p.desired_request
        pub previous : IsPrevious from.state.journal p
        pub reader : Machine W
        pub reached : Machine W
        pub earlier : Steps os Nowhere from reader
        pub reading : read_limits os p.target reader ≡ (ok p.before_effective, reached)
        pub idle :
            p.needs_write ≡ false
            → (p.desired_request ≡ p.previous_request) ⊎ (p.desired_request ≡ p.before_effective)

      -- One mutation for each request, in their order.
      abbrev pub AreReady : List FrequencyRequest → List PreparedFrequencyMutation → Type 0
      AreReady [] [] = Unit {0}
      AreReady [] (p ∷ ps) = ⊥
      AreReady (r ∷ rs) [] = ⊥
      AreReady (r ∷ rs) (p ∷ ps) = IsReady r p × AreReady rs ps

      abbrev Ready : FrequencyRequest → PreparedFrequencyMutation → Machine W → Type 0
      Ready r p n = IsReady r p

      module _ (r : FrequencyRequest) (t : FrequencyTarget) (desired before : FrequencyLimits)
          (reader reached : Machine W) (found : get r.target registry ≡ some t)
          (snapped : snap_limits t r.limits ≡ ok desired) (earlier : Keeps from reader)
          (reading : read_limits os t reader ≡ (ok before, reached))
          (stays : reached.state ≡ from.state) where
        claim-IsReady :
            (p : PreparedFrequencyMutation)
            → IsClaim t desired before (get t.id reached.state.journal.entries) p
            → IsReady r p
        claim-IsReady p c = record {
          known = found ∙ ap some (sym c.target);
          wanted =
              ap (λ u. snap_limits u r.limits) c.target ∙ snapped ∙ ap (λ l. ok l) (sym c.wanted);
          previous =
              c.previous
              ∙ ap (λ (s : RuntimeState). requested_of t (get t.id s.journal.entries)) stays
              ∙ ap (λ u. requested_of u (get u.id from.state.journal.entries)) (sym c.target);
          reader = reader;
          reached = reached;
          earlier = earlier.0;
          reading =
              ap (λ u. read_limits os u reader) c.target
              ∙ reading
              ∙ ap (λ l. (ok l, reached)) (sym c.effective);
          idle = c.idle;
        }

        claim-Ready :
            (o : Result ActuatorError PreparedFrequencyMutation)
            → prepare_claim t desired before (get t.id reached.state.journal.entries) ≡ o
            → EndsAt (Ready r) (lift o reached)
        claim-Ready (err e) h = ends_badly e reached
        claim-Ready (ok p) h =
            ends_well p reached (claim-IsReady p (prepare_claim-IsClaim t desired before _ p h))

      -- After the reading.
      read_first :
          (r : FrequencyRequest) (t : FrequencyTarget) (desired : FrequencyLimits)
          (reader : Machine W)
          → get r.target registry ≡ some t
          → snap_limits t r.limits ≡ ok desired
          → Keeps from reader
          → (out : Result ActuatorError FrequencyLimits × Machine W) → read_limits os t reader ≡ out
          → Keeps reader out.1
          → EndsAt (Ready r) (
              bind_result out λ before. do
                s ← get_state
                lift (prepare_claim t desired before (get t.id s.journal.entries)))
      read_first r t desired reader found snapped earlier (err e, n) reading kept_n = ends_badly e n
      read_first r t desired reader found snapped earlier (ok before, n) reading kept_n =
          claim-Ready r t desired before reader n found snapped earlier reading
            (kept_n.1 ∙ earlier.1) _ refl

      prepare_one-Ready :
          (r : FrequencyRequest) (m : Machine W)
          → Keeps from m
          → EndsAt (Ready r) (prepare_one os registry r m)
      unfolding prepare_one
      prepare_one-Ready r m h =
          EndsAt-bind _ (Ready r) _ _
            (EndsAt-lift (ok_or (get r.target registry) (unknown_target r.target)) m)
            λ t n first.
              EndsAt-bind _ (Ready r) _ _ (EndsAt-lift (snap_limits t r.limits) n)
                λ desired k second.
                  read_first r t desired k (ok_or-some _ (unknown_target r.target) t first.0)
                    second.0 (subst (Keeps from) (sym (second.1 ∙ first.1)) h) (read_limits os t k)
                    refl ((read_limits-Respects Keeps-frame t).at k)

      -- Prepared, and still nothing written.
      abbrev Steady : FrequencyRequest → PreparedFrequencyMutation → Machine W → Type 0
      Steady r p n = IsReady r p × Keeps from n

      steady :
          (r : FrequencyRequest) (m : Machine W)
          (out : Result ActuatorError PreparedFrequencyMutation × Machine W)
          → Keeps from m
          → EndsAt (Ready r) out
          → Keeps m out.1
          → EndsAt (Steady r) out
      steady r m _ h (ends_well p n ready) k =
          ends_well p n (ready, Keeps-preorder.chain from m n h k)
      steady r m _ h (ends_badly e n) k = ends_badly e n

      abbrev AllReady : List FrequencyRequest → List PreparedFrequencyMutation → Machine W → Type 0
      AllReady rs ps n = AreReady rs ps

      abbrev either :
          FrequencyRequest
          → Action W (List PreparedFrequencyMutation)
          → Bool
          → Action W (List PreparedFrequencyMutation)
      either r rest b = elim b [
        | true ↦ fail (duplicate_request r.target)
        | false ↦ do p ← prepare_one os registry r; ps ← rest; pure (p ∷ ps)
      ]

      choose :
          (r : FrequencyRequest) (rs : List FrequencyRequest)
          (rest : Action W (List PreparedFrequencyMutation)) (b : Bool) (m : Machine W)
          → Keeps from m
          → ((n : Machine W) → Keeps from n → EndsAt (AllReady rs) (rest n))
          → EndsAt (AllReady (r ∷ rs)) (either r rest b m)
      choose r rs rest true m h goes_on = ends_badly _ m
      choose r rs rest false m h goes_on =
          EndsAt-bind _ (AllReady (r ∷ rs)) _ _
            (steady r m _ h (prepare_one-Ready r m h) ((prepare_one-Keeps r).at m))
            λ p n one.
              EndsAt-bind _ (AllReady (r ∷ rs)) _ _ (goes_on n one.1)
                λ ps k others. ends_well (p ∷ ps) k (one.0, others)

      -- Each request is prepared from what the call started with.
      pub prepare-AreReady :
          (rs : List FrequencyRequest) (seen : List Text) (m : Machine W)
          → Keeps from m
          → EndsAt (AllReady rs) (prepare os registry rs seen m)
      unfolding prepare
      prepare-AreReady [] seen m h = ends_well [] m tt
      prepare-AreReady (r ∷ rs) seen m h =
          choose r rs _ (seen_before seen r.target) m h
            λ n k. prepare-AreReady rs (r.target ∷ seen) n k
