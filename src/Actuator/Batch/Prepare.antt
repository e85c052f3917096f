-- ===== src/Actuator/Batch/Prepare.antt =====
-- The preparation in `apply_batch` of crates/uperf-actuator/src/lib.rs.
use uperf_linux_rev.Base.Maps.{get}
use uperf_linux_rev.Base.Text.{Text, text_key}
use uperf_linux_rev.Base.{
  ◌≡◌, refl, sym, ap, ◌∙◌, subst, not, ◌&&◌, Option, none, some, List, [], ◌∷◌, ok, ok_or, All,
  ok-injective, ok-ne-err, if-cases,
}
use uperf_linux_rev.Actuator.Batch.{
  FrequencyRequest, TargetRegistry, prepare, prepare_claim, prepare_one, seen_before,
}
use uperf_linux_rev.Actuator.Batch.Entries.{IsListed, IsRegistry}
use uperf_linux_rev.Actuator.Errors.{ActuatorError, duplicate_request, unknown_target}
use uperf_linux_rev.Actuator.Io.{PreparedFrequencyMutation, read_limits}
use uperf_linux_rev.Actuator.Io.Frame.{IsFrame, read_limits-Respects}
use uperf_linux_rev.Actuator.Journal.{JournalEntry}
use uperf_linux_rev.Actuator.Machine.{
  Machine, Platform, get_state, read_clock, read_string, sleep, write_string,
}
use uperf_linux_rev.Actuator.Machine.Ends.{
  Meets, Meets-Respects, Meets-bind, Meets-choice, Meets-fail, Meets-lift, Meets-pure,
}
use uperf_linux_rev.Actuator.Machine.Rules.{IsPreorder, Respects-get_state}
use uperf_linux_rev.Actuator.Target.{FrequencyTarget, hardware_limits, snap_limits}
use uperf_linux_rev.Core.Units.{FrequencyLimits, same_limits}

-- Only the world moved.
abbrev pub Quiet : {W : Type 0} → Machine W → Machine W → Type 0
Quiet m n = (n.state ≡ m.state) × (n.trace ≡ m.trace)

pub Quiet-preorder : {W : Type 0} → IsPreorder (Quiet {W = W})
Quiet-preorder = record { self = λ m. (refl, refl); chain = λ a b c h k. (k.0 ∙ h.0, k.1 ∙ h.1) }

-- Nothing is written.
pub Quiet-frame : {W : Type 0} (os : Platform W) → IsFrame os Quiet (λ path. ⊥)
unfolding read_string write_string read_clock sleep
Quiet-frame os = record {
  order = Quiet-preorder;
  reading = λ path. record { at = λ m. (refl, refl) };
  writing = λ path value never. absurd never;
  clock = record { at = λ m. (refl, refl) };
  napping = λ ns. record { at = λ m. (refl, refl) };
}

claim-target :
    (t : FrequencyTarget) (desired before : FrequencyLimits) (o : Option JournalEntry)
    (p : PreparedFrequencyMutation)
    → prepare_claim t desired before o ≡ ok p
    → p.target ≡ t
unfolding prepare_claim
claim-target t desired before none p =
    if-cases (λ r. r ≡ ok p → p.target ≡ t)
      (not (same_limits before desired) && not (same_limits before (hardware_limits t))) _ _
      (λ _ h. absurd (ok-ne-err (sym h))) (λ _ h. ap (λ q. q.target) (sym (ok-injective h)))
claim-target t desired before (some e) p = λ h. ap (λ q. q.target) (sym (ok-injective h))

pub ok_or-some :
    {A : Type 0} (o : Option A) (e : ActuatorError) (a : A) → ok_or o e ≡ ok a → o ≡ some a
ok_or-some none e a h = absurd (ok-ne-err (sym h))
ok_or-some (some b) e a h = ap some (ok-injective h)

module _ {W : Type 0} (os : Platform W) (registry : TargetRegistry)
    (keyed : IsRegistry registry) where
  listed :
      (r : FrequencyRequest) (t : FrequencyTarget)
      → ok_or (get r.target registry) (unknown_target r.target) ≡ ok t
      → IsListed registry t
  listed r t h =
      let found = ok_or-some (get r.target registry) (unknown_target r.target) t h in
      subst (λ x. get x registry ≡ some t) (sym (keyed r.target t found)) found

  IsListed-subst : (t u : FrequencyTarget) → u ≡ t → IsListed registry t → IsListed registry u
  IsListed-subst t u h l = subst (IsListed registry) (sym h) l

  prepare_one-Meets :
      (r : FrequencyRequest)
      → Meets Quiet (λ p. IsListed registry p.target) (prepare_one os registry r)
  unfolding prepare_one
  prepare_one-Meets r =
      let Ready = λ (p : PreparedFrequencyMutation). IsListed registry p.target in
      let o = Quiet-preorder {W = W} in
      Meets-bind o (IsListed registry) Ready _ _ (Meets-lift o (IsListed registry) _ (listed r))
        λ t known.
          Meets-bind o (λ _. Unit {0}) Ready _ _
            (Meets-lift o (λ _. Unit {0}) (snap_limits t r.limits) (λ _ _. tt))
            λ desired _.
              Meets-bind o (λ _. Unit {0}) Ready _ _
                (Meets-Respects o (λ _. Unit {0}) (read_limits os t) (λ _. tt)
                  (read_limits-Respects (Quiet-frame os) t))
                λ before _.
                  Meets-bind o (λ _. Unit {0}) Ready _ _
                    (Meets-Respects o (λ _. Unit {0}) get_state (λ _. tt) (Respects-get_state o))
                    λ s _.
                      Meets-lift o Ready
                        (prepare_claim t desired before (get t.id s.journal.entries))
                        λ p h. IsListed-subst t p.target (claim-target t desired before _ p h) known

  pub prepare-Meets :
      (requests : List FrequencyRequest) (seen : List Text)
      → Meets Quiet (All (λ p. IsListed registry p.target)) (prepare os registry requests seen)
  unfolding prepare
  prepare-Meets [] seen = Meets-pure Quiet-preorder (All (λ p. IsListed registry p.target)) [] tt
  prepare-Meets (r ∷ rs) seen =
      let Ready = λ (p : PreparedFrequencyMutation). IsListed registry p.target in
      let o = Quiet-preorder {W = W} in
      Meets-choice o (All Ready) (seen_before seen r.target) _ _
        (Meets-fail o (All Ready) (duplicate_request r.target))
        (Meets-bind o Ready (All Ready) _ _ (prepare_one-Meets r) λ p known.
          Meets-bind o (All Ready) (All Ready) _ _ (prepare-Meets rs (r.target ∷ seen))
            λ ps rest. Meets-pure o (All Ready) (p ∷ ps) (known, rest))
