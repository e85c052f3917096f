-- ===== src/Actuator/Fast/Safety.antt =====
-- `apply_owned_batch_fast` of crates/uperf-actuator/src/lib.rs as a whole.
use uperf_linux_rev.Actuator.Batch.{
  record_effective, Applied, FrequencyRequest, TargetRegistry, nothing_to_write, seen_before,
}
use uperf_linux_rev.Base.Maps.{get}
use uperf_linux_rev.Base.Text.{Text, text_key}
use uperf_linux_rev.Base.{
  ◌≡◌, refl, sym, ap, ◌∙◌, subst, true, Option, none, some, List, [], ◌∷◌, Result, ok, err, ok_or,
  All, ok-injective, ok-ne-err, elim-cases,
}
use uperf_linux_rev.Actuator.Batch.Durable.{IsCovered, IsCovered-append, durable}
use uperf_linux_rev.Actuator.Batch.Entries.{HasEntry, IsJournalFor, IsListed, IsRegistry, claimed}
use uperf_linux_rev.Actuator.Batch.Prepare.{Quiet, Quiet-frame, Quiet-preorder}
use uperf_linux_rev.Actuator.Batch.Safety.{IsSound}
use uperf_linux_rev.Actuator.Errors.{
  ActuatorError, duplicate_request, ownership_required, unknown_target,
}
use uperf_linux_rev.Actuator.Fast.{
  apply_owned_batch_fast, commit_owned, entries_before, owned_mutation, prepare_all_owned,
  prepare_owned, transact_owned,
}
use uperf_linux_rev.Actuator.Fast.Owned.{
  Covers, IsAnchored, IsOwner, entries_before-IsCollected, fitting,
}
use uperf_linux_rev.Actuator.Fast.Steps.{Covers-preorder}
use uperf_linux_rev.Actuator.Fast.Transact.{transact_owned-Covers}
use uperf_linux_rev.Actuator.Io.{PreparedFrequencyMutation, read_limits}
use uperf_linux_rev.Actuator.Io.Frame.{read_limits-Respects}
use uperf_linux_rev.Actuator.Journal.{Journal, JournalEntry}
use uperf_linux_rev.Actuator.Machine.{
  Action, Machine, Platform, RuntimeState, bind_result, ensure_mutation_ready, get_state, lift,
  pure, ◌>>=◌,
}
use uperf_linux_rev.Actuator.Machine.Ends.{
  Ends, Meets, Meets-Respects, Meets-bind, Meets-choice, Meets-fail, Meets-lift, Meets-pure, fails,
  succeeds,
}
use uperf_linux_rev.Actuator.Machine.Rules.{Respects-get_state}
use uperf_linux_rev.Actuator.Target.{FrequencyTarget, snap_limits}
use uperf_linux_rev.Core.Units.{FrequencyLimits}

module _ {W : Type 0} (os : Platform W) (registry : TargetRegistry)
    (keyed : IsRegistry registry) where
  known :
      (r : FrequencyRequest) (o : Option FrequencyTarget) (t : FrequencyTarget)
      → get r.target registry ≡ o
      → ok_or o (unknown_target r.target) ≡ ok t
      → IsListed registry t
  known r none t at h = absurd (ok-ne-err (sym h))
  known r (some u) t at h =
      let found : get r.target registry ≡ some t =
        at ∙ ap {B = Option FrequencyTarget} some (ok-injective h) in
      subst (λ x. get x registry ≡ some t) (sym (keyed r.target t found)) found

  Ready : PreparedFrequencyMutation → Type 0
  Ready p = IsListed registry p.target

  prepare_owned-Ready : (r : FrequencyRequest) → Meets Quiet Ready (prepare_owned os registry r)
  unfolding prepare_owned owned_mutation Ready
  prepare_owned-Ready r =
      let o = Quiet-preorder {W = W} in
      let any = λ (A : Type 0) (a : A). Unit {0} in
      Meets-bind o (IsListed registry) Ready _ _
        (Meets-lift o (IsListed registry) _ λ t h. known r (get r.target registry) t refl h)
        λ t here.
          Meets-bind o (any RuntimeState) Ready _ _
            (Meets-Respects o (any RuntimeState) get_state (λ s. tt) (Respects-get_state o))
            λ s u.
              Meets-bind o (any JournalEntry) Ready _ _
                (Meets-lift o (any JournalEntry)
                  (ok_or (get t.id s.journal.entries) (ownership_required t.id)) (λ e h. tt))
                λ entry u.
                  Meets-bind o (any FrequencyLimits) Ready _ _
                    (Meets-lift o (any FrequencyLimits) (snap_limits t r.limits) (λ l h. tt))
                    λ desired u.
                      Meets-bind o (any FrequencyLimits) Ready _ _
                        (Meets-Respects o (any FrequencyLimits) (read_limits os t) (λ l. tt)
                          (read_limits-Respects (Quiet-frame os) t))
                        λ before u. Meets-pure o Ready (owned_mutation t entry desired before) here

  prepare_all_owned-Ready :
      (requests : List FrequencyRequest) (seen : List Text)
      → Meets Quiet (All Ready) (prepare_all_owned os registry requests seen)
  unfolding prepare_all_owned
  prepare_all_owned-Ready [] seen = Meets-pure Quiet-preorder (All Ready) [] tt
  prepare_all_owned-Ready (r ∷ rs) seen =
      let o = Quiet-preorder {W = W} in
      Meets-choice o (All Ready) (seen_before seen r.target) _ _
        (Meets-fail o (All Ready) (duplicate_request r.target))
        (Meets-bind o Ready (All Ready) _ _ (prepare_owned-Ready r) λ p here.
          Meets-bind o (All Ready) (All Ready) _ _ (prepare_all_owned-Ready rs (r.target ∷ seen))
            λ ps rest. Meets-pure o (All Ready) (p ∷ ps) (here, rest))

  module _ (held : Journal) where
    owned_by_disk :
        (ps : List PreparedFrequencyMutation) (m : Machine W)
        → IsOwner registry held m
        → All (λ p. p.needs_write ≡ true → HasEntry p.target.id m.state.journal) ps
        → All (λ p. p.needs_write ≡ true → HasEntry p.target.id held) ps
    owned_by_disk [] m owner have = tt
    owned_by_disk (p ∷ ps) m owner have =
        (λ wanted. owner.owns p.target.id (have.0 wanted), owned_by_disk ps m owner have.1)

    self : (m : Machine W) → Covers registry held m m
    self m = (Covers-preorder registry held).self m

    saving :
        (prepared : List PreparedFrequencyMutation) (m : Machine W)
        (r : Result ActuatorError (List (Text × JournalEntry)))
        → entries_before prepared m.state.journal ≡ r
        → All Ready prepared
        → IsJournalFor registry m.state.journal
        → IsOwner registry held m
        → Covers registry held m
            (bind_result (r, m) (transact_owned os prepared m.state.journal.generation)).1
    unfolding Ready
    saving prepared m (err e) at ready ordered owner = self m
    saving prepared m (ok saved) at ready ordered owner =
        let (have, stand) = entries_before-IsCollected registry prepared m.state.journal saved at in
        (transact_owned-Covers os registry held m.state.journal.generation saved
            (fitting registry m.state.journal saved ordered stand) prepared
            (claimed registry held prepared owner.ordered ready
              (owned_by_disk prepared m owner have))).at
          m

    commit_owned-Covers :
        (prepared : List PreparedFrequencyMutation) (m : Machine W)
        → All Ready prepared
        → IsJournalFor registry m.state.journal
        → IsOwner registry held m
        → Covers registry held m (commit_owned os prepared m).1
    unfolding commit_owned
    commit_owned-Covers prepared m ready ordered owner =
        elim-cases (λ (a : Action W Applied). Covers registry held m (a m).1)
          (nothing_to_write prepared) (pure (record_effective prepared []))
          (get_state >>= λ s.
            lift (entries_before prepared s.journal)
            >>= transact_owned os prepared s.journal.generation)
          (λ idle. self m) (λ busy. saving prepared m _ refl ready ordered owner)

    Quiet-Covers : (m n : Machine W) → Quiet m n → Covers registry held m n
    Quiet-Covers m n quiet = record {
      journal = subst (λ (s : RuntimeState). IsJournalFor registry s.journal) (sym quiet.0);
      writes = ([], quiet.1, tt);
    }

    Quiet-IsOwner :
        (m n : Machine W) → Quiet m n → IsOwner registry held m → IsOwner registry held n
    Quiet-IsOwner m n quiet owner = record {
      ordered = owner.ordered;
      owns = λ id h. owner.owns id (subst (λ (s : RuntimeState). HasEntry id s.journal) quiet.0 h);
    }

    committing :
        (m : Machine W) (out : Result ActuatorError (List PreparedFrequencyMutation) × Machine W)
        → IsJournalFor registry m.state.journal
        → IsOwner registry held m
        → Ends Quiet (All Ready) m out
        → Covers registry held m (bind_result out (commit_owned os)).1
    committing m _ ordered owner (fails e n quiet) = Quiet-Covers m n quiet
    committing m _ ordered owner (succeeds prepared n quiet ready) =
        (Covers-preorder registry held).chain m n _ (Quiet-Covers m n quiet) (
          commit_owned-Covers prepared n ready ((Quiet-Covers m n quiet).journal ordered)
            (Quiet-IsOwner m n quiet owner))

    pub owned-Covers :
        (requests : List FrequencyRequest) (m : Machine W) (r : Result ActuatorError (Unit {0}))
        → IsJournalFor registry m.state.journal
        → IsOwner registry held m
        → Covers registry held m
            (bind_result
              (r, m)
              λ _. prepare_all_owned os registry requests [] >>= commit_owned os).1
    owned-Covers requests m (err e) ordered owner = self m
    owned-Covers requests m (ok a) ordered owner =
        committing m _ ordered owner ((prepare_all_owned-Ready requests []).at m)

-- From a sound state, with a registry that keeps each target under its id, and while the disk holds
-- a journal in order with an entry for every entry in memory, the fast transaction leaves that
-- journal on the disk as it is and keeps the state sound: each of its writes, those of its rollback
-- included, is covered by the claim, and the entries stay those of their targets.
pub apply_owned_batch_fast-IsSound :
    {W : Type 0} (os : Platform W) (registry : TargetRegistry) (requests : List FrequencyRequest)
    (held : Journal) (m : Machine W)
    → IsRegistry registry
    → IsSound registry m
    → IsAnchored registry held m
    → IsSound registry (apply_owned_batch_fast os registry requests m).1
      × (durable (apply_owned_batch_fast os registry requests m).1.trace ≡ some held)
unfolding apply_owned_batch_fast
apply_owned_batch_fast-IsSound os registry requests held m keyed sound anchored =
    let kept =
      owned-Covers os registry keyed held requests m (ensure_mutation_ready m.state) sound.entries
        (record { ordered = anchored.ordered; owns = anchored.owns }) in
    let (more, grown, claims) = kept.writes in
    let after = IsCovered-append held more m.trace claims anchored.disk sound.covered in
    (
      record {
        entries = kept.journal sound.entries;
        covered = subst IsCovered (sym grown) after.1;
      },
      ap durable grown ∙ after.0,
    )
