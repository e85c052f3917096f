-- ===== src/Daemon/Reconcile/Steps.antt =====
-- The phases of `reconcile_frequencies` of crates/uperf-daemon/src/reconcile.rs before the
-- transaction.
use uperf_linux_rev.Base.{
  ℕ, ◌≡◌, refl, sym, subst, Bool, true, false, Option, none, some, List, [], ◌∷◌, Result, ok, err,
}
use uperf_linux_rev.Base.Maps.{get, insert}
use uperf_linux_rev.Base.Text.{text_key}
use uperf_linux_rev.Actuator.Batch.{FrequencyRequest, TargetRegistry}
use uperf_linux_rev.Actuator.Batch.Durable.{IsCovered, IsSynced}
use uperf_linux_rev.Actuator.Batch.Entries.{IsJournalFor, IsRegistry}
use uperf_linux_rev.Actuator.Batch.Prepare.{Quiet, Quiet-frame, Quiet-preorder}
use uperf_linux_rev.Actuator.Batch.Safety.{IsSound}
use uperf_linux_rev.Actuator.Errors.{ActuatorError}
use uperf_linux_rev.Actuator.Io.Frame.{read_limits-Respects}
use uperf_linux_rev.Actuator.Machine.{Machine, Platform, RuntimeState, Event}
use uperf_linux_rev.Actuator.Machine.Rules.{Respects, Respects-bind, Respects-lift}
use uperf_linux_rev.Actuator.Restore.{restore_targets}
use uperf_linux_rev.Actuator.Restore.Intents.{IsIndexed}
use uperf_linux_rev.Actuator.Restore.Safety.{restore_targets-IsSound}
use uperf_linux_rev.Actuator.Restore.Synced.{restore_targets-IsSynced}
use uperf_linux_rev.Core.Domain.{TargetId}
use uperf_linux_rev.Core.Units.{FrequencyLimits, same_limits}
use uperf_linux_rev.Daemon.Fence.{apply_upper_cap}
use uperf_linux_rev.Daemon.Reconcile.{
  Limits, ReconcileError, Work, call, cap_limits, collect_requests, get_applied, plan_requests,
  pure, read_capped, read_current, read_target, release_inactive, removed_of, restore_inactive,
  set_applied, ◌>>=◌, ◌>>◌,
}
use uperf_linux_rev.Daemon.Reconcile.Rules.{
  Keeps, Keeps-bind, Keeps-call, Keeps-get_applied, Keeps-pure, Keeps-set_applied, PostAction,
}

module _ {W : Type 0} (registry : TargetRegistry) where
  -- Before the restoration, and after it.
  pub record IsReady (m : Machine W) : Type 0 where
    pub sound : IsSound registry m
    pub keyed : IsIndexed m.state.journal

  pub record IsClean (m : Machine W) : Type 0 where
    pub sound : IsSound registry m
    pub synced : IsSynced m.trace m.state.journal

module _ {W : Type 0} (os : Platform W) (registry : TargetRegistry)
    (named : IsRegistry registry) where
  abbrev Ready : Machine W → Type 0
  Ready = IsReady registry

  abbrev Clean : Machine W → Type 0
  Clean = IsClean registry

  read_target-Quiet : (id : TargetId) → Respects Quiet (read_target os registry id)
  unfolding read_target
  read_target-Quiet id =
      Respects-bind Quiet-preorder _ _ (Respects-lift Quiet-preorder _)
        λ t. read_limits-Respects (Quiet-frame os) t

  Quiet-IsSound : (m n : Machine W) → Quiet m n → IsSound registry m → IsSound registry n
  Quiet-IsSound m n quiet sound = record {
    entries =
        subst (λ (s : RuntimeState). IsJournalFor registry s.journal) (sym quiet.0) sound.entries;
    covered = subst IsCovered (sym quiet.1) sound.covered;
  }

  Quiet-IsReady : (m n : Machine W) → Quiet m n → Ready m → Ready n
  Quiet-IsReady m n quiet ready = record {
    sound = Quiet-IsSound m n quiet ready.sound;
    keyed = subst (λ (s : RuntimeState). IsIndexed s.journal) (sym quiet.0) ready.keyed;
  }

  Quiet-IsClean : (m n : Machine W) → Quiet m n → Clean m → Clean n
  Quiet-IsClean m n quiet clean = record {
    sound = Quiet-IsSound m n quiet clean.sound;
    synced =
        subst (λ (x : RuntimeState × List Event). IsSynced x.1 x.0.journal)
          (λ i. (sym quiet.0 i, sym quiet.1 i)) clean.synced;
  }

  either :
      {A : Type 0} (P E : Machine W → Type 0) (r : Result ActuatorError A) (m : Machine W)
      → P m
      → (P m → E m)
      → PostAction (λ (a : A). P) E r m
  either P E (ok a) m p h = p
  either P E (err e) m p h = h p

  reading :
      (P : Machine W → Type 0) (f : ActuatorError → ReconcileError) (id : TargetId)
      → ((m n : Machine W) → Quiet m n → P m → P n)
      → ((m : Machine W) → P m → IsSound registry m)
      → Keeps P (λ l. P) (IsSound registry) (call f (read_target os registry id))
  reading P f id moves weak =
      Keeps-call (λ l. P) f (read_target os registry id)
        λ m p.
          either P (IsSound registry) (read_target os registry id m).0
            (read_target os registry id m).1 (moves m _ ((read_target-Quiet id).at m) p) (weak _)

  abbrev capped_next :
      TargetId → ℕ → List (TargetId × ℕ) → Limits → Option FrequencyLimits → Work W Limits
  capped_next id cap caps effective o = elim o [
    | some limits ↦ cap_limits os registry caps (insert id (apply_upper_cap limits cap) effective)
    | none ↦ do
      current ← call (read_capped id) (read_target os registry id)
      cap_limits os registry caps (insert id (apply_upper_cap current cap) effective)
  ]

  capped_next-IsReady :
      (id : TargetId) (hz : ℕ) (caps : List (TargetId × ℕ)) (effective : Limits)
      (o : Option FrequencyLimits)
      → ((l : Limits) → Keeps Ready (λ l. Ready) (IsSound registry) (cap_limits os registry caps l))
      → Keeps Ready (λ l. Ready) (IsSound registry) (capped_next id hz caps effective o)
  capped_next-IsReady id hz caps effective (some limits) rest = rest _
  capped_next-IsReady id hz caps effective none rest =
      Keeps-bind (λ l. Ready) (λ l. Ready) _ _
        (reading Ready (read_capped id) id Quiet-IsReady (λ m ready. ready.sound)) λ current. rest _

  cap_limits-IsReady :
      (caps : List (TargetId × ℕ)) (effective : Limits)
      → Keeps Ready (λ l. Ready) (IsSound registry) (cap_limits os registry caps effective)
  unfolding cap_limits
  cap_limits-IsReady [] effective = Keeps-pure (λ l. Ready) effective (λ m p. p)
  cap_limits-IsReady ((id, hz) ∷ caps) effective =
      capped_next-IsReady id hz caps effective (get id effective) (cap_limits-IsReady caps)

  release_inactive-IsClean :
      (effective : Limits)
      → Keeps Ready (λ u. Clean) (IsSound registry) (release_inactive os registry effective)
  unfolding release_inactive
  release_inactive-IsClean effective =
      Keeps-bind (λ l. Ready) (λ u. Clean) _ _ (Keeps-get_applied Ready (λ m p. p))
        λ applied.
          Keeps-bind (λ u. Clean) (λ u. Clean) _ _
            (Keeps-call (λ u. Clean) restore_inactive _
              λ m ready. restored m (removed_of applied effective) _ refl ready)
            λ u. Keeps-set_applied Clean _ (λ m p. p)
    where
      restored :
          (m : Machine W) (ids : List TargetId) (out : Result ActuatorError (Unit {0}) × Machine W)
          → restore_targets os registry ids m ≡ out
          → Ready m
          → PostAction (λ (u : Unit {0}). Clean) (IsSound registry) out.0 out.1
      restored m ids (ok u, n) at ready = record {
        sound =
            subst (λ (o : Result ActuatorError (Unit {0}) × Machine W). IsSound registry o.1) at
              (restore_targets-IsSound os registry ids m named ready.keyed ready.sound);
        synced = restore_targets-IsSynced os registry ids m n at;
      }
      restored m ids (err e, n) at ready =
          subst (λ (o : Result ActuatorError (Unit {0}) × Machine W). IsSound registry o.1) at
            (restore_targets-IsSound os registry ids m named ready.keyed ready.sound)

  abbrev collect_next :
      TargetId → FrequencyLimits → Limits → FrequencyLimits → Bool → Work W (List FrequencyRequest)
  collect_next id limits rest current same = elim same [
    | true ↦ do
      applied ← get_applied
      set_applied (insert id current applied)
      collect_requests os registry rest
    | false ↦ do
      requests ← collect_requests os registry rest
      pure (record { target = id; limits = limits } ∷ requests)
  ]

  collect_next-IsClean :
      (id : TargetId) (limits : FrequencyLimits) (rest : Limits) (current : FrequencyLimits)
      (same : Bool)
      → Keeps Clean (λ rs. Clean) (IsSound registry) (collect_requests os registry rest)
      → Keeps Clean (λ rs. Clean) (IsSound registry) (collect_next id limits rest current same)
  collect_next-IsClean id limits rest current true later =
      Keeps-bind (λ l. Clean) (λ rs. Clean) _ _ (Keeps-get_applied Clean (λ m p. p))
        λ applied.
          Keeps-bind (λ u. Clean) (λ rs. Clean) _ _
            (Keeps-set_applied Clean (insert id current applied) (λ m p. p)) λ u. later
  collect_next-IsClean id limits rest current false later =
      Keeps-bind (λ rs. Clean) (λ rs. Clean) _ _ later
        λ requests.
          Keeps-pure (λ rs. Clean) (record { target = id; limits = limits } ∷ requests) (λ m p. p)

  collect_requests-IsClean :
      (effective : Limits)
      → Keeps Clean (λ rs. Clean) (IsSound registry) (collect_requests os registry effective)
  unfolding collect_requests
  collect_requests-IsClean [] = Keeps-pure (λ rs. Clean) [] (λ m p. p)
  collect_requests-IsClean ((id, limits) ∷ rest) =
      Keeps-bind (λ l. Clean) (λ rs. Clean) _ _
        (reading Clean (read_current id) id Quiet-IsClean (λ m clean. clean.sound))
        λ current.
          collect_next-IsClean id limits rest current (same_limits current limits)
            (collect_requests-IsClean rest)

  pub plan_requests-IsClean :
      (desired : Limits) (caps : List (TargetId × ℕ))
      → Keeps Ready (λ rs. Clean) (IsSound registry) (plan_requests os registry desired caps)
  unfolding plan_requests
  plan_requests-IsClean desired caps =
      Keeps-bind (λ l. Ready) (λ rs. Clean) _ _ (cap_limits-IsReady caps desired)
        λ effective.
          Keeps-bind (λ u. Clean) (λ rs. Clean) _ _ (release_inactive-IsClean effective)
            λ u. collect_requests-IsClean effective
