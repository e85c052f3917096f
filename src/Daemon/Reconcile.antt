-- ===== src/Daemon/Reconcile.antt =====
-- One reconciliation of the frequencies: `reconcile_frequencies` of
-- crates/uperf-daemon/src/reconcile.rs.
pub mod Rules
pub mod Envelope
pub mod Steps
pub mod Safety
use uperf_linux_rev.Base.{
  ℕ, true, false, not, none, some, List, [], ◌∷◌, Result, ok, err, ok_or, keep,
}
use uperf_linux_rev.Base.Maps.{get, insert, remove, contains_key, keys}
use uperf_linux_rev.Base.Text.{Text, text_key}
use uperf_linux_rev.Actuator.Batch.{Applied, FrequencyRequest, TargetRegistry, apply_batch}
use uperf_linux_rev.Actuator.Errors.{ActuatorError, ownership_required, unknown_target}
use uperf_linux_rev.Actuator.Fast.{apply_owned_batch_fast}
use uperf_linux_rev.Actuator.Io.{read_limits}
use uperf_linux_rev.Actuator.Machine.{Action, Machine, Platform}
use uperf_linux_rev.Actuator.Restore.{restore_targets}
use uperf_linux_rev.Core.Domain.{TargetId}
use uperf_linux_rev.Core.Units.{FrequencyLimits, same_limits}
use uperf_linux_rev.Daemon.Fence.{apply_upper_cap}
use uperf_linux_rev.Actuator.Machine

-- The call that failed, and how: the text of the message is not modelled.
pub data ReconcileError : Type 0 where
  read_capped : TargetId → ActuatorError → ReconcileError
  restore_inactive : ActuatorError → ReconcileError
  read_current : TargetId → ActuatorError → ReconcileError
  claim_batch : ActuatorError → ReconcileError
  apply_owned : ActuatorError → ReconcileError

abbrev pub Limits : Type 0
Limits = List (TargetId × FrequencyLimits)

-- The actuator and `applied.frequencies`, which the worker changes in place.
pub record Worker (W : Type 0) : Type 0 where
  pub machine : Machine W
  pub applied : Limits

abbrev pub Work : Type 0 → Type 0 → Type 0
Work W A = Worker W → Result ReconcileError A × Worker W

abbrev pub explained :
    {A : Type 0}
    → (ActuatorError → ReconcileError)
    → Result ActuatorError A
    → Result ReconcileError A
explained f (ok a) = ok a
explained f (err e) = err (f e)

module _ {W : Type 0} where
  abbrev pub pure : {A : Type 0} → A → Work W A
  pure a s = (ok a, s)

  abbrev pub fail : {A : Type 0} → ReconcileError → Work W A
  fail e s = (err e, s)

  abbrev pub bind_result :
      {A B : Type 0}
      → Result ReconcileError A × Worker W
      → (A → Work W B)
      → Result ReconcileError B × Worker W
  bind_result (ok a, s) f = f a s
  bind_result (err e, s) f = (err e, s)

  infixl 5 ◌>>=◌ ◌>>◌
  abbrev pub ◌>>=◌ : {A B : Type 0} → Work W A → (A → Work W B) → Work W B
  ◌>>=◌ a f s = bind_result (a s) f

  abbrev pub ◌>>◌ : {B : Type 0} → Work W (Unit {0}) → Work W B → Work W B
  a >> b = a >>= λ _. b

  -- A call of the actuator with `map_err`, and one whose result is looked at.
  abbrev pub call : {A : Type 0} → (ActuatorError → ReconcileError) → Action W A → Work W A
  call f a s = (explained f (a s.machine).0, record s { machine = (a s.machine).1 })

  abbrev pub call_result : {A : Type 0} → Action W A → Work W (Result ActuatorError A)
  call_result a s = (ok (a s.machine).0, record s { machine = (a s.machine).1 })

  abbrev pub get_applied : Work W Limits
  get_applied s = (ok s.applied, s)

  abbrev pub set_applied : Limits → Work W (Unit {0})
  set_applied l s = (ok tt, record s { applied = l })

abbrev pub remove_all : List TargetId → Limits → Limits
remove_all [] l = l
remove_all (id ∷ ids) l = remove_all ids (remove id l)

abbrev pub insert_all : Applied → Limits → Limits
insert_all [] l = l
insert_all ((id, limits) ∷ rest) l = insert_all rest (insert id limits l)

abbrev pub removed_of : Limits → Limits → List TargetId
removed_of applied effective = keep (λ id. not (contains_key id effective)) (keys applied)

module _ {W : Type 0} (os : Platform W) (registry : TargetRegistry) where
  -- `FrequencyActuator::read_limits`.
  unfoldable pub read_target : TargetId → Action W FrequencyLimits
  read_target id =
      Machine.◌>>=◌ (Machine.lift (ok_or (get id registry) (unknown_target id))) (read_limits os)

  -- The limits under the caps; a capped target without limits starts from its present range.
  unfoldable pub cap_limits : List (TargetId × ℕ) → Limits → Work W Limits
  cap_limits [] effective = pure effective
  cap_limits ((id, cap) ∷ caps) effective = elim (get id effective) [
    | some limits ↦ cap_limits caps (insert id (apply_upper_cap limits cap) effective)
    | none ↦ do
      current ← call (read_capped id) (read_target id)
      cap_limits caps (insert id (apply_upper_cap current cap) effective)
  ]

  -- Targets that no limits name any more are given back.
  unfoldable pub release_inactive : Limits → Work W (Unit {0})
  release_inactive effective = do
    applied ← get_applied
    let removed = removed_of applied effective
    call restore_inactive (restore_targets os registry removed)
    set_applied (remove_all removed applied)

  -- A request for each target whose present range is another one.
  unfoldable pub collect_requests : Limits → Work W (List FrequencyRequest)
  collect_requests [] = pure []
  collect_requests ((id, limits) ∷ rest) =
      let later = collect_requests rest in
      do
        current ← call (read_current id) (read_target id)
        elim (same_limits current limits) [
          | true ↦ do applied ← get_applied; set_applied (insert id current applied); later
          | false ↦ do requests ← later; pure (record { target = id; limits = limits } ∷ requests)
        ]

  unfoldable pub settle_batch :
      List FrequencyRequest → Result ActuatorError Applied → Work W Applied
  settle_batch requests (ok result) = pure result
  settle_batch requests (err (ownership_required id)) =
      call claim_batch (apply_batch os registry requests)
  settle_batch requests (err e) = fail (apply_owned e)

  unfoldable pub send_requests : List FrequencyRequest → Work W (Unit {0})
  send_requests [] = pure tt
  send_requests (r ∷ rs) = do
    fast ← call_result (apply_owned_batch_fast os registry (r ∷ rs))
    result ← settle_batch (r ∷ rs) fast
    applied ← get_applied
    set_applied (insert_all result applied)

  -- All that comes before the transaction.
  unfoldable pub plan_requests : Limits → List (TargetId × ℕ) → Work W (List FrequencyRequest)
  plan_requests desired caps = do
    effective ← cap_limits caps desired
    release_inactive effective
    collect_requests effective

  unfoldable pub reconcile_frequencies : Limits → List (TargetId × ℕ) → Work W (Unit {0})
  reconcile_frequencies desired caps = do
    requests ← plan_requests desired caps
    send_requests requests
