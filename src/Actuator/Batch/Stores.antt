-- ===== src/Actuator/Batch/Stores.antt =====
-- The stores of the journal in a transaction: what `persist_journal` and `persist_or_remove_locked`
-- leave of the state and of the disk.
use uperf_linux_rev.Base.{ℕ, ◌≡◌, refl, inl, inr, true, List, ◌∷◌, Result, ok, err, elim-cases}
use uperf_linux_rev.Actuator.Errors.{ActuatorError, PlatformError, cannot_persist_operation}
use uperf_linux_rev.Actuator.Journal.{Journal, encode_journal, is_empty}
use uperf_linux_rev.Actuator.Machine.{
  Platform, Machine, stored, removed, Action, persist_journal, remove_durable, store_bytes, note,
  platform_result, degrade, pure,
}
use uperf_linux_rev.Actuator.Batch.{persist_or_remove}
use uperf_linux_rev.Actuator.Batch.Durable.{durable, IsCovered, IsSynced}

-- A store that is answered: the journal is on the disk, or nothing but the world moved.
pub data IsStored {W : Type 0} (j : Journal) (m : Machine W)
    : Result ActuatorError (Unit {0}) × Machine W → Type 0 where
  is_stored : (w : W) → IsStored j m (ok tt, record m { world = w; trace = stored j ∷ m.trace })
  not_stored : (e : ActuatorError) (w : W) → IsStored j m (err e, record m { world = w })

data IsRemoved {W : Type 0} (m : Machine W)
    : Result ActuatorError (Unit {0}) × Machine W → Type 0 where
  is_removed : (w : W) → IsRemoved m (ok tt, record m { world = w; trace = removed ∷ m.trace })
  not_removed : (e : ActuatorError) (w : W) → IsRemoved m (err e, record m { world = w })

-- An update: the disk agrees with the journal, or the actuator is degraded and the disk unchanged.
pub data IsUpdated {W : Type 0} (m : Machine W)
    : Result ActuatorError (Unit {0}) × Machine W → Type 0 where
  updated :
      (n : Machine W)
      → n.state ≡ m.state
      → IsSynced n.trace m.state.journal
      → (IsCovered m.trace → IsCovered n.trace)
      → IsUpdated m (ok tt, n)
  not_updated :
      (e : ActuatorError) (n : Machine W)
      → n.state.journal ≡ m.state.journal
      → n.state.recovery_required ≡ m.state.recovery_required
      → n.trace ≡ m.trace
      → IsUpdated m (err e, n)

module _ {W : Type 0} (os : Platform W) where
  noted-IsStored :
      (j : Journal) (m : Machine W) (r : Result PlatformError (Unit {0})) (w : W)
      → IsStored j m (platform_result r, record m { world = w; trace = note r (stored j) m.trace })
  noted-IsStored j m (ok a) w = is_stored w
  noted-IsStored j m (err e) w = not_stored _ w

  bytes-IsStored :
      (j : Journal) (m : Machine W) (r : Result ActuatorError (List ℕ))
      → IsStored j m (store_bytes os j r m)
  unfolding store_bytes
  bytes-IsStored j m (ok bytes) =
      let answer = os.store_durable bytes m.world in noted-IsStored j m answer.0 answer.1
  bytes-IsStored j m (err e) = not_stored e m.world

  pub persist_journal-IsStored :
      (j : Journal) (m : Machine W) → IsStored j m (persist_journal os j m)
  unfolding persist_journal
  persist_journal-IsStored j m = bytes-IsStored j m (encode_journal os.codec j)

  noted-IsRemoved :
      (m : Machine W) (r : Result PlatformError (Unit {0})) (w : W)
      → IsRemoved m (platform_result r, record m { world = w; trace = note r removed m.trace })
  noted-IsRemoved m (ok a) w = is_removed w
  noted-IsRemoved m (err e) w = not_removed _ w

  remove_durable-IsRemoved : (m : Machine W) → IsRemoved m (remove_durable os m)
  unfolding remove_durable
  remove_durable-IsRemoved m =
      let answer = os.remove_durable m.world in noted-IsRemoved m answer.0 answer.1

  abbrev verdict : Result ActuatorError (Unit {0}) → Action W (Unit {0})
  verdict r = elim r [ ok _ ↦ pure tt | err e ↦ degrade cannot_persist_operation ]

  stored-IsUpdated :
      (m : Machine W) (out : Result ActuatorError (Unit {0}) × Machine W)
      → IsStored m.state.journal m out
      → IsUpdated m (verdict out.0 out.1)
  unfolding degrade durable
  stored-IsUpdated m _ (is_stored w) = updated _ refl (inl refl) λ h. h
  stored-IsUpdated m _ (not_stored e w) = not_updated _ _ refl refl refl

  removed-IsUpdated :
      (m : Machine W) (out : Result ActuatorError (Unit {0}) × Machine W)
      → is_empty m.state.journal ≡ true
      → IsRemoved m out
      → IsUpdated m (verdict out.0 out.1)
  unfolding degrade durable
  removed-IsUpdated m _ empty (is_removed w) = updated _ refl (inr (refl, empty)) λ h. h
  removed-IsUpdated m _ empty (not_removed e w) = not_updated _ _ refl refl refl

  pub persist_or_remove-IsUpdated : (m : Machine W) → IsUpdated m (persist_or_remove os m)
  unfolding persist_or_remove
  persist_or_remove-IsUpdated m =
      let j = m.state.journal in
      elim-cases (λ (a : Action W (Unit {0})). IsUpdated m (verdict (a m).0 (a m).1)) (is_empty j)
        (remove_durable os) (persist_journal os j)
        (λ empty. removed-IsUpdated m _ empty (remove_durable-IsRemoved m))
        (λ full. stored-IsUpdated m _ (persist_journal-IsStored j m))
