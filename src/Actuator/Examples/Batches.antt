-- ===== src/Actuator/Examples/Batches.antt =====
-- `apply_batch` on the rig: one target is slowed down.
use uperf_linux_rev.Actuator.Errors.{rollback_failed}
use uperf_linux_rev.Base.Text.{text_key}
use uperf_linux_rev.Base.{◌≡◌, refl, ◌⊎◌, inr, [], ◌∷◌}
use uperf_linux_rev.Actuator.Batch.{apply_batch}
use uperf_linux_rev.Actuator.Batch.Durable.{IsSynced, durable}
use uperf_linux_rev.Actuator.Batch.Safety.{
  EndsWhole, IsSound, apply_batch-EndsWhole, apply_batch-IsSound, apply_batch-IsSynced, run_batches,
  run_batches-IsSound, run_batches-degraded,
}
use uperf_linux_rev.Actuator.Batch.Told.{IsDegraded}
use uperf_linux_rev.Actuator.Examples.Rig.{
  fresh, fresh-IsSound, one_cpu, one_cpu-IsRegistry, rig_platform, slow_down, stopped,
}

apply_batch-EndsWhole_example :
    EndsWhole rig_platform one_cpu slow_down fresh
      (apply_batch rig_platform one_cpu slow_down fresh)
apply_batch-EndsWhole_example =
    apply_batch-EndsWhole rig_platform one_cpu one_cpu-IsRegistry slow_down fresh fresh-IsSound

apply_batch-IsSound_example : IsSound one_cpu (apply_batch rig_platform one_cpu slow_down fresh).1
apply_batch-IsSound_example =
    apply_batch-IsSound rig_platform one_cpu one_cpu-IsRegistry slow_down fresh fresh-IsSound

apply_batch-IsSynced_example :
    IsSynced
      (apply_batch rig_platform one_cpu slow_down fresh).1.trace
      (apply_batch rig_platform one_cpu slow_down fresh).1.state.journal
    ⊎ IsDegraded (apply_batch rig_platform one_cpu slow_down fresh).1
unfolding durable
apply_batch-IsSynced_example =
    apply_batch-IsSynced rig_platform one_cpu one_cpu-IsRegistry slow_down fresh fresh-IsSound
      (inr (refl, refl))

run_batches-IsSound_example :
    IsSound one_cpu (run_batches rig_platform one_cpu (slow_down ∷ slow_down ∷ []) fresh)
run_batches-IsSound_example =
    run_batches-IsSound rig_platform one_cpu one_cpu-IsRegistry (slow_down ∷ slow_down ∷ []) fresh
      fresh-IsSound

run_batches-degraded_example : run_batches rig_platform one_cpu (slow_down ∷ []) stopped ≡ stopped
run_batches-degraded_example =
    run_batches-degraded rig_platform one_cpu (slow_down ∷ []) stopped (rollback_failed, refl)
