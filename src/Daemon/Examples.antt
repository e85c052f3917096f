-- ===== src/Daemon/Examples.antt =====
-- Concrete runs of the daemon's worker.
use uperf_linux_rev.Base.{ℕ, refl, List, [], ◌∷◌}
use uperf_linux_rev.Base.Text.{text, text_key}
use uperf_linux_rev.Base.Maps.{get, insert}
use uperf_linux_rev.Actuator.Batch.Safety.{IsSound}
use uperf_linux_rev.Actuator.Examples.Fast.{
  claimed_rig, owning-IsCovered, owning-IsIndexed, owning-IsJournalFor,
}
use uperf_linux_rev.Actuator.Examples.Rig.{
  Rig, full_range, half_range, one_cpu, one_cpu-IsRegistry, rig_platform,
}
use uperf_linux_rev.Core.Domain.{TargetId}
use uperf_linux_rev.Daemon.Reconcile.{Limits, Worker, cap_limits, reconcile_frequencies}
use uperf_linux_rev.Daemon.Reconcile.Envelope.{IsEnveloped, cap_limits-IsEnveloped}
use uperf_linux_rev.Daemon.Reconcile.Safety.{reconcile_frequencies-IsSound}

abbrev worker : Worker Rig
worker = record { machine = claimed_rig; applied = [] }

abbrev wish : Limits
wish = (text "c", full_range) ∷ []

abbrev caps : List (TargetId × ℕ)
caps = (text "c", 4) ∷ []

reconcile_frequencies-IsSound_example :
    IsSound one_cpu (reconcile_frequencies rig_platform one_cpu wish caps worker).1.machine
reconcile_frequencies-IsSound_example =
    reconcile_frequencies-IsSound rig_platform one_cpu one_cpu-IsRegistry wish caps worker
      (record { entries = owning-IsJournalFor; covered = owning-IsCovered }) owning-IsIndexed

abbrev held_wish : Limits
held_wish = (text "c", half_range) ∷ []

cap_limits-IsEnveloped_example : IsEnveloped caps wish held_wish
unfolding cap_limits get insert
cap_limits-IsEnveloped_example =
    cap_limits-IsEnveloped rig_platform one_cpu caps wish held_wish worker worker refl
