-- ===== src/Core/Examples/Thermal.antt =====
-- A guard with thresholds at 70, 80 and 90 degrees, five degrees of hysteresis and a dwell of 100
-- ms.
use uperf_linux_rev.Base.Int.{◌-ℤ◌, sub_i64, ℤ, pos}
use uperf_linux_rev.Core.Thermal.{
  throttled, warning, normal, ThermalGuard, ThermalState, ThermalThresholds, accept,
  candidate_state, classify_temperature, debounce, degraded, new, update,
}
use uperf_linux_rev.Base.{ℕ, ◌-◌, ◌≤◌, ◌≡◌, refl, ◌⊎◌, inr, none, some, List, [], ◌∷◌, arith}
use uperf_linux_rev.Core.Thermal.Dwell.{
  Waits, end_time, run, run-new-Waits, update-dwells, update-settles,
}
use uperf_linux_rev.Core.Thermal.Safety.{Cooled, IsTrusted, update-fails_closed, update-recovers}
use uperf_linux_rev.Core.Units.{ThermalReading, healthy}

abbrev thresholds : ThermalThresholds
thresholds = record {
  warning = pos 70000;
  throttled = pos 80000;
  critical = pos 90000;
  hysteresis = pos 5000;
  dwell_ms = 100;
  stale_after_ms = 1000;
}

abbrev guard_in : ThermalState → ThermalGuard
guard_in s = record { thresholds = thresholds; state = s; pending = none }

abbrev reading : ℕ → ℕ → ThermalReading
reading temperature at = record {
  temperature = some (pos temperature);
  sampled_at = at;
  health = healthy;
}

abbrev lost : ThermalReading
lost = record { temperature = none; sampled_at = 10; health = healthy }

update-fails_closed_example :
    ((update (guard_in throttled) 20 lost).state ≡ degraded)
    × ((update (guard_in throttled) 20 lost).pending ≡ none)
update-fails_closed_example =
    update-fails_closed (guard_in throttled) 20 lost (inr (inr (inr refl)))

abbrev waiting_guard : ThermalGuard
waiting_guard = record { thresholds = thresholds; state = throttled; pending = some (normal, 10) }

update-recovers_example :
    (t : ℤ) × IsTrusted waiting_guard 200 (reading 60000 190) t × Cooled waiting_guard t
unfolding update accept debounce candidate_state classify_temperature sub_i64 ◌-ℤ◌
update-recovers_example =
    update-recovers waiting_guard 200 (reading 60000 190) (ground arith) (omega arith)

abbrev warming : List (ℕ × ThermalReading)
warming = (20, reading 75000 10) ∷ (200, reading 75000 190) ∷ []

run-new-Waits_example :
    Waits
      (run (new thresholds) warming).state
      (end_time 0 warming)
      (run (new thresholds) warming).pending
run-new-Waits_example = run-new-Waits thresholds 0 warming (omega arith, (omega arith, tt))

abbrev warm_guard : ThermalGuard
warm_guard = record { thresholds = thresholds; state = normal; pending = some (warning, 20) }

update-dwells_example :
    (warm_guard.thresholds.dwell_ms ≡ 0)
    ⊎ ((since : ℕ) × (warm_guard.pending
          ≡ some ((update warm_guard 200 (reading 75000 190)).state, since))
        × (warm_guard.thresholds.dwell_ms ≤ 200 - since))
unfolding update accept debounce candidate_state classify_temperature
update-dwells_example =
    update-dwells warm_guard 200 (reading 75000 190) (ground arith) (ground arith) (ground arith)

update-settles_example :
    (update (update (guard_in normal) 20 (reading 75000 10)) 200 (reading 75000 190)).state
    ≡ warning
unfolding candidate_state classify_temperature
update-settles_example =
    update-settles (guard_in normal) 20 200 (reading 75000 10) (reading 75000 190) (pos 75000)
      (pos 75000) warning (omega arith) (omega arith) refl
      (record { health = refl; past = omega arith; fresh = omega arith; present = refl })
      (record { health = refl; past = omega arith; fresh = omega arith; present = refl })
      (ground arith) (ground arith) refl refl
