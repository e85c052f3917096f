-- ===== src/Actuator/Examples/Targets.antt =====
-- A target with three operating points, its ranges and its writes.
use uperf_linux_rev.Actuator.Target.{
  validate_limits, FrequencyTarget, bad_limits, new, snap_limits, snapped, validate_sysfs_path,
}
use uperf_linux_rev.Actuator.Io.{
  write_ordered, poll, apply_requested_limits, encode_frequency, judge_reading, parse_hertz,
  read_limits, settle_polls, settle_timeout, wait_for_limits, wait_loop,
}
use uperf_linux_rev.Actuator.Machine.{write_string, sleep, read_clock, read_string}
use uperf_linux_rev.Base.Text.{
  is_whitespace, parse_digits, print_from, trim_start, print_u64, trim, parse_u64, same_path,
  components, text, text_key,
}
use uperf_linux_rev.Base.Maps.{insert, get}
use uperf_linux_rev.Base.{◌+◌, ◌≡◌, refl, ◌≢◌, none, [], ◌∷◌, arith, if◌then◌else◌, ok, err}
use uperf_linux_rev.Actuator.Errors.{invalid_limits}
use uperf_linux_rev.Actuator.Examples.Rig.{
  cpu, fresh, full_range, half_range, high_path, low_path, rig-IsClock, rig_platform,
}
use uperf_linux_rev.Actuator.Io.Applied.{IsApplied, apply_requested_limits-IsApplied}
use uperf_linux_rev.Actuator.Io.Roundtrip.{parse_hertz-encode_frequency}
use uperf_linux_rev.Actuator.Io.Timeout.{wait_loop-ends}
use uperf_linux_rev.Actuator.Target.Limits.{IsTarget, after_snap, new-IsTarget, snap_limits_equiv}
use uperf_linux_rev.Actuator.Target.Writable.{IsSnapped, snap_limits-IsSnapped}
use uperf_linux_rev.Actuator.Writes.{transaction_legal_pairs}
use uperf_linux_rev.Actuator.Writes.Legal.{IsLegal, transaction_legal_pairs-IsLegal}
use uperf_linux_rev.Core.Sorting.{dedup, sort_unstable}
use uperf_linux_rev.Core.Units.{new_limits}

sorted_cpu : new (text "c") low_path high_path 2 8 (8 ∷ 2 ∷ 4 ∷ []) ≡ ok cpu
unfolding new validate_sysfs_path components same_path dedup sort_unstable
sorted_cpu = refl

cpu-IsTarget : IsTarget cpu
cpu-IsTarget = new-IsTarget (text "c") low_path high_path 2 8 (8 ∷ 2 ∷ 4 ∷ []) cpu sorted_cpu

new-IsTarget_example : IsTarget cpu
new-IsTarget_example =
    new-IsTarget (text "c") low_path high_path 2 8 (8 ∷ 2 ∷ 4 ∷ []) cpu sorted_cpu

abbrev doubled : FrequencyTarget
doubled = record cpu { hertz_per_unit = 2 }

snap_limits_equiv_example : snap_limits cpu (record { min = 3; max = 7 }) ≡ (
    if bad_limits cpu (record { min = 3; max = 7 })
    then err (invalid_limits cpu.id 3 7)
    else after_snap cpu (record { min = 3; max = 7 }) cpu.opps)
snap_limits_equiv_example = snap_limits_equiv cpu (record { min = 3; max = 7 }) cpu-IsTarget

snap_limits-IsSnapped_example :
    IsSnapped cpu (record { min = 3; max = 7 }) (record { min = 4; max = 4 })
unfolding snap_limits snapped new_limits
snap_limits-IsSnapped_example =
    snap_limits-IsSnapped cpu (record { min = 3; max = 7 }) (record { min = 4; max = 4 })
      cpu-IsTarget refl

transaction_legal_pairs-IsLegal_example :
    IsLegal full_range half_range (transaction_legal_pairs full_range half_range)
transaction_legal_pairs-IsLegal_example =
    transaction_legal_pairs-IsLegal full_range half_range (omega arith) (omega arith)

wait_loop-ends_example :
    (wait_loop rig_platform settle_polls cpu half_range (0 + settle_timeout) fresh).0 ≢ ok none
wait_loop-ends_example =
    wait_loop-ends rig_platform (λ w. w.time) rig-IsClock cpu half_range fresh 0 (omega arith)

parse_hertz-encode_frequency_example : parse_hertz low_path (text "2") doubled.hertz_per_unit ≡ ok 4
unfolding encode_frequency print_u64
parse_hertz-encode_frequency_example =
    parse_hertz-encode_frequency doubled low_path 4 (text "2") (omega arith) refl (omega arith) refl

apply_requested_limits-IsApplied_example :
    IsApplied rig_platform cpu full_range half_range half_range fresh
      (apply_requested_limits rig_platform cpu full_range half_range fresh).1
unfolding apply_requested_limits validate_limits write_ordered encode_frequency write_string
    wait_for_limits read_clock wait_loop judge_reading read_limits read_string parse_hertz parse_u64
    trim get insert print_u64 new_limits poll sleep is_whitespace parse_digits print_from trim_start
apply_requested_limits-IsApplied_example =
    apply_requested_limits-IsApplied rig_platform cpu full_range half_range half_range fresh refl
