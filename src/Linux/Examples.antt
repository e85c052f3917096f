-- ===== src/Linux/Examples.antt =====
-- A tap with a resync in between.
use uperf_linux_rev.Base.{◌≡◌, Option, none, some, List, [], ◌∷◌}
use uperf_linux_rev.Base.Int.{pos, negsuc}
use uperf_linux_rev.Core.Examples.Load.{naturals}
use uperf_linux_rev.Linux.Input.{
  AxisRange, GestureConfig, RawTouchEvent, TouchAxes, position_x, position_y, slot, sync_dropped,
  sync_report, tracking,
}
use uperf_linux_rev.Linux.Input.Balance.{run, run-new_balance}
use uperf_linux_rev.Linux.Input.Counts.{count_events, live}
use uperf_linux_rev.Linux.Input.Touch.{Snapshot, new}

abbrev range : AxisRange
range = record { minimum = pos 0; maximum = pos 9 }

abbrev axes : TouchAxes
axes = record { x = range; y = range; slots = range }

abbrev config : GestureConfig naturals
config = record { swipe_distance = 1; edge_width = 0 }

abbrev tap : List (RawTouchEvent × Option Snapshot)
tap =
    (slot (pos 1), none)
    ∷ (tracking (pos 5), none)
    ∷ (position_x (pos 3), none)
    ∷ (position_y (pos 4), none)
    ∷ (sync_report, none)
    ∷ (sync_dropped, none)
    ∷ (sync_report, some (pos 5, pos 3, pos 4))
    ∷ (tracking (negsuc 0), none)
    ∷ (sync_report, none)
    ∷ []

run-new_balance_example :
    count_events naturals 5 (run naturals tap (new naturals 3 axes config)).0 0
    ≡ some (live naturals 5 (run naturals tap (new naturals 3 axes config)).1)
run-new_balance_example = run-new_balance naturals 5 3 axes config tap
