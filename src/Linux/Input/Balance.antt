-- ===== src/Linux/Input/Balance.antt =====
-- `TouchStateMachine` of crates/uperf-linux/src/input.rs and the contacts that its consumer counts.
use uperf_linux_rev.Linux.Input.Rebuild.{
  IsCleared, IsSteady, handle-IsCleared, handle-live, rebuild_from-IsFollowed,
}
use uperf_linux_rev.Linux.Input.Touch.{
  Snapshot, is_report, read_event, rebuild_from, TouchStateMachine, new, handle,
  handle_synchronized, handle_tracking_id, handle_waiting, reset_after_drop, update_position,
}
use uperf_linux_rev.Linux.Input.{
  contains, GestureConfig, TouchAxes, InputEvent, RawTouchEvent, int_key, position_x, position_y,
  resync, slot, sync_dropped, sync_report, tracking,
}
use uperf_linux_rev.Linux.Input.Counts.{count_events-chain, count_event, count_events, live}
use uperf_linux_rev.Base.{
  ℕ, ◌≡◌, refl, false, not, ◌&&◌, Option, none, some, List, [], ◌∷◌, ◌++◌, arith, if◌then◌else◌,
  if-cases, elim-cases,
}
use uperf_linux_rev.Core.Float.{Floats}
use uperf_linux_rev.Linux.Input.Frames.{IsFollowed, IsTracked, commit_frame-IsFollowed}
use uperf_linux_rev.Linux.Input.Quiet.{
  Machine, positioned-IsQuiet, quiet-IsFollowed, tracking-IsQuiet, unchanged,
}

module _ (floats : Floats) where
  -- The output and the machine after a sequence of events, each with the snapshot that would be read
  -- after it.
  unfoldable pub run :
      List (RawTouchEvent × Option Snapshot)
      → TouchStateMachine floats
      → List (InputEvent floats) × TouchStateMachine floats
  run [] m = ([], m)
  run ((e, snapshot) ∷ es) m =
      let (first, next) = read_event floats e snapshot m in
      let (rest, last) = run es next in (first ++ rest, last)

module _ (floats : Floats) (id : ℕ) where
  dropped-IsFollowed :
      (m : Machine floats id)
      → IsTracked floats m
      → IsFollowed floats id m (resync (some m.device_id) ∷ [], reset_after_drop floats m)
  unfolding reset_after_drop count_events count_event live
  dropped-IsFollowed m h = record {
    balance = refl;
    tracked = record { ascending = tt; slots = tt; releases = tt };
  }

  synchronized-IsFollowed :
      (event : RawTouchEvent) (m : Machine floats id)
      → IsTracked floats m
      → IsFollowed floats id m (handle_synchronized floats event m)
  unfolding handle_synchronized handle_tracking_id update_position live
  synchronized-IsFollowed (slot s) m h =
      let n : Machine floats id = record m {
        current_slot = if contains m.axes.slots s then some s else none;
      } in
      quiet-IsFollowed floats id m n (record {
        same = refl;
        tracked = record { ascending = h.ascending; slots = h.slots; releases = h.releases };
      })
  synchronized-IsFollowed (tracking value) m h =
      quiet-IsFollowed floats id m _ (tracking-IsQuiet floats id m m.current_slot value h)
  synchronized-IsFollowed (position_x value) m h =
      quiet-IsFollowed floats id m _
        (positioned-IsQuiet floats id m m.current_slot (some value) none h)
  synchronized-IsFollowed (position_y value) m h =
      quiet-IsFollowed floats id m _
        (positioned-IsQuiet floats id m m.current_slot none (some value) h)
  synchronized-IsFollowed sync_report m h = commit_frame-IsFollowed floats id m h
  synchronized-IsFollowed sync_dropped m h = dropped-IsFollowed m h

  waiting-IsFollowed :
      (event : RawTouchEvent) (m : Machine floats id)
      → IsTracked floats m
      → IsFollowed floats id m (handle_waiting floats event m)
  unfolding handle_waiting live
  waiting-IsFollowed (slot s) m h = quiet-IsFollowed floats id m m (unchanged floats id m h)
  waiting-IsFollowed (tracking value) m h = quiet-IsFollowed floats id m m (unchanged floats id m h)
  waiting-IsFollowed (position_x value) m h =
      quiet-IsFollowed floats id m m (unchanged floats id m h)
  waiting-IsFollowed (position_y value) m h =
      quiet-IsFollowed floats id m m (unchanged floats id m h)
  waiting-IsFollowed sync_report m h =
      let n : Machine floats id = record m { desynchronized = false } in
      quiet-IsFollowed floats id m n (record {
        same = refl;
        tracked = record { ascending = h.ascending; slots = h.slots; releases = h.releases };
      })
  waiting-IsFollowed sync_dropped m h = dropped-IsFollowed m h

  handle-IsFollowed :
      (event : RawTouchEvent) (m : Machine floats id)
      → IsTracked floats m
      → IsFollowed floats id m (handle floats event m)
  unfolding handle
  handle-IsFollowed event m h =
      elim-cases (IsFollowed floats id m) m.desynchronized (handle_waiting floats event m)
        (handle_synchronized floats event m) (λ waiting. waiting-IsFollowed event m h)
        (λ running. synchronized-IsFollowed event m h)

  read_event-IsFollowed :
      (event : RawTouchEvent) (snapshot : Option Snapshot) (m : Machine floats id)
      → IsSteady floats id m
      → IsFollowed floats id m (read_event floats event snapshot m)
        × IsCleared floats id (read_event floats event snapshot m).1
  unfolding read_event
  read_event-IsFollowed event snapshot m h =
      let out = handle floats event m in
      let followed = handle-IsFollowed event m h.tracked in
      let cleared = handle-IsCleared floats id event m h.cleared in
      if-cases
        (λ (o : List (InputEvent floats) × Machine floats id).
          IsFollowed floats id m o × IsCleared floats id o.1)
        (m.desynchronized && is_report event && not out.1.desynchronized)
        (rebuild_from floats snapshot out) out
        (λ report.
          rebuild_from-IsFollowed floats id snapshot m out
            (handle-live floats id event m h.cleared (ground (arith, report))) cleared followed)
        (λ other. (followed, cleared))

  run-IsFollowed :
      (events : List (RawTouchEvent × Option Snapshot)) (m : Machine floats id)
      → IsSteady floats id m
      → IsFollowed floats id m (run floats events m)
  unfolding run
  run-IsFollowed [] m h = quiet-IsFollowed floats id m m (unchanged floats id m h.tracked)
  run-IsFollowed ((e, snapshot) ∷ es) m h =
      let (first, cleared) = read_event-IsFollowed e snapshot m h in
      let out = read_event floats e snapshot m in
      let rest = run-IsFollowed es out.1 (record { tracked = first.tracked; cleared = cleared }) in
      record {
        balance =
            count_events-chain floats id out.0 (run floats es out.1).0 (live floats id m)
              (live floats id out.1) (live floats id (run floats es out.1).1) first.balance
              rest.balance;
        tracked = rest.tracked;
      }

  -- Over every sequence of raw events from a new machine, rebuildings from whatever snapshots
  -- included, a consumer that counts the contacts of a tracking id, up by one when one goes down,
  -- down by one when one goes up, and to zero at a resync, never sees one go up that is not down,
  -- and counts exactly those that the machine still holds as announced.
  pub run-new_balance :
      (device : ℕ) (axes : TouchAxes) (config : GestureConfig floats)
      (events : List (RawTouchEvent × Option Snapshot))
      → count_events floats id (run floats events (new floats device axes config)).0 0
        ≡ some (live floats id (run floats events (new floats device axes config)).1)
  unfolding live new
  run-new_balance device axes config events =
      (run-IsFollowed events (new floats device axes config) (record {
        tracked = record { ascending = tt; slots = tt; releases = tt };
        cleared = λ wait. refl;
      })).balance
