-- ===== src/Linux/Input/Touch.antt =====
-- `TouchStateMachine` of crates/uperf-linux/src/input.rs. A handled event gives its output and the
-- machine after it.
use uperf_linux_rev.Base.{
  ℕ, Bool, true, false, not, ◌&&◌, Option, none, some, List, [], ◌∷◌, ◌++◌, ◌==◌, if◌then◌else◌,
}
use uperf_linux_rev.Base.Int.{ℤ, pos, negsuc}
use uperf_linux_rev.Base.Maps.{get, insert}
use uperf_linux_rev.Core.Float.{Floats}
use uperf_linux_rev.Linux.Input.{
  Contact, GestureConfig, InputEvent, RawTouchEvent, TouchAxes, Point, append_finished_contact,
  contains, int_key, new_contact, position_x, position_y, refresh_point, resync, slot, sync_dropped,
  sync_report, touch_down, tracking,
}

-- What the kernel says of the one slot of a device: tracking id and coordinates.
abbrev pub Snapshot : Type 0
Snapshot = ℤ × ℤ × ℤ

abbrev pub is_report : RawTouchEvent → Bool
is_report (slot s) = false
is_report (tracking id) = false
is_report (position_x value) = false
is_report (position_y value) = false
is_report sync_report = true
is_report sync_dropped = false

module _ (floats : Floats) where
  open floats use {F}

  pub record SlotState : Type 0 where
    pub active : Option (Contact floats)

  abbrev pub SlotStates : Type 0
  SlotStates = List (ℤ × SlotState)

  pub record TouchStateMachine : Type 0 where
    pub device_id : ℕ
    pub axes : TouchAxes
    pub config : GestureConfig floats
    pub current_slot : Option ℤ
    pub slots : SlotStates
    pub pending_releases : List (Contact floats)
    pub desynchronized : Bool

  -- `TouchStateMachine::new`.
  unfoldable pub new : ℕ → TouchAxes → GestureConfig floats → TouchStateMachine
  new device axes config = record {
    device_id = device;
    axes = axes;
    config = config;
    current_slot = some axes.slots.minimum;
    slots = [];
    pending_releases = [];
    desynchronized = false;
  }

  unfoldable pub reset_after_drop : TouchStateMachine → TouchStateMachine
  reset_after_drop m = record m {
    slots = [];
    pending_releases = [];
    current_slot = some m.axes.slots.minimum;
    desynchronized = true;
  }

  -- `u32::try_from`.
  abbrev pub u32_of : ℤ → Option ℕ
  u32_of (pos n) = some n
  u32_of (negsuc n) = none

  abbrev pub active_of : Option SlotState → Option (Contact floats)
  active_of none = none
  active_of (some s) = s.active

  -- `slots.entry(id).or_default()`, left with this contact.
  abbrev pub with_slot : ℤ → Option (Contact floats) → TouchStateMachine → TouchStateMachine
  with_slot id active m = record m { slots = insert id (record { active = active }) m.slots }

  abbrev pub release : Option (Contact floats) → TouchStateMachine → TouchStateMachine
  release none m = m
  release (some c) m = record m { pending_releases = m.pending_releases ++ c ∷ [] }

  abbrev pub has_id : ℕ → Option (Contact floats) → Bool
  has_id id none = false
  has_id id (some c) = c.tracking_id == id

  -- A new contact in the slot, unless it is the one that is there.
  unfoldable pub replace : ℤ → Option (Contact floats) → ℕ → TouchStateMachine → TouchStateMachine
  unfolding new_contact
  replace place active id m =
      if has_id id active
      then with_slot place active m
      else release active (with_slot place (some (new_contact floats id)) m)

  abbrev pub track : ℤ → Option (Contact floats) → ℤ → TouchStateMachine → TouchStateMachine
  track place active (negsuc n) m =
      if n == 0 then release active (with_slot place none m) else with_slot place active m
  track place active (pos id) m = replace place active id m

  abbrev pub track_in : Option ℤ → ℤ → TouchStateMachine → TouchStateMachine
  track_in none value m = m
  track_in (some place) value m = track place (active_of (get place m.slots)) value m

  unfoldable pub handle_tracking_id : ℤ → TouchStateMachine → TouchStateMachine
  handle_tracking_id value m = track_in m.current_slot value m

  abbrev pub first_of : Option ℤ → Option ℤ → Option ℤ
  first_of (some a) b = some a
  first_of none b = b

  unfoldable pub position :
      ℤ → Option (Contact floats) → Option ℤ → Option ℤ → TouchStateMachine → TouchStateMachine
  unfolding refresh_point
  position place none x y m = m
  position place (some c) x y m =
      with_slot place
        (some (
          refresh_point floats m.axes m.config.edge_width
            (record c { raw_x = first_of x c.raw_x; raw_y = first_of y c.raw_y })))
        m

  abbrev pub position_in : Option ℤ → Option ℤ → Option ℤ → TouchStateMachine → TouchStateMachine
  position_in none x y m = m
  position_in (some place) x y m = position place (active_of (get place m.slots)) x y m

  unfoldable pub update_position : Option ℤ → Option ℤ → TouchStateMachine → TouchStateMachine
  update_position x y m = position_in m.current_slot x y m

  -- The releases of a frame, in order.
  unfoldable pub commit_releases :
      TouchStateMachine → List (Contact floats) → List (InputEvent floats)
  unfolding append_finished_contact refresh_point
  commit_releases m [] = []
  commit_releases m (c ∷ cs) =
      append_finished_contact floats m.device_id m.config
        (refresh_point floats m.axes m.config.edge_width c)
      ++ commit_releases m cs

  abbrev pub announced :
      ℕ → Contact floats → Bool → Option (Point floats) → List (InputEvent floats) × Contact floats
  announced device c false (some p) = (
    touch_down (record { device = device; tracking_id = c.tracking_id }) p.x p.y ∷ [],
    record c { down_emitted = true },
  )
  announced device c false none = ([], c)
  announced device c true p = ([], c)

  -- An active contact that is not shown yet goes down.
  unfoldable pub commit_active :
      TouchStateMachine
      → Option (Contact floats)
      → List (InputEvent floats) × Option (Contact floats)
  unfolding refresh_point
  commit_active m none = ([], none)
  commit_active m (some c) =
      let d = refresh_point floats m.axes m.config.edge_width c in
      let (events, e) = announced m.device_id d d.down_emitted d.last in (events, some e)

  unfoldable pub commit_slots :
      TouchStateMachine → SlotStates → List (InputEvent floats) × SlotStates
  unfolding commit_active
  commit_slots m [] = ([], [])
  commit_slots m ((id, s) ∷ rest) =
      let (events, active) = commit_active m s.active in
      let (later, states) = commit_slots m rest in
      (events ++ later, (id, record { active = active }) ∷ states)

  unfoldable pub commit_frame : TouchStateMachine → List (InputEvent floats) × TouchStateMachine
  unfolding commit_releases commit_slots
  commit_frame m =
      let (events, states) = commit_slots m m.slots in
      (
        commit_releases m m.pending_releases ++ events,
        record m { pending_releases = []; slots = states },
      )

  -- An event outside the wait after a drop.
  unfoldable pub handle_synchronized :
      RawTouchEvent → TouchStateMachine → List (InputEvent floats) × TouchStateMachine
  unfolding handle_tracking_id update_position commit_frame contains reset_after_drop
  handle_synchronized (slot s) m =
      ([], record m { current_slot = if contains m.axes.slots s then some s else none })
  handle_synchronized (tracking id) m = ([], handle_tracking_id id m)
  handle_synchronized (position_x value) m = ([], update_position (some value) none m)
  handle_synchronized (position_y value) m = ([], update_position none (some value) m)
  handle_synchronized sync_report m = commit_frame m
  handle_synchronized sync_dropped m = (resync (some m.device_id) ∷ [], reset_after_drop m)

  -- An event while the machine waits for the next report.
  unfoldable pub handle_waiting :
      RawTouchEvent → TouchStateMachine → List (InputEvent floats) × TouchStateMachine
  unfolding reset_after_drop
  handle_waiting (slot s) m = ([], m)
  handle_waiting (tracking id) m = ([], m)
  handle_waiting (position_x value) m = ([], m)
  handle_waiting (position_y value) m = ([], m)
  handle_waiting sync_report m = ([], record m { desynchronized = false })
  handle_waiting sync_dropped m = (resync (some m.device_id) ∷ [], reset_after_drop m)

  unfoldable pub handle :
      RawTouchEvent → TouchStateMachine → List (InputEvent floats) × TouchStateMachine
  unfolding handle_synchronized
  handle event m = elim m.desynchronized [
    | true ↦ handle_waiting event m
    | false ↦ handle_synchronized event m
  ]

  -- `rebuild_single_slot`.
  unfoldable pub rebuilt :
      Option ℕ → ℤ → ℤ → TouchStateMachine → List (InputEvent floats) × TouchStateMachine
  unfolding commit_frame new_contact
  rebuilt none x y m = ([], m)
  rebuilt (some id) x y m = commit_frame (
      with_slot m.axes.slots.minimum
        (some (record (new_contact floats id) { raw_x = some x; raw_y = some y })) m)

  unfoldable pub rebuild_single_slot :
      ℤ → ℤ → ℤ → TouchStateMachine → List (InputEvent floats) × TouchStateMachine
  rebuild_single_slot value x y m = rebuilt (u32_of value) x y (record m {
    slots = [];
    pending_releases = [];
    current_slot = some m.axes.slots.minimum;
    desynchronized = false;
  })

  unfoldable pub rebuild_from :
      Option Snapshot
      → List (InputEvent floats) × TouchStateMachine
      → List (InputEvent floats) × TouchStateMachine
  unfolding rebuild_single_slot
  rebuild_from none out = out
  rebuild_from (some (value, x, y)) (events, m) =
      let (more, n) = rebuild_single_slot value x y m in (events ++ more, n)

  -- One event in `OpenInputDevice::read_available`, with the snapshot that would be read after it.
  unfoldable pub read_event :
      RawTouchEvent
      → Option Snapshot
      → TouchStateMachine
      → List (InputEvent floats) × TouchStateMachine
  unfolding handle rebuild_from
  read_event event snapshot m =
      let out = handle event m in
      if m.desynchronized && is_report event && not out.1.desynchronized
      then rebuild_from snapshot out
      else out
