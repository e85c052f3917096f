-- ===== src/Linux/Input.antt =====
-- Touch contacts and the events of crates/uperf-linux/src/input.rs and crates/uperf-platform/src/lib.rs.
pub mod Touch
pub mod Slots
pub mod Counts
pub mod Ends
pub mod Frames
pub mod Quiet
pub mod Rebuild
pub mod Balance
use uperf_linux_rev.Base.{
  ℕ, zero, suc, ◌+◌, ◌-◌, ◌*◌, ◌/◌, ◌%◌, ◌^◌, ◌≤◌, ◌<◌, min, max, ◌≡◌, refl, sym, ap, ◌∙◌, subst,
  ◌≢◌, ◌↔◌, ◌⊎◌, inl, inr, Bool, true, false, not, ◌&&◌, ◌||◌, Option, none, some, List, [], ◌∷◌,
  ◌++◌, map, arith, ltb, leb, ◌==◌, if◌then◌else◌, ltb→lt, leb→le, le→leb, ==_iff, Bool-cases,
  Option-cases, is_some, some_or, Result, ok, err, ok_or, Result-cases, &&-true, length,
  length-append, any, all, find, keep, All, In, All-append, All-keep, All-of-keep, All-In, In-keep,
  keep-In, ok_of_guard, ok-injective, ok-ne-err, or-false, if-cases, elim-cases, if-true, if-false,
}
use uperf_linux_rev.Base.Int.{ℤ, leℤ, pos, negsuc}
use uperf_linux_rev.Base.Maps.{Key}
use uperf_linux_rev.Core.Float.{Floats}

-- `i32` and `i64` keys.
abbrev pub same_ℤ : ℤ → ℤ → Bool
same_ℤ (pos a) (pos b) = a == b
same_ℤ (negsuc a) (negsuc b) = a == b
same_ℤ (pos a) (negsuc b) = false
same_ℤ (negsuc a) (pos b) = false

abbrev pub before_ℤ : ℤ → ℤ → Bool
before_ℤ (pos a) (pos b) = ltb a b
before_ℤ (negsuc a) (negsuc b) = ltb b a
before_ℤ (pos a) (negsuc b) = false
before_ℤ (negsuc a) (pos b) = true

pub same_ℤ_iff : (a b : ℤ) → (same_ℤ a b ≡ true) ↔ (a ≡ b)
same_ℤ_iff (pos a) (pos b) = ground arith
same_ℤ_iff (negsuc a) (negsuc b) = ground arith
same_ℤ_iff (pos a) (negsuc b) = ground arith
same_ℤ_iff (negsuc a) (pos b) = ground arith

instance abbrev pub int_key : Key ℤ
int_key = record { same = same_ℤ; before = before_ℤ; same_iff = same_ℤ_iff }

pub record AxisRange : Type 0 where
  pub minimum : ℤ
  pub maximum : ℤ

-- `AxisRange::contains`.
unfoldable pub contains : AxisRange → ℤ → Bool
contains range value = leℤ range.minimum value && leℤ value range.maximum

pub record TouchAxes : Type 0 where
  pub x : AxisRange
  pub y : AxisRange
  pub slots : AxisRange

pub record TouchContactId : Type 0 where
  pub device : ℕ
  pub tracking_id : ℕ

pub data RawTouchEvent : Type 0 where
  slot tracking position_x position_y : ℤ → RawTouchEvent
  sync_report sync_dropped : RawTouchEvent

module _ (floats : Floats) where
  open floats use {F, zero, one, add, sub, div, ge, le, of_i32, hypot}

  -- `AxisRange::normalize`.
  unfoldable pub normalize : AxisRange → ℤ → F
  normalize range value =
      if same_ℤ range.maximum range.minimum
      then zero
      else floats.clamp
          (div (sub (of_i32 value) (of_i32 range.minimum))
            (sub (of_i32 range.maximum) (of_i32 range.minimum)))
          zero one

  pub record GestureConfig : Type 0 where
    pub swipe_distance : F
    pub edge_width : F

  pub data InputEvent : Type 0 where
    touch_down touch_up : TouchContactId → F → F → InputEvent
    gesture : TouchContactId → F → InputEvent
    interaction : ℕ → InputEvent
    resync : Option ℕ → InputEvent

  pub record Point : Type 0 where
    pub x : F
    pub y : F

  pub record Contact : Type 0 where
    pub tracking_id : ℕ
    pub raw_x : Option ℤ
    pub raw_y : Option ℤ
    pub start : Option Point
    pub last : Option Point
    pub maximum_distance : F
    pub maximum_edge_inward : F
    pub down_emitted : Bool

  -- `Contact::new`.
  unfoldable pub new_contact : ℕ → Contact
  new_contact id = record {
    tracking_id = id;
    raw_x = none;
    raw_y = none;
    start = none;
    last = none;
    maximum_distance = zero;
    maximum_edge_inward = zero;
    down_emitted = false;
  }

  -- `edge_inward_distance`: each edge that the start lies at may raise the maximum.
  abbrev raised : Bool → F → F → F
  raised near distance maximum = if near then floats.max maximum distance else maximum

  unfoldable pub edge_inward_distance : Point → Point → F → F
  edge_inward_distance start current width =
      if le width zero
      then zero
      else floats.max
          (raised (ge start.y (sub one width)) (sub start.y current.y) (
            raised (le start.y width) (sub current.y start.y) (
              raised (ge start.x (sub one width)) (sub start.x current.x)
                (raised (le start.x width) (sub current.x start.x) zero))))
          zero

  -- `Point::distance`.
  unfoldable pub distance : Point → Point → F
  distance a b = hypot (sub a.x b.x) (sub a.y b.y)

  -- A contact with both coordinates, seen at a point.
  unfoldable pub moved : F → Point → Contact → Contact
  unfolding distance edge_inward_distance
  moved width point c =
      let start = some_or c.start point in
      record c {
        start = some start;
        last = some point;
        maximum_distance = floats.max c.maximum_distance (distance start point);
        maximum_edge_inward =
            floats.max c.maximum_edge_inward (edge_inward_distance start point width);
      }

  unfoldable pub refreshed : TouchAxes → F → Contact → Option ℤ → Option ℤ → Contact
  unfolding normalize moved
  refreshed axes width c (some raw_x) (some raw_y) =
      moved width (record { x = normalize axes.x raw_x; y = normalize axes.y raw_y }) c
  refreshed axes width c none y = c
  refreshed axes width c (some raw_x) none = c

  -- `Contact::refresh_point`.
  unfoldable pub refresh_point : TouchAxes → F → Contact → Contact
  unfolding refreshed
  refresh_point axes width c = refreshed axes width c c.raw_x c.raw_y

  -- `Contact::is_gesture`.
  unfoldable pub is_gesture : Contact → GestureConfig → Bool
  is_gesture c config =
      if ge c.maximum_distance config.swipe_distance
      then true
      else if le config.edge_width zero
      then false
      else ge c.maximum_edge_inward (floats.min config.swipe_distance config.edge_width)

  -- `append_finished_contact`, the events that it appends.
  abbrev down_first : Bool → InputEvent → List InputEvent → List InputEvent
  down_first emitted down events = if emitted then events else down ∷ events

  abbrev gesture_last : Bool → InputEvent → List InputEvent
  gesture_last swiped event = if swiped then event ∷ [] else []

  unfoldable pub finished : ℕ → GestureConfig → Contact → Option Point → List InputEvent
  unfolding is_gesture
  finished device config c none = []
  finished device config c (some p) =
      let id : TouchContactId = record { device = device; tracking_id = c.tracking_id } in
      down_first c.down_emitted (touch_down id p.x p.y)
        (touch_up id p.x p.y ∷ gesture_last (is_gesture c config) (gesture id c.maximum_distance))

  unfoldable pub append_finished_contact : ℕ → GestureConfig → Contact → List InputEvent
  unfolding finished
  append_finished_contact device config c = finished device config c c.last
