-- ===== src/Linux/Input/Quiet.antt =====
-- The events of `TouchStateMachine` of crates/uperf-linux/src/input.rs that end no frame.
use uperf_linux_rev.Linux.Input.{Contact, int_key, new_contact, refresh_point}
use uperf_linux_rev.Linux.Input.Counts.{
  AreActivePlaced, IsPlaced, count_events, in_releases, in_slot, live, one, one_or_0,
}
use uperf_linux_rev.Linux.Input.Ends.{one-refresh_point, refresh_point-IsPlaced}
use uperf_linux_rev.Linux.Input.Touch.{
  SlotState, TouchStateMachine, active_of, first_of, has_id, position, position_in, release,
  replace, track, track_in, with_slot,
}
use uperf_linux_rev.Base.{
  ℕ, ◌+◌, ◌≡◌, refl, sym, ap, ◌∙◌, true, false, Option, none, some, List, [], ◌∷◌, ◌++◌, arith,
  ◌==◌, All-append, if-cases,
}
use uperf_linux_rev.Base.Int.{ℤ, pos, negsuc}
use uperf_linux_rev.Base.Maps.{get, All-insert, All-get}
use uperf_linux_rev.Core.Float.{Floats}
use uperf_linux_rev.Linux.Input.Frames.{IsFollowed, IsTracked}
use uperf_linux_rev.Linux.Input.Slots.{insert-IsAscending, total-insert, weight_or_0}

module _ (floats : Floats) (id : ℕ) where
  abbrev pub Machine : Type 0
  Machine = TouchStateMachine floats

  -- A change without output that keeps the number of live contacts.
  pub record IsQuiet (m n : Machine) : Type 0 where
    pub same : live floats id n ≡ live floats id m
    pub tracked : IsTracked floats n

  pub quiet-IsFollowed : (m n : Machine) → IsQuiet m n → IsFollowed floats id m ([], n)
  unfolding count_events
  quiet-IsFollowed m n q = record {
    balance = ap {B = Option ℕ} some (sym q.same);
    tracked = q.tracked;
  }

  weight_of_active :
      (o : Option (SlotState floats))
      → weight_or_0 (in_slot floats id) o ≡ one_or_0 floats id (active_of floats o)
  weight_of_active none = refl
  weight_of_active (some s) = refl

  active_placed :
      (m : Machine) (place : ℤ) (o : Option (SlotState floats))
      → get place m.slots ≡ o
      → IsTracked floats m
      → AreActivePlaced floats (active_of floats o)
  active_placed m place none at h = tt
  active_placed m place (some s) at h =
      All-get (λ (e : ℤ × SlotState floats). AreActivePlaced floats e.1.active) place s m.slots
        h.slots at

  with_slot-IsTracked :
      (place : ℤ) (a : Option (Contact floats)) (m : Machine)
      → AreActivePlaced floats a
      → IsTracked floats m
      → IsTracked floats (with_slot floats place a m)
  with_slot-IsTracked place a m placed h = record {
    ascending = insert-IsAscending place (record { active = a }) m.slots h.ascending;
    slots =
        All-insert (λ (e : ℤ × SlotState floats). AreActivePlaced floats e.1.active) place
          (record { active = a }) m.slots placed h.slots;
    releases = h.releases;
  }

  -- The contact of a slot gives way to another.
  with_slot-live :
      (place : ℤ) (a : Option (Contact floats)) (m : Machine)
      → IsTracked floats m
      → live floats id (with_slot floats place a m)
          + one_or_0 floats id (active_of floats (get place m.slots))
        ≡ live floats id m + one_or_0 floats id a
  unfolding live
  with_slot-live place a m h =
      let moved =
        total-insert (in_slot floats id) place (record { active = a }) m.slots h.ascending in
      let old = weight_of_active (get place m.slots) in omega (arith, moved, old)

  in_releases-append :
      (cs : List (Contact floats)) (c : Contact floats)
      → in_releases floats id (cs ++ c ∷ []) ≡ in_releases floats id cs + one floats id c
  in_releases-append [] c = omega arith
  in_releases-append (d ∷ cs) c = omega (arith, in_releases-append cs c)

  release-live :
      (a : Option (Contact floats)) (m : Machine)
      → live floats id (release floats a m) ≡ live floats id m + one_or_0 floats id a
  unfolding live
  release-live none m = omega arith
  release-live (some c) m = omega (arith, in_releases-append m.pending_releases c)

  release-IsTracked :
      (a : Option (Contact floats)) (m : Machine)
      → AreActivePlaced floats a
      → IsTracked floats m
      → IsTracked floats (release floats a m)
  release-IsTracked none m placed h = h
  release-IsTracked (some c) m placed h = record {
    ascending = h.ascending;
    slots = h.slots;
    releases = All-append (IsPlaced floats) m.pending_releases (c ∷ []) h.releases (placed, tt);
  }

  module _ (m : Machine) (h : IsTracked floats m) (place : ℤ) where
    abbrev present : Option (Contact floats)
    present = active_of floats (get place m.slots)

    present_placed : AreActivePlaced floats present
    present_placed = active_placed m place (get place m.slots) refl h

    -- The same number in the slot.
    pub exchanged :
        (a : Option (Contact floats))
        → AreActivePlaced floats a
        → one_or_0 floats id a ≡ one_or_0 floats id present
        → IsQuiet m (with_slot floats place a m)
    exchanged a placed eq = record {
      same = omega (arith, with_slot-live place a m h, eq);
      tracked = with_slot-IsTracked place a m placed h;
    }

    -- The contact of the slot is released, and what takes its place was not announced.
    released :
        (a : Option (Contact floats))
        → AreActivePlaced floats a
        → one_or_0 floats id a ≡ 0
        → IsQuiet m (release floats present (with_slot floats place a m))
    released a placed eq = record {
      same = omega (
        arith,
        with_slot-live place a m h,
        release-live present (with_slot floats place a m),
        eq,
      );
      tracked =
          release-IsTracked present (with_slot floats place a m) present_placed
            (with_slot-IsTracked place a m placed h);
    }

    replace-IsQuiet : (n : ℕ) → IsQuiet m (replace floats place present n m)
    unfolding new_contact replace
    replace-IsQuiet n =
        if-cases (IsQuiet m) (has_id floats n present) (with_slot floats place present m)
          (release floats present (with_slot floats place (some (new_contact floats n)) m))
          (λ same. exchanged present present_placed refl)
          (λ other. released (some (new_contact floats n)) (λ e. absurd (never e)) refl)
      where
        never : false ≡ true → ⊥
        never e = cc

    track-IsQuiet : (value : ℤ) → IsQuiet m (track floats place present value m)
    track-IsQuiet (pos n) = replace-IsQuiet n
    track-IsQuiet (negsuc n) =
        if-cases (IsQuiet m) (n == 0) (release floats present (with_slot floats place none m))
          (with_slot floats place present m) (λ up. released none tt refl)
          (λ other. exchanged present present_placed refl)

    position-IsQuiet :
        (a : Option (Contact floats)) (x y : Option ℤ)
        → AreActivePlaced floats a
        → one_or_0 floats id a ≡ one_or_0 floats id present
        → IsQuiet m (position floats place a x y m)
    unfolding position
    position-IsQuiet none x y placed eq = record { same = refl; tracked = h }
    position-IsQuiet (some c) x y placed eq =
        let d : Contact floats = record c {
          raw_x = first_of floats x c.raw_x;
          raw_y = first_of floats y c.raw_y;
        } in
        exchanged (some (refresh_point floats m.axes m.config.edge_width d))
          (refresh_point-IsPlaced floats id m.axes m.config.edge_width d placed)
          (one-refresh_point floats id m.axes m.config.edge_width d ∙ eq)

  pub unchanged : (m : Machine) → IsTracked floats m → IsQuiet m m
  unchanged m h = record { same = refl; tracked = h }

  pub tracking-IsQuiet :
      (m : Machine) (o : Option ℤ) (value : ℤ)
      → IsTracked floats m
      → IsQuiet m (track_in floats o value m)
  tracking-IsQuiet m none value h = unchanged m h
  tracking-IsQuiet m (some place) value h = track-IsQuiet m h place value

  pub positioned-IsQuiet :
      (m : Machine) (o x y : Option ℤ) → IsTracked floats m → IsQuiet m (position_in floats o x y m)
  positioned-IsQuiet m none x y h = unchanged m h
  positioned-IsQuiet m (some place) x y h =
      position-IsQuiet m h place (present m h place) x y (present_placed m h place) refl
