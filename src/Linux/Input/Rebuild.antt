-- ===== src/Linux/Input/Rebuild.antt =====
-- The wait after a drop and `rebuild_single_slot` of crates/uperf-linux/src/input.rs.
use uperf_linux_rev.Base.{
  ℕ, ◌≡◌, refl, sym, ap, ◌∙◌, subst, Bool, true, false, Option, none, some, List, [], ◌==◌,
  if-cases, elim-cases,
}
use uperf_linux_rev.Base.Int.{ℤ, pos, negsuc}
use uperf_linux_rev.Base.Maps.{get}
use uperf_linux_rev.Core.Float.{Floats}
use uperf_linux_rev.Linux.Input.{
  Contact, InputEvent, RawTouchEvent, int_key, new_contact, position_x, position_y, slot,
  sync_dropped, sync_report, tracking,
}
use uperf_linux_rev.Linux.Input.Counts.{count_events, count_events-chain, live, one_or_0}
use uperf_linux_rev.Linux.Input.Frames.{IsFollowed, IsTracked, commit_frame-IsFollowed}
use uperf_linux_rev.Linux.Input.Quiet.{exchanged, quiet-IsFollowed}
use uperf_linux_rev.Linux.Input.Touch.{
  Snapshot, TouchStateMachine, active_of, commit_frame, handle, handle_synchronized,
  handle_tracking_id, handle_waiting, has_id, position, position_in, rebuild_from,
  rebuild_single_slot, rebuilt, release, replace, reset_after_drop, track, track_in, u32_of,
  update_position, with_slot,
}

true-false : (b : Bool) → b ≡ false → b ≡ true → ⊥
true-false b h k = cc

module _ (floats : Floats) where
  -- The wait is not touched.
  abbrev KeepsWait : TouchStateMachine floats → TouchStateMachine floats → Type 0
  KeepsWait m n = n.desynchronized ≡ m.desynchronized

  release-KeepsWait :
      (a : Option (Contact floats)) (m n : TouchStateMachine floats)
      → KeepsWait m n
      → KeepsWait m (release floats a n)
  release-KeepsWait none m n h = h
  release-KeepsWait (some c) m n h = h

  track-KeepsWait :
      (place : ℤ) (a : Option (Contact floats)) (value : ℤ) (m : TouchStateMachine floats)
      → KeepsWait m (track floats place a value m)
  unfolding replace new_contact
  track-KeepsWait place a (pos n) m =
      let next = with_slot floats place (some (new_contact floats n)) m in
      if-cases (KeepsWait m) (has_id floats n a) (with_slot floats place a m)
        (release floats a next) (λ same. refl) (λ other. release-KeepsWait a m next refl)
  track-KeepsWait place a (negsuc n) m =
      let next = with_slot floats place none m in
      if-cases (KeepsWait m) (n == 0) (release floats a next) (with_slot floats place a m)
        (λ up. release-KeepsWait a m next refl) (λ other. refl)

  track_in-KeepsWait :
      (o : Option ℤ) (value : ℤ) (m : TouchStateMachine floats)
      → KeepsWait m (track_in floats o value m)
  track_in-KeepsWait none value m = refl
  track_in-KeepsWait (some place) value m =
      track-KeepsWait place (active_of floats (get place m.slots)) value m

  position-KeepsWait :
      (place : ℤ) (a : Option (Contact floats)) (x y : Option ℤ) (m : TouchStateMachine floats)
      → KeepsWait m (position floats place a x y m)
  unfolding position
  position-KeepsWait place none x y m = refl
  position-KeepsWait place (some c) x y m = refl

  position_in-KeepsWait :
      (o x y : Option ℤ) (m : TouchStateMachine floats) → KeepsWait m (position_in floats o x y m)
  position_in-KeepsWait none x y m = refl
  position_in-KeepsWait (some place) x y m =
      position-KeepsWait place (active_of floats (get place m.slots)) x y m

module _ (floats : Floats) (id : ℕ) where
  abbrev pub IsCleared : TouchStateMachine floats → Type 0
  IsCleared m = m.desynchronized ≡ true → live floats id m ≡ 0

  running-IsCleared :
      (event : RawTouchEvent) (m : TouchStateMachine floats)
      → m.desynchronized ≡ false
      → IsCleared (handle_synchronized floats event m).1
  unfolding handle_synchronized handle_tracking_id update_position commit_frame reset_after_drop
      live
  running-IsCleared (slot s) m run wait = absurd (true-false m.desynchronized run wait)
  running-IsCleared (tracking value) m run wait =
      absurd (true-false _ (track_in-KeepsWait floats m.current_slot value m ∙ run) wait)
  running-IsCleared (position_x value) m run wait =
      absurd
        (true-false _ (position_in-KeepsWait floats m.current_slot (some value) none m ∙ run) wait)
  running-IsCleared (position_y value) m run wait =
      absurd
        (true-false _ (position_in-KeepsWait floats m.current_slot none (some value) m ∙ run) wait)
  running-IsCleared sync_report m run wait = absurd (true-false m.desynchronized run wait)
  running-IsCleared sync_dropped m run wait = refl

  waiting-live :
      (event : RawTouchEvent) (m : TouchStateMachine floats)
      → live floats id m ≡ 0
      → live floats id (handle_waiting floats event m).1 ≡ 0
  unfolding handle_waiting reset_after_drop live
  waiting-live (slot s) m h = h
  waiting-live (tracking value) m h = h
  waiting-live (position_x value) m h = h
  waiting-live (position_y value) m h = h
  waiting-live sync_report m h = h
  waiting-live sync_dropped m h = refl

  pub handle-IsCleared :
      (event : RawTouchEvent) (m : TouchStateMachine floats)
      → IsCleared m
      → IsCleared (handle floats event m).1
  unfolding handle
  handle-IsCleared event m h =
      elim-cases (λ (out : List (InputEvent floats) × TouchStateMachine floats). IsCleared out.1)
        m.desynchronized (handle_waiting floats event m) (handle_synchronized floats event m)
        (λ waiting wait. waiting-live event m (h waiting)) (λ run. running-IsCleared event m run)

  -- Nothing is live behind an event in the wait.
  pub handle-live :
      (event : RawTouchEvent) (m : TouchStateMachine floats)
      → IsCleared m
      → m.desynchronized ≡ true
      → live floats id (handle floats event m).1 ≡ 0
  unfolding handle
  handle-live event m h wait =
      elim-cases
        (λ (out : List (InputEvent floats) × TouchStateMachine floats). live floats id out.1 ≡ 0)
        m.desynchronized (handle_waiting floats event m) (handle_synchronized floats event m)
        (λ waiting. waiting-live event m (h waiting))
        (λ run. absurd (true-false m.desynchronized run wait))

  from_none :
      (m n : TouchStateMachine floats) (out : List (InputEvent floats) × TouchStateMachine floats)
      → live floats id m ≡ live floats id n
      → IsFollowed floats id n out
      → IsFollowed floats id m out
  from_none m n out h f = record {
    balance =
        subst (λ k. count_events floats id out.0 k ≡ some (live floats id out.1)) (sym h) f.balance;
    tracked = f.tracked;
  }

  rebuilt-IsFollowed :
      (o : Option ℕ) (x y : ℤ) (m : TouchStateMachine floats)
      → m.slots ≡ []
      → IsTracked floats m
      → IsFollowed floats id m (rebuilt floats o x y m)
  unfolding rebuilt new_contact get
  rebuilt-IsFollowed none x y m empty h =
      quiet-IsFollowed floats id m m (record { same = refl; tracked = h })
  rebuilt-IsFollowed (some n) x y m empty h =
      let c : Contact floats = record (new_contact floats n) { raw_x = some x; raw_y = some y } in
      let place = m.axes.slots.minimum in
      let q =
        exchanged floats id m h place (some c) (λ e. absurd (true-false false refl e))
          (ap (λ ss. one_or_0 floats id (active_of floats (get place ss))) (sym empty)) in
      let next = with_slot floats place (some c) m in
      from_none m next (commit_frame floats next) (sym q.same)
        (commit_frame-IsFollowed floats id next q.tracked)

  rebuilt-KeepsWait :
      (o : Option ℕ) (x y : ℤ) (m : TouchStateMachine floats)
      → (rebuilt floats o x y m).1.desynchronized ≡ m.desynchronized
  unfolding rebuilt commit_frame
  rebuilt-KeepsWait none x y m = refl
  rebuilt-KeepsWait (some n) x y m = refl

  -- Where nothing is live, a rebuilding is followed too, and ends the wait.
  pub rebuild_single_slot-IsFollowed :
      (value x y : ℤ) (m : TouchStateMachine floats)
      → live floats id m ≡ 0
      → IsFollowed floats id m (rebuild_single_slot floats value x y m)
        × IsCleared (rebuild_single_slot floats value x y m).1
  unfolding rebuild_single_slot live
  rebuild_single_slot-IsFollowed value x y m h =
      let start : TouchStateMachine floats = record m {
        slots = [];
        pending_releases = [];
        current_slot = some m.axes.slots.minimum;
        desynchronized = false;
      } in
      (
        from_none m start _ h (
            rebuilt-IsFollowed (u32_of floats value) x y start refl
              (record { ascending = tt; slots = tt; releases = tt })),
        λ wait. absurd (true-false _ (rebuilt-KeepsWait (u32_of floats value) x y start) wait),
      )

  -- The state between two events.
  pub record IsSteady (m : TouchStateMachine floats) : Type 0 where
    pub tracked : IsTracked floats m
    pub cleared : IsCleared m

  pub rebuild_from-IsFollowed :
      (snapshot : Option Snapshot) (m : TouchStateMachine floats)
      (out : List (InputEvent floats) × TouchStateMachine floats)
      → live floats id out.1 ≡ 0
      → IsCleared out.1
      → IsFollowed floats id m out
      → IsFollowed floats id m (rebuild_from floats snapshot out)
        × IsCleared (rebuild_from floats snapshot out).1
  unfolding rebuild_from
  rebuild_from-IsFollowed none m out zero_live cleared h = (h, cleared)
  rebuild_from-IsFollowed (some (value, x, y)) m (events, n) zero_live cleared h =
      let (f, running) = rebuild_single_slot-IsFollowed value x y n zero_live in
      (
        record {
          balance =
              count_events-chain floats id events (rebuild_single_slot floats value x y n).0
                (live floats id m) (live floats id n)
                (live floats id (rebuild_single_slot floats value x y n).1) h.balance f.balance;
          tracked = f.tracked;
        },
        running,
      )
