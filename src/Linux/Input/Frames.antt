-- ===== src/Linux/Input/Frames.antt =====
-- The frames of `TouchStateMachine` of crates/uperf-linux/src/input.rs and what its consumer counts.
use uperf_linux_rev.Linux.Input.Counts.{
  then_count, AreActivePlaced, IsPlaced, count_event, count_events, count_events-chain, in_releases,
  in_slot, live, one, one_or_0, raise_count, shown,
}
use uperf_linux_rev.Linux.Input.Ends.{
  commit_releases-count, one-refresh_point, refresh_point-IsPlaced,
}
use uperf_linux_rev.Base.{
  ℕ, ◌+◌, ◌≡◌, refl, ap, ◌∙◌, subst, Bool, true, false, Option, none, some, List, [], ◌∷◌, arith,
  ◌==◌, All,
}
use uperf_linux_rev.Base.Int.{ℤ}
use uperf_linux_rev.Core.Float.{Floats}
use uperf_linux_rev.Linux.Input.{Contact, InputEvent, Point, int_key, refresh_point}
use uperf_linux_rev.Linux.Input.Slots.{IsAbove, IsAscending, total}
use uperf_linux_rev.Linux.Input.Touch.{
  SlotState, SlotStates, TouchStateMachine, announced, commit_active, commit_frame, commit_releases,
  commit_slots,
}

module _ (floats : Floats) where
  -- The slots are in order, and every announced contact has a position.
  pub record IsTracked (m : TouchStateMachine floats) : Type 0 where
    pub ascending : IsAscending m.slots
    pub slots : All (λ (e : ℤ × SlotState floats). AreActivePlaced floats e.1.active) m.slots
    pub releases : All (IsPlaced floats) m.pending_releases

module _ (floats : Floats) (id : ℕ) where
  -- An announcement raises the count by what the contact then shows.
  announced-count :
      (device : ℕ) (c : Contact floats) (emitted : Bool) (o : Option (Point floats)) (n : ℕ)
      → c.down_emitted ≡ emitted
      → count_events floats id (announced floats device c emitted o).0 (one floats id c + n)
        ≡ some (one floats id (announced floats device c emitted o).1 + n)
  unfolding count_events count_event
  announced-count device c true o n e = refl
  announced-count device c false none n e = refl
  announced-count device c false (some p) n e = rw e (go (c.tracking_id == id))
    where
      go :
          (same : Bool)
          → then_count floats id (raise_count floats id same (0 + n)) (λ k. some k)
            ≡ some (shown floats id true same + n)
      go true = ap {B = Option ℕ} some (omega arith)
      go false = refl

  announced-IsPlaced :
      (device : ℕ) (c : Contact floats) (emitted : Bool) (o : Option (Point floats))
      → c.last ≡ o
      → IsPlaced floats c
      → IsPlaced floats (announced floats device c emitted o).1
  announced-IsPlaced device c true o at h = h
  announced-IsPlaced device c false none at h = h
  announced-IsPlaced device c false (some p) at h = λ e. (p, at)

  committed-count :
      (m : TouchStateMachine floats) (o : Option (Contact floats)) (n : ℕ)
      → AreActivePlaced floats o
      → (count_events floats id (commit_active floats m o).0 (one_or_0 floats id o + n)
          ≡ some (one_or_0 floats id (commit_active floats m o).1 + n))
        × AreActivePlaced floats (commit_active floats m o).1
  unfolding commit_active count_events
  committed-count m none n h = (refl, tt)
  committed-count m (some c) n h =
      let d = refresh_point floats m.axes m.config.edge_width c in
      (
        subst
            (λ k.
              count_events floats id (announced floats m.device_id d d.down_emitted d.last).0
                (k + n)
              ≡ some (one floats id (announced floats m.device_id d d.down_emitted d.last).1 + n))
            (one-refresh_point floats id m.axes m.config.edge_width c)
            (announced-count m.device_id d d.down_emitted d.last n refl),
        announced-IsPlaced m.device_id d d.down_emitted d.last refl
            (refresh_point-IsPlaced floats id m.axes m.config.edge_width c h),
      )

  add_swap : (a b c : ℕ) → a + (b + c) ≡ b + (a + c)
  add_swap a b c = omega arith

  add_assoc : (a b c : ℕ) → a + (b + c) ≡ a + b + c
  add_assoc a b c = omega arith

  commit_slots-count :
      (m : TouchStateMachine floats) (ss : SlotStates floats) (n : ℕ)
      → All (λ (e : ℤ × SlotState floats). AreActivePlaced floats e.1.active) ss
      → (count_events floats id (commit_slots floats m ss).0 (total (in_slot floats id) ss + n)
          ≡ some (total (in_slot floats id) (commit_slots floats m ss).1 + n))
        × All
            (λ (e : ℤ × SlotState floats). AreActivePlaced floats e.1.active)
            (commit_slots floats m ss).1
  unfolding commit_slots count_events
  commit_slots-count m [] n h = (refl, tt)
  commit_slots-count m ((k, s) ∷ ss) n (placed, rest) =
      let here = committed-count m s.active (total (in_slot floats id) ss + n) placed in
      let after = one_or_0 floats id (commit_active floats m s.active).1 in
      let later = commit_slots-count m ss (after + n) rest in
      (
        count_events-chain floats id (commit_active floats m s.active).0
            (commit_slots floats m ss).0
            (one_or_0 floats id s.active + total (in_slot floats id) ss + n)
            (total (in_slot floats id) ss + (after + n))
            (after + total (in_slot floats id) (commit_slots floats m ss).1 + n)
            (subst
              (λ k.
                count_events floats id (commit_active floats m s.active).0 k
                ≡ some (total (in_slot floats id) ss + (after + n)))
              (add_assoc (one_or_0 floats id s.active) (total (in_slot floats id) ss) n)
              (here.0 ∙ ap {B = Option ℕ} some (add_swap after (total (in_slot floats id) ss) n)))
            (later.0
              ∙ ap {B = Option ℕ} some (
                  add_swap (total (in_slot floats id) (commit_slots floats m ss).1) after n
                  ∙ add_assoc after (total (in_slot floats id) (commit_slots floats m ss).1) n)),
        (here.1, later.1),
      )

  commit_slots-IsAscending :
      (m : TouchStateMachine floats) (ss : SlotStates floats)
      → IsAscending ss
      → IsAscending (commit_slots floats m ss).1
  unfolding commit_slots
  commit_slots-IsAscending m [] h = tt
  commit_slots-IsAscending m ((k, s) ∷ ss) (above, rest) =
      (same_keys ss above, commit_slots-IsAscending m ss rest)
    where
      same_keys :
          (rs : SlotStates floats)
          → All (IsAbove k) rs
          → All (IsAbove k) (commit_slots floats m rs).1
      same_keys [] a = tt
      same_keys ((j, t) ∷ rs) (b, a) = (b, same_keys rs a)

  -- The count follows the machine: counting the output of a step from the contacts that were live
  -- before it succeeds with those that are live after it.
  pub record IsFollowed (m : TouchStateMachine floats)
      (out : List (InputEvent floats) × TouchStateMachine floats) : Type 0 where
    pub balance : count_events floats id out.0 (live floats id m) ≡ some (live floats id out.1)
    pub tracked : IsTracked floats out.1

  pub commit_frame-IsFollowed :
      (m : TouchStateMachine floats) → IsTracked floats m → IsFollowed m (commit_frame floats m)
  unfolding commit_frame live
  commit_frame-IsFollowed m h =
      let slots = commit_slots-count m m.slots 0 h.slots in
      let before = total (in_slot floats id) m.slots in
      record {
        balance =
            count_events-chain floats id (commit_releases floats m m.pending_releases)
              (commit_slots floats m m.slots).0 (before + in_releases floats id m.pending_releases)
              (before + 0) (total (in_slot floats id) (commit_slots floats m m.slots).1 + 0)
              (subst
                (λ k.
                  count_events floats id (commit_releases floats m m.pending_releases) k
                  ≡ some (before + 0))
                (omega arith)
                (commit_releases-count floats id m m.pending_releases (before + 0) h.releases))
              slots.0;
        tracked = record {
          ascending = commit_slots-IsAscending m m.slots h.ascending;
          slots = slots.1;
          releases = tt;
        };
      }
