-- ===== src/Linux/Input/Ends.antt =====
-- The end of a contact of crates/uperf-linux/src/input.rs, as a consumer counts it.
use uperf_linux_rev.Base.{
  ℕ, ◌+◌, ◌≡◌, refl, sym, ap, ◌∙◌, subst, ◌≢◌, inl, inr, Bool, true, false, Option, none, some,
  List, [], ◌∷◌, arith, ◌==◌, Bool-cases, All,
}
use uperf_linux_rev.Base.Int.{ℤ}
use uperf_linux_rev.Core.Float.{Floats}
use uperf_linux_rev.Linux.Input.{
  Contact, GestureConfig, Point, TouchAxes, TouchContactId, append_finished_contact, down_first,
  finished, gesture, gesture_last, is_gesture, moved, refresh_point, refreshed, touch_down,
  touch_up,
}
use uperf_linux_rev.Linux.Input.Touch.{TouchStateMachine, commit_releases}
use uperf_linux_rev.Linux.Input.Counts.{
  some_zero_add, suc_one, zero_add, same_id, raise_count, lower_count, count_event, then_count,
  count_events-chain, count_events, shown, one, in_releases, IsPlaced,
}

module _ (floats : Floats) (id : ℕ) where
  unlocated :
      (c : Contact floats) (n : ℕ)
      → c.last ≡ none
      → IsPlaced floats c
      → some (one floats id c + n) ≡ some n
  unlocated c n at placed = elim (Bool-cases c.down_emitted) [
    | inl shown_one ↦ let (p, found) = placed shown_one in absurd (nowhere p (sym at ∙ found))
    | inr hidden ↦ rw hidden (some_zero_add n)
  ]
    where
      nowhere : (p : Point floats) → none ≢ some p
      nowhere p h = cc

  closing :
      (same swiped : Bool) (c : TouchContactId) (distance : floats.F) (n : ℕ)
      → then_count floats id
          (lower_count floats id same (shown floats id true same + n))
          (count_events floats id (gesture_last floats swiped (gesture c distance)))
        ≡ some n
  unfolding count_events count_event
  closing true true c distance n =
      subst
        (λ k.
          then_count floats id (lower_count floats id true k)
            (count_events floats id (gesture_last floats true (gesture c distance)))
          ≡ some n)
        (suc_one n) refl
  closing true false c distance n =
      subst
        (λ k.
          then_count floats id (lower_count floats id true k)
            (count_events floats id (gesture_last floats false (gesture c distance)))
          ≡ some n)
        (suc_one n) refl
  closing false true c distance n = some_zero_add n
  closing false false c distance n = some_zero_add n

  opening :
      (same swiped : Bool) (c : TouchContactId) (distance : floats.F) (n : ℕ)
      → then_count floats id (raise_count floats id same n) (λ k.
        then_count floats id
          (lower_count floats id same k)
          (count_events floats id (gesture_last floats swiped (gesture c distance))))
        ≡ some n
  unfolding count_events count_event
  opening true true c distance n = refl
  opening true false c distance n = refl
  opening false true c distance n = refl
  opening false false c distance n = refl

  ends_at :
      (emitted swiped : Bool) (c : TouchContactId) (x y distance : floats.F) (n : ℕ)
      → count_events floats id
          (down_first floats emitted
            (touch_down c x y)
            (touch_up c x y ∷ gesture_last floats swiped (gesture c distance)))
          (shown floats id emitted (same_id floats id c) + n)
        ≡ some n
  unfolding count_events count_event
  ends_at true swiped c x y distance n = closing (same_id floats id c) swiped c distance n
  ends_at false swiped c x y distance n =
      subst
        (λ k.
          count_events floats id
            (touch_down c x y ∷ touch_up c x y ∷ gesture_last floats swiped (gesture c distance)) k
          ≡ some n)
        (sym (zero_add n)) (opening (same_id floats id c) swiped c distance n)

  ends_one :
      (device : ℕ) (config : GestureConfig floats) (c : Contact floats) (o : Option (Point floats))
      (n : ℕ)
      → c.last ≡ o
      → IsPlaced floats c
      → count_events floats id (finished floats device config c o) (one floats id c + n) ≡ some n
  unfolding finished count_events
  ends_one device config c none n at placed = unlocated c n at placed
  ends_one device config c (some p) n at placed =
      ends_at c.down_emitted (is_gesture floats c config)
        (record { device = device; tracking_id = c.tracking_id }) p.x p.y c.maximum_distance n

  -- A refreshed contact keeps its id and whether it was announced, and does not lose its position.
  pub record IsRefreshed (c d : Contact floats) : Type 0 where
    same : d.tracking_id ≡ c.tracking_id
    emitted : d.down_emitted ≡ c.down_emitted
    placed : IsPlaced floats c → IsPlaced floats d

  pub refreshed-IsRefreshed :
      (axes : TouchAxes) (width : floats.F) (c : Contact floats) (x y : Option ℤ)
      → IsRefreshed c (refreshed floats axes width c x y)
  unfolding refreshed moved
  refreshed-IsRefreshed axes width c (some x) (some y) = record {
    same = refl;
    emitted = refl;
    placed = λ h e. (_, refl);
  }
  refreshed-IsRefreshed axes width c (some x) none = record {
    same = refl;
    emitted = refl;
    placed = λ h. h;
  }
  refreshed-IsRefreshed axes width c none y = record {
    same = refl;
    emitted = refl;
    placed = λ h. h;
  }

  pub one-refresh_point :
      (axes : TouchAxes) (width : floats.F) (c : Contact floats)
      → one floats id (refresh_point floats axes width c) ≡ one floats id c
  unfolding refresh_point
  one-refresh_point axes width c =
      let r = refreshed-IsRefreshed axes width c c.raw_x c.raw_y in
      λ i. shown floats id (r.emitted i) (r.same i == id)

  pub refresh_point-IsPlaced :
      (axes : TouchAxes) (width : floats.F) (c : Contact floats)
      → IsPlaced floats c
      → IsPlaced floats (refresh_point floats axes width c)
  unfolding refresh_point
  refresh_point-IsPlaced axes width c = (refreshed-IsRefreshed axes width c c.raw_x c.raw_y).placed

  pub commit_releases-count :
      (m : TouchStateMachine floats) (cs : List (Contact floats)) (n : ℕ)
      → All (IsPlaced floats) cs
      → count_events floats id (commit_releases floats m cs) (in_releases floats id cs + n) ≡ some n
  unfolding commit_releases append_finished_contact count_events
  commit_releases-count m [] n h = some_zero_add n
  commit_releases-count m (c ∷ cs) n (placed, rest) =
      let d = refresh_point floats m.axes m.config.edge_width c in
      count_events-chain floats id (append_finished_contact floats m.device_id m.config d)
        (commit_releases floats m cs) (one floats id c + in_releases floats id cs + n)
        (in_releases floats id cs + n) n
        (subst
          (λ k.
            count_events floats id (append_finished_contact floats m.device_id m.config d) k
            ≡ some (in_releases floats id cs + n))
          (ap (λ k. k + (in_releases floats id cs + n))
              (one-refresh_point m.axes m.config.edge_width c)
            ∙ add_assoc _ _ _)
          (ends_one m.device_id m.config d d.last (in_releases floats id cs + n) refl
            (refresh_point-IsPlaced m.axes m.config.edge_width c placed)))
        (commit_releases-count m cs n rest)
    where
      add_assoc : (a b c : ℕ) → a + (b + c) ≡ a + b + c
      add_assoc a b c = omega arith
