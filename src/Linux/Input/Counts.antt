-- ===== src/Linux/Input/Counts.antt =====
-- What a consumer of `TouchStateMachine` of crates/uperf-linux/src/input.rs counts.
use uperf_linux_rev.Base.{
  ℕ, zero, suc, ◌+◌, ◌≡◌, refl, ap, ◌∙◌, Bool, true, false, ◌&&◌, Option, none, some, List, [], ◌∷◌,
  ◌++◌, arith, ◌==◌, if◌then◌else◌,
}
use uperf_linux_rev.Core.Float.{Floats}
use uperf_linux_rev.Linux.Input.{
  Contact, InputEvent, Point, TouchContactId, gesture, interaction, resync, touch_down, touch_up,
}
use uperf_linux_rev.Linux.Input.Slots.{total}
use uperf_linux_rev.Linux.Input.Touch.{SlotState, TouchStateMachine}

pub zero_add : (n : ℕ) → 0 + n ≡ n
zero_add n = omega arith

pub suc_one : (n : ℕ) → suc n ≡ 1 + n
suc_one n = omega arith

pub some_zero_add : (n : ℕ) → ◌≡◌ {A = Option ℕ} (some (0 + n)) (some n)
some_zero_add n = ap {B = Option ℕ} some (zero_add n)

module _ (floats : Floats) where
  -- A contact that was announced has a position.
  abbrev pub IsPlaced : Contact floats → Type 0
  IsPlaced c = c.down_emitted ≡ true → (p : Point floats) × (c.last ≡ some p)

  abbrev pub AreActivePlaced : Option (Contact floats) → Type 0
  AreActivePlaced none = Unit {0}
  AreActivePlaced (some c) = IsPlaced c

module _ (floats : Floats) (id : ℕ) where
  abbrev pub same_id : TouchContactId → Bool
  same_id c = c.tracking_id == id

  abbrev pub raise_count : Bool → ℕ → Option ℕ
  raise_count true n = some (suc n)
  raise_count false n = some n

  -- An end of a contact that is not down makes the count fail.
  abbrev pub lower_count : Bool → ℕ → Option ℕ
  lower_count true zero = none
  lower_count true (suc n) = some n
  lower_count false n = some n

  -- The consumer's count of contacts with this tracking id that are down.
  unfoldable pub count_event : InputEvent floats → ℕ → Option ℕ
  count_event (touch_down c x y) n = raise_count (same_id c) n
  count_event (touch_up c x y) n = lower_count (same_id c) n
  count_event (gesture c distance) n = some n
  count_event (interaction device) n = some n
  count_event (resync device) n = some 0

  abbrev pub then_count : Option ℕ → (ℕ → Option ℕ) → Option ℕ
  then_count none f = none
  then_count (some n) f = f n

  unfoldable pub count_events : List (InputEvent floats) → ℕ → Option ℕ
  count_events [] n = some n
  count_events (e ∷ es) n = then_count (count_event e n) (count_events es)

  pub count_events-append :
      (es fs : List (InputEvent floats)) (n : ℕ)
      → count_events (es ++ fs) n ≡ then_count (count_events es n) (count_events fs)
  unfolding count_events
  count_events-append [] fs n = refl
  count_events-append (e ∷ es) fs n = go (count_event e n) (count_events-append es fs)
    where
      go :
          (o : Option ℕ)
          → ((k : ℕ) → count_events (es ++ fs) k ≡ then_count (count_events es k) (count_events fs))
          → then_count o (count_events (es ++ fs))
            ≡ then_count (then_count o (count_events es)) (count_events fs)
      go none h = refl
      go (some k) h = h k

  pub count_events-chain :
      (es fs : List (InputEvent floats)) (a b c : ℕ)
      → count_events es a ≡ some b
      → count_events fs b ≡ some c
      → count_events (es ++ fs) a ≡ some c
  count_events-chain es fs a b c h k =
      count_events-append es fs a ∙ ap (λ o. then_count o (count_events fs)) h ∙ k

  -- 1 for a contact with this id that was announced.
  abbrev pub shown : Bool → Bool → ℕ
  shown emitted same = if emitted && same then 1 else 0

  abbrev pub one : Contact floats → ℕ
  one c = shown c.down_emitted (c.tracking_id == id)

  abbrev pub one_or_0 : Option (Contact floats) → ℕ
  one_or_0 none = 0
  one_or_0 (some c) = one c

  abbrev pub in_slot : SlotState floats → ℕ
  in_slot s = one_or_0 s.active

  abbrev pub in_releases : List (Contact floats) → ℕ
  in_releases [] = 0
  in_releases (c ∷ cs) = one c + in_releases cs

  -- The contacts of the machine that a consumer has seen go down and not up.
  unfoldable pub live : TouchStateMachine floats → ℕ
  live m = total in_slot m.slots + in_releases m.pending_releases
