-- ===== src/Linux/Input/Slots.antt =====
-- Maps by signed integers, as the slots of `TouchStateMachine` in crates/uperf-linux/src/input.rs:
-- their order, and sums over their values.
use uperf_linux_rev.Base.{
  ℕ, ◌+◌, ◌≡◌, refl, subst, inl, inr, true, false, Option, none, some, List, [], ◌∷◌, arith,
  if◌then◌else◌, Bool-cases, All, if-cases,
}
use uperf_linux_rev.Base.Int.{ℤ, pos, negsuc}
use uperf_linux_rev.Base.Maps.{get, insert, All-insert}
use uperf_linux_rev.Linux.Input.{before_ℤ, int_key, same_ℤ, same_ℤ_iff}

before_chain : (a b c : ℤ) → before_ℤ a b ≡ true → before_ℤ b c ≡ true → before_ℤ a c ≡ true
before_chain (pos a) (pos b) (pos c) h k = ground arith
before_chain (pos a) (pos b) (negsuc c) h k = ground arith
before_chain (pos a) (negsuc b) c h k = ground arith
before_chain (negsuc a) b (pos c) h k = refl
before_chain (negsuc a) (pos b) (negsuc c) h k = ground arith
before_chain (negsuc a) (negsuc b) (negsuc c) h k = ground arith

before_total : (a b : ℤ) → same_ℤ b a ≡ false → before_ℤ a b ≡ false → before_ℤ b a ≡ true
before_total (pos a) (pos b) h k = ground arith
before_total (pos a) (negsuc b) h k = refl
before_total (negsuc a) (pos b) h k = ground arith
before_total (negsuc a) (negsuc b) h k = ground arith

before_apart : (a b : ℤ) → before_ℤ a b ≡ true → same_ℤ b a ≡ false
before_apart (pos a) (pos b) h = ground arith
before_apart (pos a) (negsuc b) h = ground arith
before_apart (negsuc a) (pos b) h = refl
before_apart (negsuc a) (negsuc b) h = ground arith

module _ {V : Type 0} where
  abbrev pub IsAbove : ℤ → ℤ × V → Type 0
  IsAbove k e = before_ℤ k e.0 ≡ true

  -- Strictly ascending keys.
  abbrev pub IsAscending : List (ℤ × V) → Type 0
  IsAscending [] = Unit {0}
  IsAscending ((k, v) ∷ m) = All (IsAbove k) m × IsAscending m

  IsAbove-All :
      (k j : ℤ) (m : List (ℤ × V)) → before_ℤ k j ≡ true → All (IsAbove j) m → All (IsAbove k) m
  IsAbove-All k j [] h a = tt
  IsAbove-All k j ((i, w) ∷ m) h (b, a) = (before_chain k j i h b, IsAbove-All k j m h a)

  -- A key before all the others is not there.
  get-first : (k : ℤ) (m : List (ℤ × V)) → All (IsAbove k) m → get k m ≡ none
  unfolding get
  get-first k [] a = refl
  get-first k ((j, w) ∷ m) (b, a) = rw (before_apart k j b) (get-first k m a)

  pub insert-IsAscending :
      (k : ℤ) (v : V) (m : List (ℤ × V)) → IsAscending m → IsAscending (insert k v m)
  unfolding insert
  insert-IsAscending k v [] h = (tt, tt)
  insert-IsAscending k v ((j, w) ∷ m) (above, rest) =
      if-cases IsAscending (same_ℤ j k) ((k, v) ∷ m)
        (if before_ℤ k j then (k, v) ∷ (j, w) ∷ m else (j, w) ∷ insert k v m)
        (λ same. (subst (λ x. All (IsAbove x) m) ((same_ℤ_iff j k).0 same) above, rest))
        (λ apart.
          if-cases IsAscending (before_ℤ k j) ((k, v) ∷ (j, w) ∷ m) ((j, w) ∷ insert k v m)
            (λ first. ((first, IsAbove-All k j m first above), (above, rest)))
            (λ later. (
              All-insert (IsAbove j) k v m (before_total k j apart later) above,
              insert-IsAscending k v m rest,
            )))

  module _ (weight : V → ℕ) where
    abbrev pub total : List (ℤ × V) → ℕ
    total [] = 0
    total ((k, v) ∷ m) = weight v + total m

    abbrev pub weight_or_0 : Option V → ℕ
    weight_or_0 none = 0
    weight_or_0 (some v) = weight v

    -- An inserted value replaces the weight of the one that was there.
    pub total-insert :
        (k : ℤ) (v : V) (m : List (ℤ × V))
        → IsAscending m
        → total (insert k v m) + weight_or_0 (get k m) ≡ total m + weight v
    unfolding insert get
    total-insert k v [] h = omega arith
    total-insert k v ((j, w) ∷ m) (above, rest) = elim (Bool-cases (same_ℤ j k)) [
      | inl same ↦ rw same (omega arith)
      | inr apart ↦ elim (Bool-cases (before_ℤ k j)) [
        | inl first ↦ rw (apart, first, get-first k m (IsAbove-All k j m first above)) (omega arith)
        | inr later ↦ rw (apart, later) (omega (arith, total-insert k v m rest))
      ]
    ]
