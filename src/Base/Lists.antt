-- ===== src/Base/Lists.antt =====
-- Lists measured by native numbers, tests over lists, and predicates by recursion on a list.
use Prim.Native.Nat.{ℕ, suc, ◌+◌}
use mathlib.Core.Path.{◌≡◌, sym, subst}
use mathlib.Core.Logic.{◌⊎◌, inl, inr}
use mathlib.Core.Bool.{Bool, true, false, ◌&&◌, ◌||◌}
use mathlib.Core.Option.{Option, none, some}
use mathlib.Core.List.{List, [], ◌∷◌, ◌++◌}
use native.Mathlib.Omega.{arith}
use uperf_linux_rev.Base.Tests.{if◌then◌else◌}

module _ {ℓ} {A : Type ℓ} where
  abbrev pub length : List A → ℕ
  length [] = 0
  length (x ∷ xs) = suc (length xs)

  pub length-append : (xs ys : List A) → length (xs ++ ys) ≡ length xs + length ys
  length-append [] ys = omega arith
  length-append (x ∷ xs) ys = omega (arith, length-append xs ys)

  -- `iter().any(p)`, `iter().all(p)`, `iter().find(p)`, `iter().filter(p)`.
  abbrev pub any : (A → Bool) → List A → Bool
  any p [] = false
  any p (x ∷ xs) = p x || any p xs

  abbrev pub all : (A → Bool) → List A → Bool
  all p [] = true
  all p (x ∷ xs) = p x && all p xs

  abbrev pub find : (A → Bool) → List A → Option A
  find p [] = none
  find p (x ∷ xs) = if p x then some x else find p xs

  abbrev pub keep : (A → Bool) → List A → List A
  keep p [] = []
  keep p (x ∷ xs) = let rest = keep p xs in if p x then x ∷ rest else rest

  -- Every element satisfies `P`.
  abbrev pub All {κ} : (A → Type κ) → List A → Type κ
  All P [] = Unit
  All P (x ∷ xs) = P x × All P xs

  pub All-append {κ} : (P : A → Type κ) (xs ys : List A) → All P xs → All P ys → All P (xs ++ ys)
  All-append P [] ys h k = k
  All-append P (x ∷ xs) ys h k = (h.0, All-append P xs ys h.1 k)

  pub All-keep {κ} : (P : A → Type κ) (p : A → Bool) (xs : List A) → All P xs → All P (keep p xs)
  All-keep P p [] h = tt
  All-keep P p (x ∷ xs) h = ground (arith, All-keep P p xs h.1)

  pub All-of-keep : (p : A → Bool) (xs : List A) → All (λ x. p x ≡ true) (keep p xs)
  All-of-keep p [] = tt
  All-of-keep p (x ∷ xs) = ground (arith, All-of-keep p xs)

module _ {A : Type 0} where
  -- Some element is `a`.
  abbrev pub In : A → List A → Type 0
  In a [] = ⊥
  In a (x ∷ xs) = (a ≡ x) ⊎ In a xs

  pub All-In {κ} : (P : A → Type κ) (xs : List A) (a : A) → All P xs → In a xs → P a
  All-In P [] a h m = elim m [ ]
  All-In P (x ∷ xs) a h (inl e) = subst P (sym e) h.0
  All-In P (x ∷ xs) a h (inr m) = All-In P xs a h.1 m

  pub In-keep : (p : A → Bool) (xs : List A) (a : A) → In a (keep p xs) → In a xs × (p a ≡ true)
  In-keep p [] a m = absurd m
  In-keep p (x ∷ xs) a m = ground (arith, In-keep p xs a)

  pub keep-In : (p : A → Bool) (xs : List A) (a : A) → In a xs → p a ≡ true → In a (keep p xs)
  keep-In p [] a m h = elim m [ ]
  keep-In p (x ∷ xs) a (inl e) h = ground arith
  keep-In p (x ∷ xs) a (inr m) h = ground (arith, keep-In p xs a m h)
