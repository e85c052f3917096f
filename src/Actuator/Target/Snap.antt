-- ===== src/Actuator/Target/Snap.antt =====
-- The two searches of `snap_limits` in crates/uperf-actuator/src/lib.rs.
use mathlib.Core.List.{reverse, reverse-cons}
use uperf_linux_rev.Base.{
  ℕ, ◌≤◌, ◌<◌, ◌≡◌, refl, inl, inr, Bool, false, Option, none, some, List, [], ◌∷◌, ◌++◌, arith,
  leb, if◌then◌else◌, leb→le, Bool-cases, find, All, All-In,
}
use uperf_linux_rev.Core.Sorting.{Rises, IsStrictlySorted}
use uperf_linux_rev.Core.Frequency.Snap.{IsSnapUp, IsSnapDown}

All-above : (a m : ℕ) (xs : List ℕ) → m ≤ a → Rises a xs → All (λ f. m < f) xs
All-above a m [] h k = tt
All-above a m (x ∷ xs) h k = (omega arith, All-above x m xs (omega arith) k.1)

IsStrictlySorted-tail : (x : ℕ) (xs : List ℕ) → Rises x xs → IsStrictlySorted xs
IsStrictlySorted-tail x [] h = tt
IsStrictlySorted-tail x (y ∷ ys) h = h.1

above-All : (x r : ℕ) (xs : List ℕ) → r ≤ x → Rises x xs → All (λ f. r ≤ f → x ≤ f) xs
above-All x r [] h k = tt
above-All x r (y ∷ ys) h k =
    (λ _. omega arith, weaken y x r ys (omega arith) (above-All y r ys (omega arith) k.1))
  where
    weaken :
        (a b r : ℕ) (xs : List ℕ)
        → b ≤ a
        → All (λ f. r ≤ f → a ≤ f) xs
        → All (λ f. r ≤ f → b ≤ f) xs
    weaken a b r [] h k = tt
    weaken a b r (z ∷ zs) h k = (λ q. omega (arith, k.0 q), weaken a b r zs h k.1)

-- On ascending points the first hit is the nearest one above.
pub find-IsSnapUp :
    (xs : List ℕ) (r : ℕ) → IsStrictlySorted xs → IsSnapUp xs r (find (λ f. leb r f) xs)
find-IsSnapUp [] r s = tt
find-IsSnapUp (x ∷ xs) r s = elim (Bool-cases (leb r x)) [
  | inl e ↦ rw e (inl refl, leb→le r x e, ((λ _. omega arith), above-All x r xs (leb→le r x e) s))
  | inr e ↦
      rw e (later e (find (λ f. leb r f) xs) (find-IsSnapUp xs r (IsStrictlySorted-tail x xs s)))
]
  where
    later : leb r x ≡ false → (o : Option ℕ) → IsSnapUp xs r o → IsSnapUp (x ∷ xs) r o
    later e none h = (ground (arith, e), h)
    later e (some m) h = (inr h.0, h.1, ((λ q. absurd (ground (arith, e))), h.2))

find-snoc :
    (p : ℕ → Bool) (xs : List ℕ) (x : ℕ) (o : Option ℕ)
    → find p xs ≡ o
    → find p (xs ++ x ∷ []) ≡ elim o [ none ↦ if p x then some x else none | some y ↦ some y ]
find-snoc p [] x none e = refl
find-snoc p [] x (some y) e = cc
find-snoc p (z ∷ zs) x o e = elim (Bool-cases (p z)) [
  | inl h ↦ rw h (hit o (rw h at e))
  | inr h ↦ rw h (find-snoc p zs x o (rw h at e))
]
  where
    hit :
        (o : Option ℕ)
        → some z ≡ o
        → some z ≡ elim o [ none ↦ if p x then some x else none | some y ↦ some y ]
    hit none e = cc
    hit (some y) e = e

none_at_most : (x r : ℕ) (xs : List ℕ) → All (λ f. r < f) xs → All (λ f. f ≤ r → f ≤ x) xs
none_at_most x r [] h = tt
none_at_most x r (y ∷ ys) h = ((λ q. absurd (omega arith)), none_at_most x r ys h.1)

down_cons :
    (x r : ℕ) (xs : List ℕ) (o : Option ℕ)
    → Rises x xs
    → IsSnapDown xs r o
    → IsSnapDown (x ∷ xs) r (elim o [ none ↦ if leb x r then some x else none | some y ↦ some y ])
down_cons x r xs none s h = elim (Bool-cases (leb x r)) [
  | inl e ↦ rw e (inl refl, leb→le x r e, ((λ _. omega arith), none_at_most x r xs h))
  | inr e ↦ rw e (ground (arith, e), h)
]
down_cons x r xs (some m) s h =
    let above = All-In (λ f. x < f) xs m (All-above x x xs (omega arith) s) h.0 in
    (inr h.0, h.1, ((λ _. omega (arith, above)), h.2))

-- From the top, the first hit is the nearest one below.
pub find_rev-IsSnapDown :
    (xs : List ℕ) (r : ℕ) → IsStrictlySorted xs → IsSnapDown xs r (find (λ f. leb f r) (reverse xs))
find_rev-IsSnapDown [] r s = tt
find_rev-IsSnapDown (x ∷ xs) r s = rw (reverse-cons x xs) (
    rw (find-snoc (λ f. leb f r) (reverse xs) x (find (λ f. leb f r) (reverse xs)) refl) (
      down_cons x r xs (find (λ f. leb f r) (reverse xs)) s
        (find_rev-IsSnapDown xs r (IsStrictlySorted-tail x xs s))))
