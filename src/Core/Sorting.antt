-- ===== src/Core/Sorting.antt =====
-- What the code takes from the standard library on vectors of numbers: `sort_unstable`, `dedup`,
-- `min`, `max` and `Ord::clamp`, with the facts that its callers rest on.
use uperf_linux_rev.Base.{
  ℕ, ◌≤◌, ◌<◌, min, max, ◌≡◌, refl, ◌↔◌, inl, Option, none, some, List, [], ◌∷◌, arith, ltb, leb,
  ◌==◌, if◌then◌else◌, All, In,
}

insert_sorted : ℕ → List ℕ → List ℕ
insert_sorted a [] = a ∷ []
insert_sorted a (x ∷ xs) = let rest = insert_sorted a xs in if leb a x then a ∷ x ∷ xs else x ∷ rest

unfoldable pub sort_unstable : List ℕ → List ℕ
unfolding insert_sorted
sort_unstable [] = []
sort_unstable (x ∷ xs) = insert_sorted x (sort_unstable xs)

-- Of a run of equal neighbours the first is kept.
dedup_from : ℕ → List ℕ → List ℕ
dedup_from a [] = []
dedup_from a (x ∷ xs) = let rest = dedup_from x xs in if a == x then rest else x ∷ rest

unfoldable pub dedup : List ℕ → List ℕ
unfolding dedup_from
dedup [] = []
dedup (x ∷ xs) = x ∷ dedup_from x xs

unfoldable pub least : List ℕ → Option ℕ
least [] = none
least (x ∷ xs) = elim (least xs) [ none ↦ some x | some m ↦ some (min x m) ]

unfoldable pub greatest : List ℕ → Option ℕ
greatest [] = none
greatest (x ∷ xs) = elim (greatest xs) [ none ↦ some x | some m ↦ some (max x m) ]

-- `x.clamp(lo, hi)`; the library's own assertion `lo <= hi` is a theorem about each call.
abbrev pub clamp : ℕ → ℕ → ℕ → ℕ
clamp lo hi x = if ltb x lo then lo else if ltb hi x then hi else x

In-insert_sorted : (a b : ℕ) (xs : List ℕ) → In b (insert_sorted a xs) ↔ In b (a ∷ xs)
unfolding insert_sorted
In-insert_sorted a b [] = (λ m. m, λ m. m)
In-insert_sorted a b (x ∷ xs) = (
  λ m. ground (arith, (In-insert_sorted a b xs).0),
  λ m. ground (arith, (In-insert_sorted a b xs).1),
)

pub In-sort_unstable : (b : ℕ) (xs : List ℕ) → In b (sort_unstable xs) ↔ In b xs
unfolding sort_unstable
In-sort_unstable b [] = (λ m. m, λ m. m)
In-sort_unstable b (x ∷ xs) = (
  λ m. ground (arith, (In-insert_sorted x b (sort_unstable xs)).0 m, (In-sort_unstable b xs).0),
  λ m. (In-insert_sorted x b (sort_unstable xs)).1 (ground (arith, (In-sort_unstable b xs).1)),
)

In-dedup_from : (a b : ℕ) (xs : List ℕ) → In b (a ∷ dedup_from a xs) ↔ In b (a ∷ xs)
unfolding dedup_from
In-dedup_from a b [] = (λ m. m, λ m. m)
In-dedup_from a b (x ∷ xs) =
    (λ m. ground (arith, (In-dedup_from x b xs).0), λ m. ground (arith, (In-dedup_from x b xs).1))

pub In-dedup : (b : ℕ) (xs : List ℕ) → In b (dedup xs) ↔ In b xs
unfolding dedup
In-dedup b [] = (λ m. m, λ m. m)
In-dedup b (x ∷ xs) = In-dedup_from x b xs

-- Ascending order, strict or not.
abbrev pub Ascends : ℕ → List ℕ → Type 0
Ascends a [] = Unit {0}
Ascends a (x ∷ xs) = (a ≤ x) × Ascends x xs

abbrev pub Rises : ℕ → List ℕ → Type 0
Rises a [] = Unit {0}
Rises a (x ∷ xs) = (a < x) × Rises x xs

abbrev pub IsSorted : List ℕ → Type 0
IsSorted [] = Unit {0}
IsSorted (x ∷ xs) = Ascends x xs

abbrev pub IsStrictlySorted : List ℕ → Type 0
IsStrictlySorted [] = Unit {0}
IsStrictlySorted (x ∷ xs) = Rises x xs

Ascends-insert_sorted :
    (a b : ℕ) (xs : List ℕ) → b ≤ a → Ascends b xs → Ascends b (insert_sorted a xs)
unfolding insert_sorted
Ascends-insert_sorted a b [] h k = (h, tt)
Ascends-insert_sorted a b (x ∷ xs) h k = ground (arith, Ascends-insert_sorted a x xs)

insert_sorted-IsSorted : (a : ℕ) (xs : List ℕ) → IsSorted xs → IsSorted (insert_sorted a xs)
unfolding insert_sorted
insert_sorted-IsSorted a [] h = tt
insert_sorted-IsSorted a (x ∷ xs) h = ground (arith, Ascends-insert_sorted a x xs)

pub sort_unstable-IsSorted : (xs : List ℕ) → IsSorted (sort_unstable xs)
unfolding sort_unstable
sort_unstable-IsSorted [] = tt
sort_unstable-IsSorted (x ∷ xs) = insert_sorted-IsSorted x _ (sort_unstable-IsSorted xs)

Rises-dedup_from : (a : ℕ) (xs : List ℕ) → Ascends a xs → Rises a (dedup_from a xs)
unfolding dedup_from
Rises-dedup_from a [] h = tt
Rises-dedup_from a (x ∷ xs) h = ground (arith, Rises-dedup_from x xs h.1)

pub dedup-IsStrictlySorted : (xs : List ℕ) → IsSorted xs → IsStrictlySorted (dedup xs)
unfolding dedup
dedup-IsStrictlySorted [] h = tt
dedup-IsStrictlySorted (x ∷ xs) h = Rises-dedup_from x xs h

-- `m` is the greatest, or the least, element of `xs`; with `none` there is no element.
abbrev pub IsGreatest : List ℕ → Option ℕ → Type 0
IsGreatest xs none = xs ≡ []
IsGreatest xs (some m) = In m xs × All (λ x. x ≤ m) xs

abbrev pub IsLeast : List ℕ → Option ℕ → Type 0
IsLeast xs none = xs ≡ []
IsLeast xs (some m) = In m xs × All (λ x. m ≤ x) xs

All-le : (m n : ℕ) (xs : List ℕ) → m ≤ n → All (λ x. x ≤ m) xs → All (λ x. x ≤ n) xs
All-le m n [] h k = tt
All-le m n (x ∷ xs) h k = (omega arith, All-le m n xs h k.1)

All-ge : (m n : ℕ) (xs : List ℕ) → n ≤ m → All (λ x. m ≤ x) xs → All (λ x. n ≤ x) xs
All-ge m n [] h k = tt
All-ge m n (x ∷ xs) h k = (omega arith, All-ge m n xs h k.1)

greatest_step :
    (x : ℕ) (xs : List ℕ) (o : Option ℕ)
    → greatest xs ≡ o
    → IsGreatest xs o
    → IsGreatest (x ∷ xs) (greatest (x ∷ xs))
unfolding greatest
greatest_step x xs none e h = rw (e, greatest, h) (inl refl, (omega arith, tt))
greatest_step x xs (some m) e h =
    rw (e, greatest) (ground arith, (omega arith, All-le m (max x m) xs (omega arith) h.1))

pub greatest-IsGreatest : (xs : List ℕ) → IsGreatest xs (greatest xs)
unfolding greatest
greatest-IsGreatest [] = refl
greatest-IsGreatest (x ∷ xs) = greatest_step x xs (greatest xs) refl (greatest-IsGreatest xs)

least_step :
    (x : ℕ) (xs : List ℕ) (o : Option ℕ)
    → least xs ≡ o
    → IsLeast xs o
    → IsLeast (x ∷ xs) (least (x ∷ xs))
unfolding least
least_step x xs none e h = rw (e, least, h) (inl refl, (omega arith, tt))
least_step x xs (some m) e h =
    rw (e, least) (ground arith, (omega arith, All-ge m (min x m) xs (omega arith) h.1))

pub least-IsLeast : (xs : List ℕ) → IsLeast xs (least xs)
unfolding least
least-IsLeast [] = refl
least-IsLeast (x ∷ xs) = least_step x xs (least xs) refl (least-IsLeast xs)
