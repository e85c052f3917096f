-- ===== src/Actuator/Writes/Legal.antt =====
-- `ordered_write_states`, `push_unique_pair` and `transaction_legal_pairs` of crates/uperf-
-- actuator/src/lib.rs.
use uperf_linux_rev.Core.Units.{same_limits_iff, FrequencyLimits}
use uperf_linux_rev.Actuator.Writes.{
  push_unique_pair, transaction_legal_pairs, push_all, same_limits, ordered_write_states,
}
use uperf_linux_rev.Base.{
  ◌≤◌, ◌≡◌, refl, sym, subst, inl, inr, Bool, true, false, ◌||◌, List, [], ◌∷◌, ◌++◌, arith,
  Bool-cases, any, All, In, All-append,
}

abbrev pub IsOrdered : FrequencyLimits → Type 0
IsOrdered l = l.min ≤ l.max

-- No pair that the prediction passes through is inverted, if the pairs before and after are not.
ordered_write_states-IsOrdered :
    (current desired : FrequencyLimits)
    → IsOrdered current
    → IsOrdered desired
    → All IsOrdered (ordered_write_states current desired)
unfolding ordered_write_states
ordered_write_states-IsOrdered current desired h k = ground arith

-- No pair twice.
abbrev pub IsUnique : List FrequencyLimits → Type 0
IsUnique [] = Unit {0}
IsUnique (p ∷ ps) = (any (λ q. same_limits q p) ps ≡ false) × IsUnique ps

any-append :
    (p : FrequencyLimits → Bool) (xs ys : List FrequencyLimits)
    → any p (xs ++ ys) ≡ (any p xs || any p ys)
any-append p [] ys = refl
any-append p (x ∷ xs) ys = ground (arith, any-append p xs ys)

any-In :
    (p : FrequencyLimits) (xs : List FrequencyLimits)
    → any (λ q. same_limits q p) xs ≡ true
    → In p xs
any-In p [] h = ground arith
any-In p (x ∷ xs) h = elim (Bool-cases (same_limits x p)) [
  | inl e ↦ inl (sym ((same_limits_iff x p).0 e))
  | inr e ↦ inr (any-In p xs (rw e at h))
]

IsUnique-snoc :
    (xs : List FrequencyLimits) (p : FrequencyLimits)
    → IsUnique xs
    → any (λ q. same_limits q p) xs ≡ false
    → IsUnique (xs ++ p ∷ [])
IsUnique-snoc [] p u h = (refl, tt)
IsUnique-snoc (x ∷ xs) p u h = (
  rw (any-append (λ q. same_limits q x) xs (p ∷ [])) (ground (arith, u.0)),
  IsUnique-snoc xs p u.1 (ground arith),
)

In-append_left : (p : FrequencyLimits) (xs ys : List FrequencyLimits) → In p xs → In p (xs ++ ys)
In-append_left p [] ys m = absurd m
In-append_left p (x ∷ xs) ys (inl e) = inl e
In-append_left p (x ∷ xs) ys (inr m) = inr (In-append_left p xs ys m)

In-append_last : (p : FrequencyLimits) (xs : List FrequencyLimits) → In p (xs ++ p ∷ [])
In-append_last p [] = inl refl
In-append_last p (x ∷ xs) = inr (In-append_last p xs)

-- One push keeps the pairs distinct, keeps what is there, and leaves the pushed pair there.
record IsPushed (pairs result : List FrequencyLimits) (p : FrequencyLimits) : Type 0 where
  unique : IsUnique pairs → IsUnique result
  old : (q : FrequencyLimits) → In q pairs → In q result
  pushed : In p result
  ordered : All IsOrdered pairs → IsOrdered p → All IsOrdered result

push-IsPushed :
    (pairs : List FrequencyLimits) (p : FrequencyLimits)
    → IsPushed pairs (push_unique_pair pairs p) p
unfolding push_unique_pair
push-IsPushed pairs p = elim (Bool-cases (any (λ q. same_limits q p) pairs)) [
  | inl e ↦
      rw e
        (record { unique = λ u. u; old = λ q m. m; pushed = any-In p pairs e; ordered = λ a o. a })
  | inr e ↦ rw e (record {
    unique = λ u. IsUnique-snoc pairs p u e;
    old = λ q m. In-append_left q pairs (p ∷ []) m;
    pushed = In-append_last p pairs;
    ordered = λ a o. All-append IsOrdered pairs (p ∷ []) a (o, tt);
  })
]

push_all-IsUnique :
    (pairs ps : List FrequencyLimits) → IsUnique pairs → IsUnique (push_all pairs ps)
unfolding push_all
push_all-IsUnique pairs [] u = u
push_all-IsUnique pairs (p ∷ ps) u =
    push_all-IsUnique (push_unique_pair pairs p) ps ((push-IsPushed pairs p).unique u)

push_all-old :
    (pairs ps : List FrequencyLimits) (q : FrequencyLimits) → In q pairs → In q (push_all pairs ps)
unfolding push_all
push_all-old pairs [] q m = m
push_all-old pairs (p ∷ ps) q m =
    push_all-old (push_unique_pair pairs p) ps q ((push-IsPushed pairs p).old q m)

push_all-new :
    (pairs ps : List FrequencyLimits) (q : FrequencyLimits) → In q ps → In q (push_all pairs ps)
unfolding push_all
push_all-new pairs [] q m = absurd m
push_all-new pairs (p ∷ ps) q (inl e) =
    push_all-old (push_unique_pair pairs p) ps q
      (subst (λ r. In r (push_unique_pair pairs p)) (sym e) (push-IsPushed pairs p).pushed)
push_all-new pairs (p ∷ ps) q (inr m) = push_all-new (push_unique_pair pairs p) ps q m

push_all-IsOrdered :
    (pairs ps : List FrequencyLimits)
    → All IsOrdered pairs
    → All IsOrdered ps
    → All IsOrdered (push_all pairs ps)
unfolding push_all
push_all-IsOrdered pairs [] a b = a
push_all-IsOrdered pairs (p ∷ ps) a b =
    push_all-IsOrdered (push_unique_pair pairs p) ps ((push-IsPushed pairs p).ordered a b.0) b.1

states-IsUnique :
    (current desired : FrequencyLimits) → IsUnique (ordered_write_states current desired)
unfolding ordered_write_states
states-IsUnique current desired = ground arith

states-ends :
    (current desired : FrequencyLimits)
    → In current (ordered_write_states current desired)
      × In desired (ordered_write_states current desired)
unfolding ordered_write_states
states-ends current desired = ground arith

-- The legal pairs of a transaction: each once, none inverted, the pair before and the pair after
-- among them, and with them every pair that writing forwards or backwards passes through.
pub record IsLegal (current desired : FrequencyLimits) (pairs : List FrequencyLimits) : Type 0 where
  pub unique : IsUnique pairs
  pub ordered : All IsOrdered pairs
  pub before : In current pairs
  pub after : In desired pairs
  pub forwards : (q : FrequencyLimits) → In q (ordered_write_states current desired) → In q pairs
  pub backwards : (q : FrequencyLimits) → In q (ordered_write_states desired current) → In q pairs

-- For two pairs that are not inverted, the legal pairs are distinct and not inverted, and contain
-- both pairs and every pair on the way between them, in either direction.
pub transaction_legal_pairs-IsLegal :
    (current desired : FrequencyLimits)
    → IsOrdered current
    → IsOrdered desired
    → IsLegal current desired (transaction_legal_pairs current desired)
unfolding transaction_legal_pairs
transaction_legal_pairs-IsLegal current desired h k =
    let there = ordered_write_states current desired in
    let back = ordered_write_states desired current in
    record {
      unique = push_all-IsUnique there back (states-IsUnique current desired);
      ordered =
          push_all-IsOrdered there back (ordered_write_states-IsOrdered current desired h k)
            (ordered_write_states-IsOrdered desired current k h);
      before = push_all-old there back current (states-ends current desired).0;
      after = push_all-old there back desired (states-ends current desired).1;
      forwards = push_all-old there back;
      backwards = push_all-new there back;
    }

-- Both pairs are legal, inverted or not.
pub transaction_legal_pairs-ends :
    (current desired : FrequencyLimits)
    → In current (transaction_legal_pairs current desired)
      × In desired (transaction_legal_pairs current desired)
unfolding transaction_legal_pairs
transaction_legal_pairs-ends current desired =
    let there = ordered_write_states current desired in
    let back = ordered_write_states desired current in
    (
      push_all-old there back current (states-ends current desired).0,
      push_all-old there back desired (states-ends current desired).1,
    )
