-- ===== src/Core/Policy/Priority.antt =====
-- `AppsConfig::ordered_enabled_rules` of crates/uperf-core/src/config.rs sorts by priority.
use uperf_linux_rev.Base.{
  ◌≡◌, sym, subst, ◌↔◌, ◌⊎◌, inl, inr, true, false, List, [], ◌∷◌, arith, In, if-cases,
}
use uperf_linux_rev.Base.Int.{◌≤ℤ◌, ltℤ}
use uperf_linux_rev.Core.Policy.Config.{AppRule, insert_rule, sort_rules}

-- No rule behind another has a higher priority.
abbrev pub IsFalling : List AppRule → Type 0
IsFalling [] = Unit {0}
IsFalling (r ∷ rs) = ((q : AppRule) → In q rs → q.priority ≤ℤ r.priority) × IsFalling rs

insert-In : (r q : AppRule) (xs : List AppRule) → In q (insert_rule r xs) → (q ≡ r) ⊎ In q xs
unfolding insert_rule
insert-In r q [] m = m
insert-In r q (x ∷ xs) m =
    if-cases (λ ys. In q ys → (q ≡ r) ⊎ In q (x ∷ xs)) (ltℤ r.priority x.priority)
      (x ∷ insert_rule r xs) (r ∷ x ∷ xs)
      (λ lower k. elim k [
        | inl e ↦ inr (inl e)
        | inr k ↦ elim (insert-In r q xs k) [ inl e ↦ inl e | inr l ↦ inr (inr l) ]
      ])
      (λ higher k. k) m

In-insert : (r q : AppRule) (xs : List AppRule) → (q ≡ r) ⊎ In q xs → In q (insert_rule r xs)
unfolding insert_rule
In-insert r q [] m = m
In-insert r q (x ∷ xs) m =
    if-cases (In q) (ltℤ r.priority x.priority) (x ∷ insert_rule r xs) (r ∷ x ∷ xs)
      (λ lower. elim m [
        | inl e ↦ inr (In-insert r q xs (inl e))
        | inr (inl e) ↦ inl e
        | inr (inr k) ↦ inr (In-insert r q xs (inr k))
      ])
      (λ higher. m)

lower-le : (r x : AppRule) → ltℤ r.priority x.priority ≡ true → r.priority ≤ℤ x.priority
lower-le r x h = ground arith

higher-le : (r x : AppRule) → ltℤ r.priority x.priority ≡ false → x.priority ≤ℤ r.priority
higher-le r x h = ground arith

≤ℤ-chain :
    (a b c : AppRule)
    → a.priority ≤ℤ b.priority
    → b.priority ≤ℤ c.priority
    → a.priority ≤ℤ c.priority
≤ℤ-chain a b c h k = omega arith

insert-IsFalling : (r : AppRule) (xs : List AppRule) → IsFalling xs → IsFalling (insert_rule r xs)
unfolding insert_rule
insert-IsFalling r [] h = (λ q m. absurd m, tt)
insert-IsFalling r (x ∷ xs) (below, rest) =
    if-cases IsFalling (ltℤ r.priority x.priority) (x ∷ insert_rule r xs) (r ∷ x ∷ xs)
      (λ lower. (
        λ q m. elim (insert-In r q xs m) [
          | inl e ↦ subst (λ (y : AppRule). y.priority ≤ℤ x.priority) (sym e) (lower-le r x lower)
          | inr k ↦ below q k
        ],
        insert-IsFalling r xs rest,
      ))
      (λ higher. (
        λ q m. elim m [
          | inl e ↦ subst (λ (y : AppRule). y.priority ≤ℤ r.priority) (sym e) (higher-le r x higher)
          | inr k ↦ ≤ℤ-chain q x r (below q k) (higher-le r x higher)
        ],
        (below, rest),
      ))

pub sort_rules-IsFalling : (rs : List AppRule) → IsFalling (sort_rules rs)
unfolding sort_rules
sort_rules-IsFalling [] = tt
sort_rules-IsFalling (r ∷ rs) = insert-IsFalling r (sort_rules rs) (sort_rules-IsFalling rs)

pub sort_rules-In : (q : AppRule) (rs : List AppRule) → In q (sort_rules rs) ↔ In q rs
unfolding sort_rules
sort_rules-In q [] = (λ m. m, λ m. m)
sort_rules-In q (r ∷ rs) =
    let rest = sort_rules-In q rs in
    (
      λ m. elim (insert-In r q (sort_rules rs) m) [ inl e ↦ inl e | inr k ↦ inr (rest.0 k) ],
      λ m. In-insert r q (sort_rules rs) (elim m [ inl e ↦ inl e | inr k ↦ inr (rest.1 k) ]),
    )
