-- ===== src/Base/Text/Decimal.antt =====
-- Decimal numbers: `u64::to_string` and `str::parse`.
use Prim.Native.Nat.{ℕ, zero, suc, ◌+◌, ◌-◌, ◌*◌, ◌/◌, ◌%◌, ◌≤◌, ◌<◌}
use mathlib.Core.Path.{◌≡◌, refl, ◌∙◌, ap}
use mathlib.Core.Option.{some}
use mathlib.Core.List.{[], ◌∷◌, reverse, reverse-cons, reverse-reverse}
use native.Mathlib.Omega.{arith}
use uperf_linux_rev.Base.Tests.{ltb, Bool-cases, ltb→lt}
use uperf_linux_rev.Base.Lists.{All, All-append}
use mathlib.Core.Logic.{inl, inr, ◌≢◌}
use uperf_linux_rev.Base.Words.{u64_max}
use uperf_linux_rev.Base.Text.{
  Text, parse_digits, parse_u64, print_from, print_u64, trim, trim_start, is_whitespace,
}

abbrev IsDigit : ℕ → Type 0
IsDigit c = (48 ≤ c) × (c ≤ 57)

print_from-IsDigit :
    (fuel n : ℕ) (acc : Text) → All IsDigit acc → All IsDigit (print_from fuel n acc)
unfolding print_from
print_from-IsDigit zero n acc a = a
print_from-IsDigit (suc fuel) n acc a = elim (Bool-cases (ltb n 10)) [
  | inl small ↦ rw small ((omega arith, omega (arith, ltb→lt n 10 small)), a)
  | inr large ↦ rw large (print_from-IsDigit fuel (n / 10) _ ((omega arith, omega arith), a))
]

parse_digits-digit :
    (acc d : ℕ) (cs : Text)
    → d ≤ 9
    → acc * 10 + d ≤ u64_max
    → parse_digits acc ((48 + d) ∷ cs) ≡ parse_digits (acc * 10 + d) cs
unfolding parse_digits
parse_digits-digit acc d cs h word = let e : 48 + d - 48 ≡ d = omega arith in rw e (ground arith)

-- Reading the printed digits carries the number on to what follows them.
parse-print_from :
    (fuel n : ℕ) (acc : Text)
    → n < fuel
    → n ≤ u64_max
    → parse_digits 0 (print_from fuel n acc) ≡ parse_digits n acc
unfolding print_from
parse-print_from zero n acc h word = elim h [ ]
parse-print_from (suc fuel) n acc h word = elim (Bool-cases (ltb n 10)) [
  | inl small ↦
      let le : n ≤ 9 = omega (arith, ltb→lt n 10 small) in
      let e : 0 * 10 + n ≡ n = omega arith in
      rw small (parse_digits-digit 0 n acc le (omega arith) ∙ ap (λ (k : ℕ). parse_digits k acc) e)
  | inr large ↦
      let big : 10 ≤ n = ground (arith, large) in
      let e : n / 10 * 10 + n % 10 ≡ n = omega arith in
      rw large (
        parse-print_from fuel (n / 10) ((48 + n % 10) ∷ acc) (omega arith) (omega arith)
        ∙ parse_digits-digit (n / 10) (n % 10) acc (omega arith) (omega arith)
        ∙ ap (λ (k : ℕ). parse_digits k acc) e)
]

no_sign :
    (s : Text) (n : ℕ) → All IsDigit s → parse_digits 0 s ≡ some n → s ≢ [] → parse_u64 s ≡ some n
unfolding parse_u64
no_sign [] n a e h = absurd (h refl)
no_sign (c ∷ []) n a e h = e
no_sign (c ∷ d ∷ cs) n a e h = ground (arith, a.0)

print_from-ne-nil : (fuel n : ℕ) (acc : Text) → n < fuel → print_from fuel n acc ≢ []
unfolding print_from
print_from-ne-nil zero n acc h e = elim h [ ]
print_from-ne-nil (suc fuel) n acc h e =
    ground (arith, print_from-ne-nil fuel (n / 10) ((48 + n % 10) ∷ acc))

-- Every 64-bit number is read back from its decimal form.
pub parse_u64-print_u64 : (n : ℕ) → n ≤ u64_max → parse_u64 (print_u64 n) ≡ some n
unfolding print_u64 parse_digits
parse_u64-print_u64 n word =
    no_sign (print_from (suc n) n []) n (print_from-IsDigit (suc n) n [] tt)
      (parse-print_from (suc n) n [] (omega arith) word)
      (print_from-ne-nil (suc n) n [] (omega arith))

All-reverse : (s : Text) → All IsDigit s → All IsDigit (reverse s)
All-reverse [] a = tt
All-reverse (c ∷ cs) a =
    rw (reverse-cons c cs) (All-append IsDigit (reverse cs) (c ∷ []) (All-reverse cs a.1) (a.0, tt))

trim_start-digits : (s : Text) → All IsDigit s → trim_start s ≡ s
unfolding trim_start is_whitespace
trim_start-digits [] a = refl
trim_start-digits (c ∷ cs) a = ground (arith, a.0)

-- A printed number has nothing to trim.
pub trim-print_u64 : (n : ℕ) → trim (print_u64 n) ≡ print_u64 n
unfolding print_u64 trim
trim-print_u64 n =
    let digits = print_from-IsDigit (suc n) n [] tt in
    rw (trim_start-digits _ digits, trim_start-digits _ (All-reverse _ digits)) (reverse-reverse _)
