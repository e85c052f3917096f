-- ===== src/Base/Text.antt =====
-- Strings as lists of code points: equality and order, `trim`, decimal numbers, and file paths by
-- their components.
pub mod Decimal
use Prim.Native.String.{String}
use Prim.Native.Char.{code}
use Prim.Native.Nat.{ℕ, zero, suc, ◌+◌, ◌-◌, ◌*◌, ◌/◌, ◌%◌, ◌≤◌, ◌<◌}
use mathlib.Core.Path.{◌≡◌, refl}
use mathlib.Core.Logic.{◌↔◌, ◌⊎◌, inl, inr}
use mathlib.Core.Bool.{Bool, true, false, not, ◌&&◌, ◌||◌}
use mathlib.Core.Option.{Option, none, some}
use mathlib.Core.List.{List, [], ◌∷◌, ◌++◌, reverse}
use native.Mathlib.Omega.{arith}
use uperf_linux_rev.Base.Tests.{ltb, leb, ◌==◌, ==_iff, if◌then◌else◌}
use uperf_linux_rev.Base.Lists.{any, keep}
use uperf_linux_rev.Base.Maps.{Key}
use uperf_linux_rev.Base.Words.{u64_max}

abbrev pub Text : Type 0
Text = List ℕ

-- A literal.
abbrev pub text : String → Text
text String.[] = []
text (String.◌∷◌ c s) = code c ∷ text s

abbrev pub same_text : Text → Text → Bool
same_text [] [] = true
same_text [] (y ∷ ys) = false
same_text (x ∷ xs) [] = false
same_text (x ∷ xs) (y ∷ ys) = x == y && same_text xs ys

abbrev pub before_text : Text → Text → Bool
before_text [] [] = false
before_text [] (y ∷ ys) = true
before_text (x ∷ xs) [] = false
before_text (x ∷ xs) (y ∷ ys) = ltb x y || (x == y && before_text xs ys)

same_text_sound : (xs ys : Text) → same_text xs ys ≡ true → xs ≡ ys
same_text_sound [] [] h = refl
same_text_sound [] (y ∷ ys) h = ground arith
same_text_sound (x ∷ xs) [] h = ground arith
same_text_sound (x ∷ xs) (y ∷ ys) h = ground (arith, same_text_sound xs ys)

same_text_refl : (xs : Text) → same_text xs xs ≡ true
same_text_refl [] = refl
same_text_refl (x ∷ xs) = ground (arith, same_text_refl xs)

pub same_text_iff : (xs ys : Text) → (same_text xs ys ≡ true) ↔ (xs ≡ ys)
same_text_iff xs ys = (same_text_sound xs ys, λ e. rw e (same_text_refl ys))

instance abbrev pub text_key : Key Text
text_key = record { same = same_text; before = before_text; same_iff = same_text_iff }

-- `char::is_whitespace`.
unfoldable pub is_whitespace : ℕ → Bool
is_whitespace c =
    (leb 9 c && leb c 13)
    || c == 32
    || c == 133
    || c == 160
    || c == 5760
    || (leb 8192 c && leb c 8202)
    || c == 8232
    || c == 8233
    || c == 8239
    || c == 8287
    || c == 12288

unfoldable pub trim_start : Text → Text
trim_start [] = []
trim_start (c ∷ cs) = let rest = trim_start cs in if is_whitespace c then rest else c ∷ cs

-- `str::trim`.
unfoldable pub trim : Text → Text
unfolding trim_start is_whitespace
trim s = reverse (trim_start (reverse (trim_start s)))

abbrev pub is_digit : ℕ → Bool
is_digit c = leb 48 c && leb c 57

unfoldable pub parse_digits : ℕ → Text → Option ℕ
parse_digits acc [] = some acc
parse_digits acc (c ∷ cs) =
    let next = acc * 10 + (c - 48) in
    let rest = parse_digits next cs in if is_digit c && leb next u64_max then rest else none

-- `str::parse::<u64>().ok()`: digits, at least one, behind an optional plus sign.
unfoldable pub parse_u64 : Text → Option ℕ
unfolding parse_digits
parse_u64 [] = none
parse_u64 (c ∷ []) = parse_digits 0 (c ∷ [])
parse_u64 (c ∷ d ∷ cs) = if c == 43 then parse_digits 0 (d ∷ cs) else parse_digits 0 (c ∷ d ∷ cs)

unfoldable pub print_from : ℕ → ℕ → Text → Text
print_from zero n acc = acc
print_from (suc fuel) n acc =
    let rest = print_from fuel (n / 10) ((48 + n % 10) ∷ acc) in
    if ltb n 10 then (48 + n) ∷ acc else rest

-- `u64::to_string`.
unfoldable pub print_u64 : ℕ → Text
unfolding print_from
print_u64 n = print_from (suc n) n []

-- The parts between slashes.
unfoldable pub split_slash : Text → List Text
split_slash [] = [] ∷ []
split_slash (c ∷ cs) = elim (split_slash cs) [
  | [] ↦ [] ∷ []
  | first ∷ rest ↦ if c == 47 then [] ∷ first ∷ rest else (c ∷ first) ∷ rest
]

abbrev pub is_absolute : Text → Bool
is_absolute [] = false
is_absolute (c ∷ cs) = c == 47

abbrev is_named : Text → Bool
is_named [] = false
is_named (c ∷ cs) = not (same_text (c ∷ cs) (46 ∷ []))

-- `Path::components` of an absolute path, behind the root.
unfoldable pub components : Text → List Text
unfolding split_slash
components path = keep is_named (split_slash path)

abbrev pub same_texts : List Text → List Text → Bool
same_texts [] [] = true
same_texts [] (y ∷ ys) = false
same_texts (x ∷ xs) [] = false
same_texts (x ∷ xs) (y ∷ ys) = same_text x y && same_texts xs ys

-- `==` of paths compares components.
unfoldable pub same_path : Text → Text → Bool
unfolding components
same_path p q =
    (if is_absolute p then is_absolute q else not (is_absolute q))
    && same_texts (components p) (components q)
