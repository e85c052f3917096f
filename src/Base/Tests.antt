-- ===== src/Base/Tests.antt =====
-- Boolean tests on the native numbers, the conditional, and results that may fail.
use Prim.Native.Nat.{ℕ, ◌≤◌, ◌<◌, compare, Ordering}
use mathlib.Core.Path.{◌≡◌, refl}
use mathlib.Core.Logic.{◌↔◌, ◌⊎◌, inl, inr}
use mathlib.Core.Bool.{Bool, true, false, ◌&&◌, ◌||◌}
use mathlib.Core.Option.{Option, none, some}
use native.Mathlib.Omega.{arith}

abbrev pub ltb : ℕ → ℕ → Bool
ltb a b = elim (compare a b) [ Ordering.lt ↦ true | _ ↦ false ]

abbrev pub leb : ℕ → ℕ → Bool
leb a b = elim (compare a b) [ Ordering.gt ↦ false | _ ↦ true ]

infix 50 ◌==◌
abbrev pub ◌==◌ : ℕ → ℕ → Bool
a == b = elim (compare a b) [ Ordering.eq ↦ true | _ ↦ false ]

infix 1 if◌then◌else◌
abbrev pub if◌then◌else◌ {ℓ} : {A : Type ℓ} → Bool → A → A → A
if true then x else y = x
if false then x else y = y

pub ltb→lt : (a b : ℕ) → ltb a b ≡ true → a < b
ltb→lt a b h = ground arith

pub leb→le : (a b : ℕ) → leb a b ≡ true → a ≤ b
leb→le a b h = ground arith

pub le→leb : (a b : ℕ) → a ≤ b → leb a b ≡ true
le→leb a b h = ground arith

pub ==_iff : (a b : ℕ) → ((a == b) ≡ true) ↔ (a ≡ b)
==_iff a b = ground arith

-- To split on a computed value and keep the equation.
pub Bool-cases : (b : Bool) → (b ≡ true) ⊎ (b ≡ false)
Bool-cases true = inl refl
Bool-cases false = inr refl

pub Option-cases {ℓ} : {A : Type ℓ} (o : Option A) → (o ≡ none) ⊎ ((a : A) × (o ≡ some a))
Option-cases none = inl refl
Option-cases (some a) = inr (a, refl)

abbrev pub is_some {ℓ} : {A : Type ℓ} → Option A → Bool
is_some none = false
is_some (some a) = true

abbrev pub some_or {ℓ} : {A : Type ℓ} → Option A → A → A
some_or none d = d
some_or (some a) d = a

-- `Result<A, E>`.
pub data Result {ℓ κ} (E : Type ℓ) (A : Type κ) : Type (ℓ ⊔ κ) where
  ok : A → Result E A
  err : E → Result E A

abbrev pub ok_or {ℓ κ} : {E : Type ℓ} {A : Type κ} → Option A → E → Result E A
ok_or none e = err e
ok_or (some a) e = ok a

pub Result-cases {ℓ κ} :
    {E : Type ℓ} {A : Type κ} (r : Result E A) → ((a : A) × (r ≡ ok a)) ⊎ ((e : E) × (r ≡ err e))
Result-cases (ok a) = inl (a, refl)
Result-cases (err e) = inr (e, refl)

pub &&-true : (a b : Bool) → (a && b) ≡ true → (a ≡ true) × (b ≡ true)
&&-true true b h = (refl, h)
&&-true false b h = (h, ground arith)

-- A guard that returns early: a successful result passed it.
pub ok_of_guard {ℓ κ} :
    {E : Type ℓ} {A : Type κ} (b : Bool) (e : E) (r : Result E A) {a : A}
    → (if b then err e else r) ≡ ok a
    → (b ≡ false) × (r ≡ ok a)
ok_of_guard true e r h = cc
ok_of_guard false e r h = (refl, h)

pub ok-injective {ℓ κ} :
    {E : Type ℓ} {A : Type κ} {a b : A} → ◌≡◌ {A = Result E A} (ok a) (ok b) → a ≡ b
ok-injective e = cc

pub ok-ne-err {ℓ κ} :
    {E : Type ℓ} {A : Type κ} {a : A} {e : E} → ◌≡◌ {A = Result E A} (ok a) (err e) → ⊥
ok-ne-err h = cc

pub or-false : (a b : Bool) → (a || b) ≡ false → (a ≡ false) × (b ≡ false)
or-false true b h = (h, ground arith)
or-false false b h = (refl, h)

-- A property of both branches is a property of the test.
pub if-cases {ℓ κ} :
    {A : Type ℓ} (P : A → Type κ) (b : Bool) (x y : A)
    → (b ≡ true → P x)
    → (b ≡ false → P y)
    → P (if b then x else y)
if-cases P true x y h k = h refl
if-cases P false x y h k = k refl

pub elim-cases {ℓ κ} :
    {A : Type ℓ} (P : A → Type κ) (b : Bool) (x y : A)
    → (b ≡ true → P x)
    → (b ≡ false → P y)
    → P (elim b [ true ↦ x | false ↦ y ])
elim-cases P true x y h k = h refl
elim-cases P false x y h k = k refl

pub if-true {ℓ} : {A : Type ℓ} (b : Bool) (x y : A) → b ≡ true → (if b then x else y) ≡ x
if-true b x y e = rw e

pub if-false {ℓ} : {A : Type ℓ} (b : Bool) (x y : A) → b ≡ false → (if b then x else y) ≡ y
if-false b x y e = rw e
