-- ===== src/Base/Results.antt =====
-- Sequencing of results: the `?` operator.
use mathlib.Core.Path.{◌≡◌, refl}
use mathlib.Core.Bool.{Bool, true, false}
use uperf_linux_rev.Base.Tests.{Result, ok, err}

infixl 5 ◌>>=◌ ◌>>◌
abbrev pub ◌>>=◌ {ℓ κ μ} :
    {E : Type ℓ} {A : Type κ} {B : Type μ} → Result E A → (A → Result E B) → Result E B
ok a >>= f = f a
err e >>= f = err e

abbrev pub ◌>>◌ {ℓ κ} : {E : Type ℓ} {B : Type κ} → Result E (Unit {0}) → Result E B → Result E B
m >> k = m >>= λ _. k

abbrev pub guard {ℓ} : {E : Type ℓ} → Bool → E → Result E (Unit {0})
guard true e = ok tt
guard false e = err e

-- Inversion of a successful bind.
pub bind-ok {ℓ κ μ} :
    {E : Type ℓ} {A : Type κ} {B : Type μ} (m : Result E A) (f : A → Result E B) {b : B}
    → (m >>= f) ≡ ok b
    → (a : A) × (m ≡ ok a) × (f a ≡ ok b)
bind-ok (ok a) f h = (a, refl, h)
bind-ok (err e) f h = cc
