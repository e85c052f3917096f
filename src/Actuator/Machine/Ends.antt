-- ===== src/Actuator/Machine/Ends.antt =====
-- How an action ends: the machine after it is related to the one before, and the result of a
-- success satisfies a predicate.
use uperf_linux_rev.Base.{◌≡◌, refl, Bool, true, false, Result, ok, err}
use uperf_linux_rev.Actuator.Errors.{ActuatorError}
use uperf_linux_rev.Actuator.Machine.{Action, Machine, bind_result, fail, lift, pure, ◌>>=◌}
use uperf_linux_rev.Actuator.Machine.Rules.{IsPreorder, Respects}

pub data Ends {W A : Type 0} (R : Machine W → Machine W → Type 0) (Q : A → Type 0) (m : Machine W)
    : Result ActuatorError A × Machine W → Type 0 where
  succeeds : (a : A) (n : Machine W) → R m n → Q a → Ends R Q m (ok a, n)
  fails : (e : ActuatorError) (n : Machine W) → R m n → Ends R Q m (err e, n)

pub record Meets {W A : Type 0} (R : Machine W → Machine W → Type 0) (Q : A → Type 0)
    (a : Action W A) : Type 0 where
  pub at : (m : Machine W) → Ends R Q m (a m)

module _ {W : Type 0} {R : Machine W → Machine W → Type 0} (order : IsPreorder R) where
  pub Meets-pure : {A : Type 0} (Q : A → Type 0) (a : A) → Q a → Meets R Q (pure a)
  Meets-pure Q a q = record { at = λ m. succeeds a m (order.self m) q }

  lift-Ends :
      {A : Type 0} (Q : A → Type 0) (r : Result ActuatorError A) (m : Machine W)
      → ((a : A) → r ≡ ok a → Q a)
      → Ends R Q m (lift r m)
  lift-Ends Q (ok a) m h = succeeds a m (order.self m) (h a refl)
  lift-Ends Q (err e) m h = fails e m (order.self m)

  pub Meets-lift :
      {A : Type 0} (Q : A → Type 0) (r : Result ActuatorError A)
      → ((a : A) → r ≡ ok a → Q a)
      → Meets R Q (lift r)
  Meets-lift Q r h = record { at = λ m. lift-Ends Q r m h }

  pub weaken :
      {A : Type 0} (Q : A → Type 0) (m n : Machine W) (out : Result ActuatorError A × Machine W)
      → R m n
      → Ends R Q n out
      → Ends R Q m out
  weaken Q m n _ h (succeeds a k r q) = succeeds a k (order.chain m n k h r) q
  weaken Q m n _ h (fails e k r) = fails e k (order.chain m n k h r)

  bind-Ends :
      {A B : Type 0} (P : A → Type 0) (Q : B → Type 0) (m : Machine W)
      (out : Result ActuatorError A × Machine W) (f : A → Action W B)
      → Ends R P m out
      → ((x : A) → P x → Meets R Q (f x))
      → Ends R Q m (bind_result out f)
  bind-Ends P Q m _ f (succeeds a n r p) h = weaken Q m n (f a n) r ((h a p).at n)
  bind-Ends P Q m _ f (fails e n r) h = fails e n r

  pub Meets-bind :
      {A B : Type 0} (P : A → Type 0) (Q : B → Type 0) (a : Action W A) (f : A → Action W B)
      → Meets R P a
      → ((x : A) → P x → Meets R Q (f x))
      → Meets R Q (a >>= f)
  Meets-bind P Q a f h k = record { at = λ m. bind-Ends P Q m (a m) f (h.at m) k }

  respects-Ends :
      {A : Type 0} (Q : A → Type 0) (m : Machine W) (out : Result ActuatorError A × Machine W)
      → ((x : A) → Q x)
      → R m out.1
      → Ends R Q m out
  respects-Ends Q m (ok a, n) q h = succeeds a n h (q a)
  respects-Ends Q m (err e, n) q h = fails e n h

  -- Where nothing is asked of the result.
  pub Meets-Respects :
      {A : Type 0} (Q : A → Type 0) (a : Action W A) → ((x : A) → Q x) → Respects R a → Meets R Q a
  Meets-Respects Q a q h = record { at = λ m. respects-Ends Q m (a m) q (h.at m) }

  pub Meets-fail : {A : Type 0} (Q : A → Type 0) (e : ActuatorError) → Meets {A = A} R Q (fail e)
  Meets-fail Q e = record { at = λ m. fails e m (order.self m) }

  pub Meets-choice :
      {A : Type 0} (Q : A → Type 0) (b : Bool) (x y : Action W A)
      → Meets R Q x
      → Meets R Q y
      → Meets R Q (elim b [ true ↦ x | false ↦ y ])
  Meets-choice Q true x y h k = h
  Meets-choice Q false x y h k = k

  ends_related :
      {A : Type 0} (Q : A → Type 0) (m : Machine W) (out : Result ActuatorError A × Machine W)
      → Ends R Q m out
      → R m out.1
  ends_related Q m _ (succeeds a n r q) = r
  ends_related Q m _ (fails e n r) = r

  -- What holds of the machine alone.
  pub Respects-Meets : {A : Type 0} (Q : A → Type 0) (a : Action W A) → Meets R Q a → Respects R a
  Respects-Meets Q a h = record { at = λ m. ends_related Q m (a m) (h.at m) }
