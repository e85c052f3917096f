-- ===== src/Daemon/Reconcile/Rules.antt =====
-- Rules for the worker of crates/uperf-daemon/src/reconcile.rs: what holds of the machine before
-- and after, of the result, and of the machine after an error.
use uperf_linux_rev.Base.{Result, ok, err}
use uperf_linux_rev.Actuator.Errors.{ActuatorError}
use uperf_linux_rev.Actuator.Machine.{Action, Machine}
use uperf_linux_rev.Daemon.Reconcile.{
  Limits, ReconcileError, Work, Worker, bind_result, call, call_result, explained, fail,
  get_applied, pure, set_applied, ◌>>=◌,
}

abbrev pub Post :
    {W A : Type 0}
    → (A → Machine W → Type 0)
    → (Machine W → Type 0)
    → Result ReconcileError A
    → Machine W
    → Type 0
Post Q E (ok a) m = Q a m
Post Q E (err e) m = E m

pub record Keeps {W A : Type 0} (P : Machine W → Type 0) (Q : A → Machine W → Type 0)
    (E : Machine W → Type 0) (a : Work W A) : Type 0 where
  pub at : (s : Worker W) → P s.machine → Post Q E (a s).0 (a s).1.machine

abbrev pub PostAction :
    {W A : Type 0}
    → (A → Machine W → Type 0)
    → (Machine W → Type 0)
    → Result ActuatorError A
    → Machine W
    → Type 0
PostAction Q E (ok a) m = Q a m
PostAction Q E (err e) m = E m

explained-Post :
    {W A : Type 0} (E : Machine W → Type 0) (Q : A → Machine W → Type 0)
    (f : ActuatorError → ReconcileError) (r : Result ActuatorError A) (m : Machine W)
    → PostAction Q E r m
    → Post Q E (explained f r) m
explained-Post E Q f (ok a) m h = h
explained-Post E Q f (err e) m h = h

module _ {W : Type 0} {E : Machine W → Type 0} where
  after :
      {A B : Type 0} (Q : A → Machine W → Type 0) (R : B → Machine W → Type 0)
      (out : Result ReconcileError A × Worker W) (f : A → Work W B)
      → Post Q E out.0 out.1.machine
      → ((a : A) → Keeps (Q a) R E (f a))
      → Post R E (bind_result out f).0 (bind_result out f).1.machine
  after Q R (ok a, s) f q h = (h a).at s q
  after Q R (err e, s) f q h = q

module _ {W : Type 0} {P E : Machine W → Type 0} where
  pub Keeps-pure :
      {A : Type 0} (Q : A → Machine W → Type 0) (a : A)
      → ((m : Machine W) → P m → Q a m)
      → Keeps P Q E (pure a)
  Keeps-pure Q a h = record { at = λ s p. h s.machine p }

  pub Keeps-fail :
      {A : Type 0} (Q : A → Machine W → Type 0) (e : ReconcileError)
      → ((m : Machine W) → P m → E m)
      → Keeps P Q E (fail e)
  Keeps-fail Q e h = record { at = λ s p. h s.machine p }

  pub Keeps-bind :
      {A B : Type 0} (Q : A → Machine W → Type 0) (R : B → Machine W → Type 0) (a : Work W A)
      (f : A → Work W B)
      → Keeps P Q E a
      → ((x : A) → Keeps (Q x) R E (f x))
      → Keeps P R E (a >>= f)
  Keeps-bind Q R a f h k = record { at = λ s p. after Q R (a s) f (h.at s p) k }

  pub Keeps-call :
      {A : Type 0} (Q : A → Machine W → Type 0) (f : ActuatorError → ReconcileError)
      (a : Action W A)
      → ((m : Machine W) → P m → PostAction Q E (a m).0 (a m).1)
      → Keeps P Q E (call f a)
  Keeps-call Q f a h = record {
    at = λ s p. explained-Post E Q f (a s.machine).0 (a s.machine).1 (h s.machine p);
  }

  pub Keeps-call_result :
      {A : Type 0} (Q : Result ActuatorError A → Machine W → Type 0) (a : Action W A)
      → ((m : Machine W) → P m → Q (a m).0 (a m).1)
      → Keeps P Q E (call_result a)
  Keeps-call_result Q a h = record { at = λ s p. h s.machine p }

  pub Keeps-get_applied :
      (Q : Machine W → Type 0) → ((m : Machine W) → P m → Q m) → Keeps P (λ l. Q) E get_applied
  Keeps-get_applied Q h = record { at = λ s p. h s.machine p }

  pub Keeps-set_applied :
      (Q : Machine W → Type 0) (l : Limits)
      → ((m : Machine W) → P m → Q m)
      → Keeps P (λ u. Q) E (set_applied l)
  Keeps-set_applied Q l h = record { at = λ s p. h s.machine p }

weaker :
    {W A : Type 0} (E : Machine W → Type 0) (Q R : A → Machine W → Type 0)
    (r : Result ReconcileError A) (m : Machine W)
    → ((a : A) → Q a m → R a m)
    → Post Q E r m
    → Post R E r m
weaker E Q R (ok a) m f h = f a h
weaker E Q R (err e) m f h = h

pub Keeps-weaken :
    {W A : Type 0} {P E : Machine W → Type 0} (Q R : A → Machine W → Type 0) (a : Work W A)
    → ((x : A) (m : Machine W) → Q x m → R x m)
    → Keeps P Q E a
    → Keeps P R E a
Keeps-weaken {E = E} Q R a f h = record {
  at = λ s p. weaker E Q R (a s).0 (a s).1.machine (λ x. f x (a s).1.machine) (h.at s p);
}
