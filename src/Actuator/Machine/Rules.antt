-- ===== src/Actuator/Machine/Rules.antt =====
-- What every run of an action respects: a relation between the machine before and after, with one
-- rule for each way to build an action.
use mathlib.Core.List.{append_assoc}
use uperf_linux_rev.Base.Text.{Text}
use uperf_linux_rev.Base.{
  ℕ, ◌≡◌, refl, sym, ap, ◌∙◌, List, [], ◌∷◌, ◌++◌, Result, ok, err, All, All-append,
}
use uperf_linux_rev.Actuator.Errors.{ActuatorError}
use uperf_linux_rev.Actuator.Machine.{
  Platform, Machine, Event, wrote, Action, pure, fail, lift, attempt, bind_result, ◌>>=◌, get_state,
  read_string, write_string, read_clock, sleep,
}

pub record Respects {W A : Type 0} (R : Machine W → Machine W → Type 0) (a : Action W A)
    : Type 0 where
  pub at : (m : Machine W) → R m (a m).1

-- A reflexive and transitive relation.
pub record IsPreorder {W : Type 0} (R : Machine W → Machine W → Type 0) : Type 0 where
  pub self : (m : Machine W) → R m m
  pub chain : (a b c : Machine W) → R a b → R b c → R a c

module _ {W : Type 0} {R : Machine W → Machine W → Type 0} (order : IsPreorder R) where
  pub Respects-pure : {A : Type 0} (a : A) → Respects R (pure a)
  Respects-pure a = record { at = λ m. order.self m }

  pub Respects-fail : {A : Type 0} (e : ActuatorError) → Respects {A = A} R (fail e)
  Respects-fail e = record { at = λ m. order.self m }

  pub Respects-lift : {A : Type 0} (r : Result ActuatorError A) → Respects R (lift r)
  Respects-lift r = record { at = λ m. order.self m }

  pub Respects-get_state : Respects R (get_state {W = W})
  Respects-get_state = record { at = λ m. order.self m }

  pub Respects-attempt : {A : Type 0} (a : Action W A) → Respects R a → Respects R (attempt a)
  Respects-attempt a h = record { at = λ m. h.at m }

  bind_result-R :
      {A B : Type 0} (m : Machine W) (r : Result ActuatorError A) (n : Machine W)
      (f : A → Action W B)
      → R m n
      → ((x : A) → Respects R (f x))
      → R m (bind_result (r, n) f).1
  bind_result-R m (ok x) n f h k = order.chain m n _ h ((k x).at n)
  bind_result-R m (err e) n f h k = h

  pub Respects-bind :
      {A B : Type 0} (a : Action W A) (f : A → Action W B)
      → Respects R a
      → ((x : A) → Respects R (f x))
      → Respects R (a >>= f)
  Respects-bind a f h k = record { at = λ m. bind_result-R m (a m).0 (a m).1 f (h.at m) k }

module _ {W : Type 0} where
  -- The state stays.
  abbrev pub SameState : Machine W → Machine W → Type 0
  SameState m n = n.state ≡ m.state

  -- The trace grows, by events that satisfy `P`.
  abbrev pub Emits : (Event → Type 0) → Machine W → Machine W → Type 0
  Emits P m n = (more : List Event) × (n.trace ≡ more ++ m.trace) × All P more

  pub Emits-preorder : (P : Event → Type 0) → IsPreorder (Emits P)
  Emits-preorder P = record {
    self = λ m. ([], refl, tt);
    chain = λ a b c h k. (
      k.0 ++ h.0,
      k.1 ∙ ap (◌++◌ k.0) h.1 ∙ sym (append_assoc k.0 h.0 a.trace),
      All-append P k.0 h.0 k.2 h.2,
    );
  }

module _ {W : Type 0} (os : Platform W) where
  module _ (P : Event → Type 0) where
    pub read_string-Emits : (path : Text) → Respects (Emits P) (read_string os path)
    unfolding read_string
    read_string-Emits path = record { at = λ m. ([], refl, tt) }

    pub write_string-Emits :
        (path value : Text) → P (wrote path value) → Respects (Emits P) (write_string os path value)
    unfolding write_string
    write_string-Emits path value p = record { at = λ m. (wrote path value ∷ [], refl, (p, tt)) }

    pub read_clock-Emits : Respects (Emits P) (read_clock os)
    unfolding read_clock
    read_clock-Emits = record { at = λ m. ([], refl, tt) }

    pub sleep-Emits : (ns : ℕ) → Respects (Emits P) (sleep os ns)
    unfolding sleep
    sleep-Emits ns = record { at = λ m. ([], refl, tt) }
