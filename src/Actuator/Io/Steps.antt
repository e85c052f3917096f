-- ===== src/Actuator/Io/Steps.antt =====
-- What the calls of crates/uperf-actuator/src/lib.rs can do to a machine, as a step relation: the
-- ports' calls, the stores of the journal and the changes of the state, one after the other.
use uperf_linux_rev.Base.Text.{Text}
use uperf_linux_rev.Base.{ℕ, ◌≡◌, refl, sym, subst, Result, ok, err, ok-injective, ok-ne-err}
use uperf_linux_rev.Actuator.Errors.{ActuatorError}
use uperf_linux_rev.Actuator.Io.{read_limits}
use uperf_linux_rev.Actuator.Io.Frame.{IsFrame}
use uperf_linux_rev.Actuator.Journal.{Journal}
use uperf_linux_rev.Actuator.Machine.{
  Action, Machine, Platform, RuntimeState, bind_result, lift, persist_journal, read_clock,
  read_string, remove_durable, sleep, write_string,
}
use uperf_linux_rev.Actuator.Machine.Rules.{IsPreorder}
use uperf_linux_rev.Actuator.Target.{FrequencyTarget}
use uperf_linux_rev.Core.Units.{FrequencyLimits}

-- From `m` to `n` by steps that write allowed files only.
pub data Steps {W : Type 0} (os : Platform W) (Allowed : Text → Type 0) (m : Machine W)
    : Machine W → Type 0 where
  start : Steps os Allowed m m
  reads :
      (path : Text) (n : Machine W)
      → Steps os Allowed m n
      → Steps os Allowed m (read_string os path n).1
  writes :
      (path value : Text) (n : Machine W)
      → Allowed path
      → Steps os Allowed m n
      → Steps os Allowed m (write_string os path value n).1
  looks : (n : Machine W) → Steps os Allowed m n → Steps os Allowed m (read_clock os n).1
  naps : (ns : ℕ) (n : Machine W) → Steps os Allowed m n → Steps os Allowed m (sleep os ns n).1
  stores :
      (j : Journal) (n : Machine W)
      → Steps os Allowed m n
      → Steps os Allowed m (persist_journal os j n).1
  removes : (n : Machine W) → Steps os Allowed m n → Steps os Allowed m (remove_durable os n).1
  moves :
      (s : RuntimeState) (n : Machine W)
      → Steps os Allowed m n
      → Steps os Allowed m (record n { state = s })

module _ {W : Type 0} (os : Platform W) where
  module _ {Allowed : Text → Type 0} where
    pub Steps-chain :
        (a b c : Machine W) → Steps os Allowed a b → Steps os Allowed b c → Steps os Allowed a c
    Steps-chain a b _ h start = h
    Steps-chain a b _ h (reads path n k) = reads path n (Steps-chain a b n h k)
    Steps-chain a b _ h (writes path value n ok_path k) =
        writes path value n ok_path (Steps-chain a b n h k)
    Steps-chain a b _ h (looks n k) = looks n (Steps-chain a b n h k)
    Steps-chain a b _ h (naps ns n k) = naps ns n (Steps-chain a b n h k)
    Steps-chain a b _ h (stores j n k) = stores j n (Steps-chain a b n h k)
    Steps-chain a b _ h (removes n k) = removes n (Steps-chain a b n h k)
    Steps-chain a b _ h (moves s n k) = moves s n (Steps-chain a b n h k)

    pub Steps-preorder : IsPreorder (Steps os Allowed)
    Steps-preorder = record { self = λ m. start; chain = Steps-chain }

    pub Steps-frame : IsFrame os (Steps os Allowed) Allowed
    Steps-frame = record {
      order = Steps-preorder;
      reading = λ path. record { at = λ m. reads path m start };
      writing = λ path value ok_path. record { at = λ m. writes path value m ok_path start };
      clock = record { at = λ m. looks m start };
      napping = λ ns. record { at = λ m. naps ns m start };
    }

  pub Steps-widen :
      {P Q : Text → Type 0} (wider : (path : Text) → P path → Q path) (a c : Machine W)
      → Steps os P a c
      → Steps os Q a c
  Steps-widen wider a _ start = start
  Steps-widen wider a _ (reads path n k) = reads path n (Steps-widen wider a n k)
  Steps-widen wider a _ (writes path value n ok_path k) =
      writes path value n (wider path ok_path) (Steps-widen wider a n k)
  Steps-widen wider a _ (looks n k) = looks n (Steps-widen wider a n k)
  Steps-widen wider a _ (naps ns n k) = naps ns n (Steps-widen wider a n k)
  Steps-widen wider a _ (stores j n k) = stores j n (Steps-widen wider a n k)
  Steps-widen wider a _ (removes n k) = removes n (Steps-widen wider a n k)
  Steps-widen wider a _ (moves s n k) = moves s n (Steps-widen wider a n k)

-- No file at all, and any file.
abbrev pub Nowhere : Text → Type 0
Nowhere path = ⊥

abbrev pub Anywhere : Text → Type 0
Anywhere path = Unit {0}

-- On the way from `m`, by steps of the first kind, the files of the target were read and showed
-- exactly this range; from that reading steps of the second kind led to `n`.
pub record HasShown {W : Type 0} (os : Platform W) (Before After : Text → Type 0)
    (t : FrequencyTarget) (range : FrequencyLimits) (m n : Machine W) : Type 0 where
  pub reader : Machine W
  pub reached : Machine W
  pub earlier : Steps os Before m reader
  pub reading : read_limits os t reader ≡ (ok range, reached)
  pub later : Steps os After reached n

-- How an action ends, where what a success tells depends on the machine after it.
pub data EndsAt {W A : Type 0} (Q : A → Machine W → Type 0)
    : Result ActuatorError A × Machine W → Type 0 where
  ends_well : (a : A) (n : Machine W) → Q a n → EndsAt Q (ok a, n)
  ends_badly : (e : ActuatorError) (n : Machine W) → EndsAt Q (err e, n)

pub EndsAt-bind :
    {W A B : Type 0} (P : A → Machine W → Type 0) (Q : B → Machine W → Type 0)
    (out : Result ActuatorError A × Machine W) (f : A → Action W B)
    → EndsAt P out
    → ((a : A) (n : Machine W) → P a n → EndsAt Q (f a n))
    → EndsAt Q (bind_result out f)
EndsAt-bind P Q _ f (ends_well a n p) h = h a n p
EndsAt-bind P Q _ f (ends_badly e n) h = ends_badly e n

pub EndsAt-weaken :
    {W A : Type 0} (P Q : A → Machine W → Type 0) (out : Result ActuatorError A × Machine W)
    → ((a : A) (n : Machine W) → P a n → Q a n)
    → EndsAt P out
    → EndsAt Q out
EndsAt-weaken P Q _ h (ends_well a n p) = ends_well a n (h a n p)
EndsAt-weaken P Q _ h (ends_badly e n) = ends_badly e n

pub EndsAt-lift :
    {W A : Type 0} (r : Result ActuatorError A) (m : Machine W)
    → EndsAt (λ a n. (r ≡ ok a) × (n ≡ m)) (lift r m)
EndsAt-lift (ok a) m = ends_well a m (refl, refl)
EndsAt-lift (err e) m = ends_badly e m

pub EndsAt-ok :
    {W A : Type 0} (Q : A → Machine W → Type 0) (out : Result ActuatorError A × Machine W) (a : A)
    → EndsAt Q out
    → out.0 ≡ ok a
    → Q a out.1
EndsAt-ok Q _ a (ends_well b n q) h = subst (λ x. Q x n) (ok-injective h) q
EndsAt-ok Q _ a (ends_badly e n) h = absurd (ok-ne-err (sym h))
