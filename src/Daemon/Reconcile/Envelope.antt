-- ===== src/Daemon/Reconcile/Envelope.antt =====
-- The safety envelope in `reconcile_frequencies` of crates/uperf-daemon/src/reconcile.rs.
use uperf_linux_rev.Base.{
  ℕ, ◌≤◌, ◌≡◌, refl, sym, ◌∙◌, subst, inl, inr, Option, none, some, List, [], ◌∷◌, arith,
  Bool-cases, Result, ok, err, All,
}
use uperf_linux_rev.Base.Maps.{get, insert, get-insert_here, get-insert_there}
use uperf_linux_rev.Base.Text.{text_key}
use uperf_linux_rev.Actuator.Batch.{TargetRegistry}
use uperf_linux_rev.Actuator.Errors.{ActuatorError}
use uperf_linux_rev.Actuator.Machine.{Machine, Platform}
use uperf_linux_rev.Core.Domain.{TargetId}
use uperf_linux_rev.Core.Units.{FrequencyLimits}
use uperf_linux_rev.Daemon.Fence.{apply_upper_cap}
use uperf_linux_rev.Daemon.Reconcile.{
  Limits, ReconcileError, Work, Worker, call, cap_limits, read_capped, read_target, ◌>>=◌,
}
use uperf_linux_rev.Daemon.Reconcile.Rules.{
  Keeps, Keeps-bind, Keeps-call, Keeps-pure, Keeps-weaken, Post, PostAction,
}

-- Neither bound is raised, and no order is broken.
pub record IsLowered (before after : FrequencyLimits) : Type 0 where
  pub low : after.min ≤ before.min
  pub high : after.max ≤ before.max
  pub ordered : before.min ≤ before.max → after.min ≤ after.max

-- A target that had limits has lower ones or the same.
abbrev pub AreLowered : Limits → Limits → Type 0
AreLowered before after =
    (id : TargetId) (l : FrequencyLimits)
    → get id before ≡ some l
    → (k : FrequencyLimits) × (get id after ≡ some k) × IsLowered l k

-- A capped target has limits under its cap.
abbrev pub IsHeld : Limits → TargetId × ℕ → Type 0
IsHeld effective c =
    (l : FrequencyLimits) × (get c.0 effective ≡ some l) × (l.max ≤ c.1) × (l.min ≤ l.max)

-- The limits that were desired, under the caps.
pub record IsEnveloped (caps : List (TargetId × ℕ)) (desired effective : Limits) : Type 0 where
  pub lowered : AreLowered desired effective
  pub held : All (IsHeld effective) caps

same_some : {A : Type 0} (o : Option A) (a b : A) → o ≡ some a → o ≡ some b → a ≡ b
same_some o a b g h = cc

capped-IsLowered : (l : FrequencyLimits) (hz : ℕ) → IsLowered l (apply_upper_cap l hz)
capped-IsLowered l hz = record { low = omega arith; high = omega arith; ordered = λ h. omega arith }

AreLowered-insert :
    (id : TargetId) (l : FrequencyLimits) (hz : ℕ) (e : Limits)
    → ((k : FrequencyLimits) → get id e ≡ some k → k ≡ l)
    → AreLowered e (insert id (apply_upper_cap l hz) e)
AreLowered-insert id l hz e known j k found = elim (Bool-cases (text_key.same id j)) [
  | inl same ↦
      let eq : id ≡ j = (text_key.same_iff id j).0 same in
      (
        apply_upper_cap l hz,
        subst (λ x. get x (insert id (apply_upper_cap l hz) e) ≡ some (apply_upper_cap l hz)) eq
            (get-insert_here id (apply_upper_cap l hz) e),
        subst (λ x. IsLowered x (apply_upper_cap l hz))
            (sym (known k (subst (λ x. get x e ≡ some k) (sym eq) found))) (capped-IsLowered l hz),
      )
  | inr other ↦ (
    k,
    get-insert_there id j (apply_upper_cap l hz) e other ∙ found,
    record { low = omega arith; high = omega arith; ordered = λ h. h },
  )
]

AreLowered-chain : (a b c : Limits) → AreLowered a b → AreLowered b c → AreLowered a c
AreLowered-chain a b c h k id l found =
    let (x, at, lx) = h id l found in
    let (y, bt, ly) = k id x at in
    (
      y,
      bt,
      record {
        low = omega (arith, lx.low, ly.low);
        high = omega (arith, lx.high, ly.high);
        ordered = λ o. ly.ordered (lx.ordered o);
      },
    )

-- One more cap in front.
IsEnveloped-step :
    (id : TargetId) (hz : ℕ) (caps : List (TargetId × ℕ)) (l : FrequencyLimits)
    (desired effective : Limits)
    → ((k : FrequencyLimits) → get id desired ≡ some k → k ≡ l)
    → IsEnveloped caps (insert id (apply_upper_cap l hz) desired) effective
    → IsEnveloped ((id, hz) ∷ caps) desired effective
IsEnveloped-step id hz caps l desired effective known h =
    let x = apply_upper_cap l hz in
    let (k, at, lower) = h.lowered id x (get-insert_here id x desired) in
    record {
      lowered =
          AreLowered-chain desired (insert id x desired) effective
            (AreLowered-insert id l hz desired known) h.lowered;
      held = ((k, at, omega (arith, lower.high), lower.ordered (omega arith)), h.held);
    }

module _ {W : Type 0} (os : Platform W) (registry : TargetRegistry) where
  abbrev Any : Machine W → Type 0
  Any m = Unit {0}

  unclaimed_end :
      {A : Type 0} (r : Result ActuatorError A) (m : Machine W)
      → PostAction (λ (a : A). Any) Any r m
  unclaimed_end (ok a) m = tt
  unclaimed_end (err e) m = tt

  abbrev Enveloping : List (TargetId × ℕ) → Limits → Work W Limits → Type 0
  Enveloping caps desired a = Keeps Any (λ effective m. IsEnveloped caps desired effective) Any a

  abbrev capping :
      TargetId → ℕ → List (TargetId × ℕ) → Limits → Option FrequencyLimits → Work W Limits
  capping id hz caps effective o = elim o [
    | some limits ↦ cap_limits os registry caps (insert id (apply_upper_cap limits hz) effective)
    | none ↦ do
      current ← call (read_capped id) (read_target os registry id)
      cap_limits os registry caps (insert id (apply_upper_cap current hz) effective)
  ]

  stepped :
      (id : TargetId) (hz : ℕ) (caps : List (TargetId × ℕ)) (l : FrequencyLimits) (desired : Limits)
      → ((k : FrequencyLimits) → get id desired ≡ some k → k ≡ l)
      → ((e : Limits) → Enveloping caps e (cap_limits os registry caps e))
      → Enveloping
          ((id, hz) ∷ caps)
          desired
          (cap_limits os registry caps (insert id (apply_upper_cap l hz) desired))
  stepped id hz caps l desired known rest =
      Keeps-weaken
        (λ effective m. IsEnveloped caps (insert id (apply_upper_cap l hz) desired) effective)
        (λ effective m. IsEnveloped ((id, hz) ∷ caps) desired effective) _
        (λ effective m h. IsEnveloped-step id hz caps l desired effective known h) (rest _)

  capping-IsEnveloped :
      (id : TargetId) (hz : ℕ) (caps : List (TargetId × ℕ)) (desired : Limits)
      (o : Option FrequencyLimits)
      → get id desired ≡ o
      → ((e : Limits) → Enveloping caps e (cap_limits os registry caps e))
      → Enveloping ((id, hz) ∷ caps) desired (capping id hz caps desired o)
  capping-IsEnveloped id hz caps desired (some l) at rest =
      stepped id hz caps l desired (λ k found. same_some (get id desired) k l found at) rest
  capping-IsEnveloped id hz caps desired none at rest =
      Keeps-bind (λ l. Any) (λ effective m. IsEnveloped ((id, hz) ∷ caps) desired effective) _ _
        (Keeps-call (λ l. Any) (read_capped id) (read_target os registry id)
          λ m u. unclaimed_end (read_target os registry id m).0 (read_target os registry id m).1)
        λ current. stepped id hz caps current desired (λ k found. cc) rest

  enveloping :
      (caps : List (TargetId × ℕ)) (desired : Limits)
      → Enveloping caps desired (cap_limits os registry caps desired)
  unfolding cap_limits
  enveloping [] desired =
      Keeps-pure (λ effective m. IsEnveloped [] desired effective) desired
        λ m u. record {
          lowered = λ id l found.
              (l, found, record { low = omega arith; high = omega arith; ordered = λ h. h });
          held = tt;
        }
  enveloping ((id, hz) ∷ caps) desired =
      capping-IsEnveloped id hz caps desired (get id desired) refl (enveloping caps)

  -- Where the limits are put under the caps with success, each capped target has ordered limits
  -- under its cap, also where none were desired, and every target with desired limits keeps them or
  -- gets lower ones.
  pub cap_limits-IsEnveloped :
      (caps : List (TargetId × ℕ)) (desired effective : Limits) (s t : Worker W)
      → cap_limits os registry caps desired s ≡ (ok effective, t)
      → IsEnveloped caps desired effective
  cap_limits-IsEnveloped caps desired effective s t at =
      subst
        (λ (out : Result ReconcileError Limits × Worker W).
          Post (λ e m. IsEnveloped caps desired e) Any out.0 out.1.machine)
        at ((enveloping caps desired).at s tt)
