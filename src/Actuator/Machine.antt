-- ===== src/Actuator/Machine.antt =====
-- The actuator's state, the platform below it, and the actions that may fail: `RuntimeState`,
-- `FrequencyActuator` and the ports `SysfsIo` and `StateStore`.
--
-- An action carries on from the state that it reached also when it fails. The lock is held for a
-- whole call, so a call is one action. The trace of writes and stores is the model's own.
pub mod Rules
pub mod Ends
use uperf_linux_rev.Base.Text.{Text, text_key}
use uperf_linux_rev.Base.{ℕ, Bool, true, false, List, ◌∷◌, Result, ok, err}
use uperf_linux_rev.Actuator.Errors.{
  ActuatorError, PlatformError, Reason, platform, degraded, recovery_required,
}
use uperf_linux_rev.Actuator.Journal.{Journal, Codec, encode_journal}

-- The operating system and the disk, as state `W` with the calls that the ports make. Each answer
-- may depend on all that went before.
pub record Platform (W : Type 0) : Type 0 where
  pub codec : Codec
  pub read_string : Text → W → Result PlatformError Text × W
  pub write_string : Text → Text → W → Result PlatformError (Unit {0}) × W
  pub store_durable : List ℕ → W → Result PlatformError (Unit {0}) × W
  pub remove_durable : W → Result PlatformError (Unit {0}) × W
  -- `Instant::now`, in nanoseconds, and `thread::sleep`.
  pub now : W → ℕ × W
  pub sleep : ℕ → W → W

pub data ActuatorMode : Type 0 where
  read_write : ActuatorMode
  read_only_degraded : Reason → ActuatorMode

pub record RuntimeState : Type 0 where
  pub mode : ActuatorMode
  pub journal : Journal
  pub recovery_required : Bool

-- What was sent to the platform: a sysfs write, a durable store of a journal that succeeded, and a
-- durable removal that succeeded.
pub data Event : Type 0 where
  wrote : Text → Text → Event
  stored : Journal → Event
  removed : Event

pub record Machine (W : Type 0) : Type 0 where
  pub state : RuntimeState
  pub world : W
  -- Latest first.
  pub trace : List Event

-- An action: a result, and the machine after it.
abbrev pub Action : Type 0 → Type 0 → Type 0
Action W A = Machine W → Result ActuatorError A × Machine W

-- An event joins the trace if the call succeeded.
abbrev pub note : Result PlatformError (Unit {0}) → Event → List Event → List Event
note (ok a) e trace = e ∷ trace
note (err x) e trace = trace

abbrev pub platform_result : {A : Type 0} → Result PlatformError A → Result ActuatorError A
platform_result (ok a) = ok a
platform_result (err e) = err (platform e)

module _ {W : Type 0} where
  abbrev pub pure : {A : Type 0} → A → Action W A
  pure a m = (ok a, m)

  abbrev pub fail : {A : Type 0} → ActuatorError → Action W A
  fail e m = (err e, m)

  abbrev pub bind_result :
      {A B : Type 0}
      → Result ActuatorError A × Machine W
      → (A → Action W B)
      → Result ActuatorError B × Machine W
  bind_result (ok a, m) f = f a m
  bind_result (err e, m) f = (err e, m)

  infixl 5 ◌>>=◌ ◌>>◌
  abbrev pub ◌>>=◌ : {A B : Type 0} → Action W A → (A → Action W B) → Action W B
  ◌>>=◌ a f m = bind_result (a m) f

  abbrev pub ◌>>◌ : {B : Type 0} → Action W (Unit {0}) → Action W B → Action W B
  a >> b = a >>= λ _. b

  abbrev pub lift : {A : Type 0} → Result ActuatorError A → Action W A
  lift r m = (r, m)

  -- The result of an action as a value: the code looks at the error itself.
  abbrev pub attempt : {A : Type 0} → Action W A → Action W (Result ActuatorError A)
  attempt a m = (ok (a m).0, (a m).1)

  abbrev pub get_state : Action W RuntimeState
  get_state m = (ok m.state, m)

  abbrev pub set_journal : Journal → Action W (Unit {0})
  set_journal j m = (ok tt, record m { state = record m.state { journal = j } })

  -- `degrade_locked`.
  unfoldable pub degrade : {A : Type 0} → Reason → Action W A
  degrade reason m = (
    err (degraded reason),
    record m { state = record m.state { mode = read_only_degraded reason } },
  )

module _ {W : Type 0} (os : Platform W) where
  unfoldable pub read_string : Text → Action W Text
  read_string path m =
      let (r, w) = os.read_string path m.world in (platform_result r, record m { world = w })

  unfoldable pub write_string : Text → Text → Action W (Unit {0})
  write_string path value m =
      let (r, w) = os.write_string path value m.world in
      (platform_result r, record m { world = w; trace = wrote path value ∷ m.trace })

  unfoldable pub store_bytes : Journal → Result ActuatorError (List ℕ) → Action W (Unit {0})
  store_bytes j (err e) m = (err e, m)
  store_bytes j (ok bytes) m =
      let (r, w) = os.store_durable bytes m.world in
      (platform_result r, record m { world = w; trace = note r (stored j) m.trace })

  -- `persist_journal`.
  unfoldable pub persist_journal : Journal → Action W (Unit {0})
  persist_journal j = store_bytes j (encode_journal os.codec j)

  unfoldable pub remove_durable : Action W (Unit {0})
  remove_durable m =
      let (r, w) = os.remove_durable m.world in
      (platform_result r, record m { world = w; trace = note r removed m.trace })

  unfoldable pub read_clock : Action W ℕ
  read_clock m = let (t, w) = os.now m.world in (ok t, record m { world = w })

  unfoldable pub sleep : ℕ → Action W (Unit {0})
  sleep ns m = (ok tt, record m { world = os.sleep ns m.world })

abbrev pub mode_result : ActuatorMode → Result ActuatorError (Unit {0})
mode_result read_write = ok tt
mode_result (read_only_degraded reason) = err (degraded reason)

abbrev pub ready_result : ActuatorMode → Bool → Result ActuatorError (Unit {0})
ready_result (read_only_degraded reason) required = err (degraded reason)
ready_result read_write true = err recovery_required
ready_result read_write false = ok tt

-- `ensure_mutation_ready`.
unfoldable pub ensure_mutation_ready : RuntimeState → Result ActuatorError (Unit {0})
ensure_mutation_ready s = ready_result s.mode s.recovery_required
