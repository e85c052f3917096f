-- ===== src/Core/Load.antt =====
-- The heavy-load detector: `time_weighted_ema` and `HeavyLoadDetector` of
-- crates/uperf-core/src/policy.rs, over abstract floating point.
pub mod Hysteresis
use Prim.Native.String.{String}
use uperf_linux_rev.Base.Results.{◌>>=◌, ◌>>◌, guard}
use uperf_linux_rev.Base.{
  ℕ, zero, not, ◌&&◌, Option, none, some, leb, ◌==◌, if◌then◌else◌, some_or, Result, ok, err,
}
use uperf_linux_rev.Core.Float.{Floats}
use uperf_linux_rev.Core.Errors.{PolicyError, invalid_load_input}
use uperf_linux_rev.Core.Units.{duration_since}

pub data HeavyLoadState : Type 0 where
  idle heavy : HeavyLoadState

module _ (floats : Floats) where
  open floats use {F, ge, le}

  -- `validate_non_negative_finite`.
  unfoldable pub validate_non_negative_finite : String → F → Result PolicyError (Unit {0})
  validate_non_negative_finite field value =
      if floats.is_finite value && ge value floats.zero
      then ok tt
      else err (invalid_load_input field)

  pub record HeavyLoadDetector : Type 0 where
    pub ema : Option F
    pub state : HeavyLoadState
    pub below_exit_since : Option ℕ

  -- The part of `LoadConfig` that the detector reads.
  pub record LoadConfig : Type 0 where
    pub heavy_enter : F
    pub heavy_exit : F
    pub heavy_dwell_ms : ℕ
    pub ema_time_constant_ms : ℕ

  unfoldable pub default_detector : HeavyLoadDetector
  default_detector = record { ema = none; state = idle; below_exit_since = none }

  abbrev pub smoothed : F → F → ℕ → ℕ → F
  smoothed previous sample elapsed_ms time_constant_ms =
      let elapsed = floats.seconds elapsed_ms in
      let time_constant = floats.seconds time_constant_ms in
      let alpha =
        floats.sub floats.one (floats.exp (floats.div (floats.neg elapsed) time_constant)) in
      floats.add previous (floats.mul alpha (floats.sub sample previous))

  unfoldable pub time_weighted_ema : F → F → ℕ → ℕ → Result PolicyError F
  time_weighted_ema previous sample elapsed_ms time_constant_ms = do
    validate_non_negative_finite "previous" previous
    validate_non_negative_finite "sample" sample
    guard (not (time_constant_ms == 0)) (invalid_load_input "time_constant_ms")
    ok (smoothed previous sample elapsed_ms time_constant_ms)

  abbrev pub next_ema : Option F → F → ℕ → ℕ → Result PolicyError F
  next_ema none sample elapsed_ms time_constant_ms = ok sample
  next_ema (some previous) sample elapsed_ms time_constant_ms =
      time_weighted_ema previous sample elapsed_ms time_constant_ms

  -- The `match self.state`, with the new average in place.
  unfoldable pub judge : HeavyLoadState → HeavyLoadDetector → ℕ → F → LoadConfig → HeavyLoadDetector
  judge idle d now ema config =
      if ge ema config.heavy_enter then record d { state = heavy; below_exit_since = none } else d
  judge heavy d now ema config =
      let below_since = some_or d.below_exit_since now in
      let ripe = leb config.heavy_dwell_ms (duration_since now below_since) in
      if le ema config.heavy_exit
      then (if ripe
          then record d { state = idle; below_exit_since = none }
          else record d { below_exit_since = some below_since })
      else record d { below_exit_since = none }

  -- `HeavyLoadDetector::update`: on an error the detector stays as it was.
  unfoldable pub update :
      HeavyLoadDetector → F → ℕ → ℕ → LoadConfig → Result PolicyError HeavyLoadDetector
  update d sample elapsed_ms now config = do
    validate_non_negative_finite "sample" sample
    validate_non_negative_finite "enter" config.heavy_enter
    validate_non_negative_finite "exit" config.heavy_exit
    ema ← next_ema d.ema sample elapsed_ms config.ema_time_constant_ms
    ok (judge d.state (record d { ema = some ema }) now ema config)
