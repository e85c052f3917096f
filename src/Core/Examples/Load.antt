-- ===== src/Core/Examples/Load.antt =====
-- A detector over natural numbers in place of floating point, with an average that follows at once.
use Prim.Native.Nat.{compare}
use uperf_linux_rev.Base.Int.{pos_part}
use uperf_linux_rev.Base.{
  ℕ, ◌+◌, ◌-◌, ◌*◌, ◌/◌, ◌^◌, min, max, refl, true, none, some, List, [], ◌∷◌, ltb, leb,
}
use uperf_linux_rev.Core.Float.{Floats}
use uperf_linux_rev.Core.Load.{
  HeavyLoadDetector, LoadConfig, heavy, idle, judge, time_weighted_ema, update,
  validate_non_negative_finite,
}
use uperf_linux_rev.Core.Load.Hysteresis.{IsStep, update-IsStep}

abbrev total : List ℕ → ℕ
total [] = 0
total (x ∷ xs) = x + total xs

abbrev pub naturals : Floats
naturals = record {
  F = ℕ;
  zero = 0;
  one = 1;
  add = λ a b. a + b;
  sub = λ a b. a - b;
  mul = λ a b. a * b;
  div = λ a b. a / b;
  neg = λ a. a;
  exp = λ a. 0;
  ge = λ a b. leb b a;
  le = λ a b. leb a b;
  infinity = 1000000;
  epsilon = 0;
  literal = λ digits places. digits / 10 ^ places;
  of_u64 = λ n. n;
  of_i32 = λ z. pos_part z;
  powi = λ a n. a ^ n;
  mul_add = λ a b c. a * b + c;
  max = λ a b. max a b;
  min = λ a b. min a b;
  hypot = λ a b. a + b;
  clamp = λ x lo hi. min (max x lo) hi;
  sum = total;
  lt = λ a b. ltb a b;
  total_cmp = λ a b. compare a b;
  is_finite = λ a. true;
  seconds = λ ms. ms / 1000;
}

abbrev config : LoadConfig naturals
config = record {
  heavy_enter = 80;
  heavy_exit = 40;
  heavy_dwell_ms = 500;
  ema_time_constant_ms = 100;
}

abbrev idle_detector : HeavyLoadDetector naturals
idle_detector = record { ema = some 10; state = idle; below_exit_since = none }

abbrev heavy_detector : HeavyLoadDetector naturals
heavy_detector = record { ema = some 90; state = heavy; below_exit_since = none }

update-IsStep_example : IsStep naturals idle_detector heavy_detector 90 100 1000 config
unfolding update validate_non_negative_finite time_weighted_ema judge
update-IsStep_example = update-IsStep naturals idle_detector heavy_detector 90 100 1000 config refl
