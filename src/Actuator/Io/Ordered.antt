-- ===== src/Actuator/Io/Ordered.antt =====
-- What `write_ordered` of crates/uperf-actuator/src/lib.rs sends to the two files of a target.
use uperf_linux_rev.Base.Text.{Text}
use uperf_linux_rev.Base.{
  ◌≤◌, ◌≡◌, refl, sym, ap, ◌∙◌, subst, Bool, true, false, not, List, [], ◌∷◌, ◌++◌, ℕ, arith, ltb,
  ◌==◌, Result, ok, err,
}
use uperf_linux_rev.Actuator.Errors.{PlatformError}
use uperf_linux_rev.Actuator.Io.{encode_frequency, write_if, write_ordered}
use uperf_linux_rev.Actuator.Io.Steps.{
  EndsAt, EndsAt-bind, EndsAt-lift, EndsAt-weaken, ends_badly, ends_well,
}
use uperf_linux_rev.Actuator.Machine.{
  Action, Event, Machine, Platform, platform_result, write_string, wrote, ◌>>◌,
}
use uperf_linux_rev.Actuator.Target.{FrequencyTarget}
use uperf_linux_rev.Core.Units.{FrequencyLimits}

-- Writes, latest first, that take the files of a target from one range to another: each moves one
-- bound, to the text of its frequency, and never past the other bound.
pub data Moves (t : FrequencyTarget) (from : FrequencyLimits)
    : List Event → FrequencyLimits → Type 0 where
  unmoved : Moves t from [] from
  min_moved :
      (older : List Event) (lo hi f : ℕ) (value : Text)
      → Moves t from older (record { min = lo; max = hi })
      → encode_frequency t f ≡ ok value
      → f ≤ hi
      → Moves t from (wrote t.min_path value ∷ older) (record { min = f; max = hi })
  max_moved :
      (older : List Event) (lo hi f : ℕ) (value : Text)
      → Moves t from older (record { min = lo; max = hi })
      → encode_frequency t f ≡ ok value
      → lo ≤ f
      → Moves t from (wrote t.max_path value ∷ older) (record { min = lo; max = f })

-- The writes between two machines.
pub record HasMoved {W : Type 0} (t : FrequencyTarget) (from to : FrequencyLimits) (m n : Machine W)
    : Type 0 where
  pub events : List Event
  pub grown : n.trace ≡ events ++ m.trace
  pub moved : Moves t from events to

module _ {W : Type 0} (os : Platform W) (t : FrequencyTarget) (current : FrequencyLimits)
    (from : Machine W) where
  abbrev At : ℕ → ℕ → Machine W → Type 0
  At lo hi n = HasMoved t current (record { min = lo; max = hi }) from n

  write_string-EndsAt :
      (path value : Text) (m : Machine W)
      → EndsAt (λ u n. n.trace ≡ wrote path value ∷ m.trace) (write_string os path value m)
  unfolding write_string
  write_string-EndsAt path value m = go (os.write_string path value m.world)
    where
      go :
          (answer : Result PlatformError (Unit {0}) × W)
          → EndsAt
              (λ u n. n.trace ≡ wrote path value ∷ m.trace)
              (
                platform_result answer.0,
                record m { world = answer.1; trace = wrote path value ∷ m.trace },
              )
      go (ok u, w) = ends_well u _ refl
      go (err e, w) = ends_badly _ _

  not-false : (b : Bool) → not b ≡ false → b ≡ true
  not-false b h = ground arith

  min-At :
      (lo hi f : ℕ) (value : Text) (n : Machine W) (b : Bool)
      → encode_frequency t f ≡ ok value
      → f ≤ hi
      → At lo hi n
      → not (f == lo) ≡ b
      → EndsAt (λ u k. At f hi k) (write_if os b t.min_path value n)
  min-At lo hi f value n true text low at h =
      EndsAt-weaken _ (λ u k. At f hi k) _
        (λ u k grown. record {
          events = wrote t.min_path value ∷ at.events;
          grown = grown ∙ ap (λ x. wrote t.min_path value ∷ x) at.grown;
          moved = min_moved at.events lo hi f value at.moved text low;
        })
        (write_string-EndsAt t.min_path value n)
  min-At lo hi f value n false text low at h =
      ends_well tt n (subst (λ x. At x hi n) (ground arith) at)

  max-At :
      (lo hi f : ℕ) (value : Text) (n : Machine W) (b : Bool)
      → encode_frequency t f ≡ ok value
      → lo ≤ f
      → At lo hi n
      → not (f == hi) ≡ b
      → EndsAt (λ u k. At lo f k) (write_if os b t.max_path value n)
  max-At lo hi f value n true text high at h =
      EndsAt-weaken _ (λ u k. At lo f k) _
        (λ u k grown. record {
          events = wrote t.max_path value ∷ at.events;
          grown = grown ∙ ap (λ x. wrote t.max_path value ∷ x) at.grown;
          moved = max_moved at.events lo hi f value at.moved text high;
        })
        (write_string-EndsAt t.max_path value n)
  max-At lo hi f value n false text high at h =
      ends_well tt n (subst (λ x. At lo x n) (ground arith) at)

  module _ (desired : FrequencyLimits) (before : current.min ≤ current.max)
      (after : desired.min ≤ desired.max) where
    abbrev Done : Unit {0} → Machine W → Type 0
    Done u n = HasMoved t current desired from n

    abbrev both : Text → Text → Bool → Action W (Unit {0})
    both minimum maximum b = elim b [
      | true ↦ do
        write_if os (not (desired.min == current.min)) t.min_path minimum
        write_if os (not (desired.max == current.max)) t.max_path maximum
      | false ↦ do
        write_if os (not (desired.max == current.max)) t.max_path maximum
        write_if os (not (desired.min == current.min)) t.min_path minimum
    ]

    untouched : HasMoved t current current from from
    untouched = record { events = []; grown = refl; moved = unmoved }

    both-Done :
        (minimum maximum : Text) (b : Bool)
        → encode_frequency t desired.min ≡ ok minimum
        → encode_frequency t desired.max ≡ ok maximum
        → ltb desired.max current.min ≡ b
        → EndsAt Done (both minimum maximum b from)
    both-Done minimum maximum true lo hi falls =
        EndsAt-bind (λ u n. At desired.min current.max n) Done _ _
          (min-At current.min current.max desired.min minimum from _ lo (ground arith) untouched
            refl)
          λ u n at. max-At desired.min current.max desired.max maximum n _ hi after at refl
    both-Done minimum maximum false lo hi falls =
        EndsAt-bind (λ u n. At current.min desired.max n) Done _ _
          (max-At current.min current.max desired.max maximum from _ hi (ground arith) untouched
            refl)
          λ u n at. min-At current.min desired.max desired.min minimum n _ lo after at refl

    pub write_ordered-HasMoved : EndsAt Done (write_ordered os t current desired from)
    unfolding write_ordered
    write_ordered-HasMoved =
        EndsAt-bind _ Done _ _ (EndsAt-lift (encode_frequency t desired.min) from) λ minimum n lo.
          EndsAt-bind _ Done _ _ (EndsAt-lift (encode_frequency t desired.max) n) λ maximum k hi.
            subst (λ x. EndsAt Done (both minimum maximum (ltb desired.max current.min) x))
              (sym (hi.1 ∙ lo.1))
              (both-Done minimum maximum (ltb desired.max current.min) lo.0 hi.0 refl)
