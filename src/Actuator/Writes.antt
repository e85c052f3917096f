-- ===== src/Actuator/Writes.antt =====
-- The order in which a pair of bounds is written, and the pairs that a reader may see meanwhile:
-- `ordered_write_states`, `transaction_legal_pairs` and `push_unique_pair` of
-- crates/uperf-actuator/src/lib.rs.
pub mod Legal
use uperf_linux_rev.Base.{ℕ, min, max, List, [], ◌∷◌, ◌++◌, ltb, ◌==◌, if◌then◌else◌, any}
use uperf_linux_rev.Core.Units.{FrequencyLimits, same_limits}

unfoldable pub push_unique_pair : List FrequencyLimits → FrequencyLimits → List FrequencyLimits
push_unique_pair pairs pair =
    if any (λ p. same_limits p pair) pairs then pairs else pairs ++ pair ∷ []

-- One conditional assignment of a bound, with the state that it reaches.
abbrev pub move_min :
    ℕ → List FrequencyLimits × FrequencyLimits → List FrequencyLimits × FrequencyLimits
move_min lo (states, next) =
    let moved = record next { min = lo } in
    if lo == next.min then (states, next) else (push_unique_pair states moved, moved)

abbrev pub move_max :
    ℕ → List FrequencyLimits × FrequencyLimits → List FrequencyLimits × FrequencyLimits
move_max hi (states, next) =
    let moved = record next { max = hi } in
    if hi == next.max then (states, next) else (push_unique_pair states moved, moved)

unfoldable pub ordered_write_states : FrequencyLimits → FrequencyLimits → List FrequencyLimits
unfolding push_unique_pair
ordered_write_states current desired =
    (if ltb desired.max current.min
      then move_max desired.max (move_min desired.min (current ∷ [], current))
      else move_min desired.min (move_max desired.max (current ∷ [], current))).0

unfoldable pub push_all : List FrequencyLimits → List FrequencyLimits → List FrequencyLimits
push_all pairs [] = pairs
push_all pairs (p ∷ ps) = push_all (push_unique_pair pairs p) ps

unfoldable pub transaction_legal_pairs : FrequencyLimits → FrequencyLimits → List FrequencyLimits
unfolding push_all
transaction_legal_pairs current desired =
    push_all (ordered_write_states current desired) (ordered_write_states desired current)
