-- ===== src/Daemon/Fence.antt =====
-- The safety envelope of crates/uperf-daemon/src/reconcile.rs: upper caps that bind every frequency
-- transaction.
use uperf_linux_rev.Base.{ℕ, min, List}
use uperf_linux_rev.Base.Words.{saturating_add}
use uperf_linux_rev.Core.Domain.{TargetId}
use uperf_linux_rev.Core.Units.{FrequencyLimits}

pub record FrequencySafetyEnvelope : Type 0 where
  pub generation : ℕ
  pub upper_caps : List (TargetId × ℕ)

-- The lock is held for the whole call; a poisoned one is not modelled.
unfoldable pub replace_upper_caps :
    List (TargetId × ℕ) → FrequencySafetyEnvelope → ℕ × FrequencySafetyEnvelope
replace_upper_caps caps envelope =
    let generation = saturating_add envelope.generation 1 in
    (generation, record { generation = generation; upper_caps = caps })

abbrev pub with_upper_caps : {A : Type 0} → (List (TargetId × ℕ) → A) → FrequencySafetyEnvelope → A
with_upper_caps operation envelope = operation envelope.upper_caps

abbrev pub apply_upper_cap : FrequencyLimits → ℕ → FrequencyLimits
apply_upper_cap limits cap = record {
  min = min limits.min (min limits.max cap);
  max = min limits.max cap;
}
