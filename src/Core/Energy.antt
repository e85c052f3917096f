-- ===== src/Core/Energy.antt =====
-- The energy governor: crates/uperf-core/src/energy.rs.
pub mod Model
pub mod Demand
pub mod Bucket
pub mod Governor
pub mod Budget
pub mod Select
pub mod Transition
pub mod Prepared
pub mod Caps
pub mod Coverage
pub mod Cursor
pub mod Burst
pub mod Nearest
pub mod Expansion
