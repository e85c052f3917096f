-- ===== src/Actuator.antt =====
-- The transactional actuator: crates/uperf-actuator/src/lib.rs.
pub mod Values
pub mod Errors
pub mod Target
pub mod Writes
pub mod Journal
pub mod TaskMask
pub mod UnitMask
pub mod Machine
pub mod Io
pub mod Batch
pub mod Fast
pub mod Restore
pub mod Examples
