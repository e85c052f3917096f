-- ===== src/Core.antt =====
-- The policy crate: crates/uperf-core/src.
pub mod Units
pub mod Scene
pub mod Errors
pub mod Sorting
pub mod Frequency
pub mod Hints
pub mod Thermal
pub mod Float
pub mod Load
pub mod Domain
pub mod Energy
pub mod Policy
pub mod Examples
