-- ===== src/Core/Examples.antt =====
-- Concrete runs of the policy code, at inputs where the conditions of the theorems hold.
mod Limits
mod Hints
mod Thermal
pub mod Load
mod Energy
mod Policy
mod Apps
