-- ===== src/Actuator/Examples.antt =====
-- Concrete runs of the actuator, at inputs where the conditions of the theorems hold.
pub mod Rig
mod Targets
mod Batches
pub mod Fast
