-- ===== src/Daemon.antt =====
-- The daemon between the policy and the actuator: crates/uperf-daemon/src.
pub mod Fence
pub mod Reconcile
mod Examples
