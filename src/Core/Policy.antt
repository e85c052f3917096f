-- ===== src/Core/Policy.antt =====
-- The policy engine: `PolicyEngine` and `AppRuleEngine` of crates/uperf-core/src/policy.rs.
pub mod Config
pub mod Rules
pub mod Priority
pub mod Apps
pub mod Scheduler
pub mod Parameters
pub mod Engine
pub mod Stateful
pub mod Safety
pub mod Plans
pub mod Precedence
pub mod Tasks
