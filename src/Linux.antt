-- ===== src/Linux.antt =====
-- The Linux adapters: crates/uperf-linux/src.
pub mod Input
mod Examples
