-- ===== src/Install.antt =====
-- internal/install: what an installation changes in the cluster, applies to it and records of it.
pub mod Types
pub mod Paths
pub mod Selection
pub mod Planning
pub mod Apply
pub mod State
pub mod Ownership
pub mod Uninstall
mod Tests
