-- ===== src/Fabricator.antt =====
-- The environment fabricator of internal/fabricator.
pub mod Quote
pub mod Env
pub mod Types
pub mod Unsets
pub mod TableA
pub mod Assemble
mod Tests
