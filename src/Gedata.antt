-- ===== src/Gedata.antt =====
-- internal/gedata: what the shim reads of the scheduler's answers.
pub mod Tasks
mod Tests
