-- ===== src/Submit.antt =====
-- internal/submit: the geometry of a submission.
pub mod Geometry
mod Tests
