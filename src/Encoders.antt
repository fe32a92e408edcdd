-- ===== src/Encoders.antt =====
-- The encoders of internal/encoders.
pub mod Rle
pub mod Nodelist
mod Tests
