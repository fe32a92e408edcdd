-- ===== src/Proto.antt =====
-- internal/proto: the frames of the control channel between srun and its steppers.
pub mod Frame
mod Tests
