-- ===== src/Srun.antt =====
-- internal/cli/srun: the supervision of a step.
pub mod Spares
mod Tests
