-- ===== src/Mux.antt =====
-- internal/mux: the output of the ranks at srun.
pub mod Demux
pub mod Pattern
mod Tests
