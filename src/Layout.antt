-- ===== src/Layout.antt =====
-- internal/layout: the step counter of a job. The data of a layout is in Plan.Types.
pub mod StepCounter
mod Tests
