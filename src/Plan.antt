-- ===== src/Plan.antt =====
-- internal/plan: rank placement and task geometry.
pub mod Types
pub mod Policy
pub mod Devices
pub mod Spread
pub mod Select
pub mod Distribute
pub mod Place
mod Tests
