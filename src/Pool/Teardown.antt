-- ===== src/Pool/Teardown.antt =====
-- The deletion of a pool, phase by phase.
pub mod Calls
pub mod Children
pub mod Order
pub mod Infrastructure
pub mod Recorded
pub mod Whole
pub mod Progress
pub mod Finalizer
