-- ===== src/Pool.antt =====
-- pkg/controller/nlbpool_controller.go: the controller of NLBPool objects.
pub mod Sizing
pub mod Confirmation
pub mod Builders
pub mod Deletion
pub mod Infrastructure
pub mod Expansion
pub mod Status
pub mod Reconcile
pub mod Gates
pub mod Teardown
pub mod Readiness
pub mod Health
pub mod Labels
pub mod Counting
pub mod Faults
pub mod Legacy
