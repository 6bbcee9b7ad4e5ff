-- ===== src/Allocation.antt =====
-- pkg/controller/portallocation_controller.go: the controller of PortAllocation objects.
pub mod Slots
pub mod Helpers
pub mod Provision
pub mod Available
pub mod Binding
pub mod Bound
pub mod Releasing
pub mod Deletion
pub mod Reconcile
pub mod Transitions
pub mod Calls
pub mod Vacancy
pub mod Layout
pub mod Erasure
pub mod Claims
