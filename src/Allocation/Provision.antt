-- ===== src/Allocation/Provision.antt =====
-- handleProvisioning: the server groups and listeners of an allocation are created and polled, one
-- status patch for each; when all are ready the allocation becomes available.
mod Groups
mod Listen
mod Promote
unfoldable pub use Groups.*
unfoldable pub use Listen.*
unfoldable pub use Promote.*
