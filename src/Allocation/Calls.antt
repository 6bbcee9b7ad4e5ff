-- ===== src/Allocation/Calls.antt =====
-- Which calls the parts of the allocation controller make.
mod Provision
mod Servers
pub use Provision.*
pub use Servers.*
