-- ===== src/Provider.antt =====
-- pkg/provider: the classification of cloud errors, and the clients.
pub mod Errors
pub mod Client
pub mod RateLimiter
pub mod Cloud
pub mod Pages
pub mod Absence
pub mod Sdk
unfoldable pub use Errors.*
pub mod Sessions
