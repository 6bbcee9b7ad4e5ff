-- ===== src/World.antt =====
-- The controllers' environment: the Kubernetes API (the embedded `client.Client` of both reconcilers),
-- the cloud API (`provider.NLBAPIClient`), the event recorder and the clock.
mod Calls
mod Monad
pub mod Keeps
pub mod Meets
pub mod Flags
pub mod Only
pub mod Requests
pub mod Returns
pub mod Within
pub mod Progress
unfoldable pub use Calls.*
unfoldable pub use Monad.*
