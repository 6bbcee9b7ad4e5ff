-- ===== src/Types.antt =====
-- The API objects of apis/v1alpha1, apis/eipoperator/v1alpha1 and apis/nlboperator/v1, with what the
-- controllers read of Kubernetes' own metadata, and the request types of pkg/provider.
mod Meta
mod Phase
mod Pool
mod Allocation
mod Infra
mod Cloud
unfoldable pub use Meta.*
unfoldable pub use Phase.*
unfoldable pub use Pool.*
unfoldable pub use Allocation.*
unfoldable pub use Infra.*
unfoldable pub use Cloud.*
