-- ===== src/Types/Allocation.antt =====
-- apis/v1alpha1/portallocation_types.go, and the pods that allocations are bound to.
use alibaba_cloud_nlb_pool_o.Base.{String, List, ℤ}
use alibaba_cloud_nlb_pool_o.Types.Meta.{ObjectMeta}
use alibaba_cloud_nlb_pool_o.Types.Phase.{PaPhase, SgPhase, LsnPhase, ServerStatus}

pub record ServerGroupRef : Type 0 where
  pub name : String
  pub server_group_id : String

pub record EndpointPort : Type 0 where
  pub name : String
  pub listener_port : ℤ
  pub container_port : ℤ
  pub protocol : String
  pub listener_id : String

pub record ServerGroupCloudStatus : Type 0 where
  pub name : String
  pub server_group_id : String
  pub phase : SgPhase
  pub server_status : ServerStatus

pub record ListenerCloudStatus : Type 0 where
  pub port_name : String
  pub lane_name : String
  pub listener_id : String
  pub listener_port : ℤ
  pub phase : LsnPhase

pub record LaneEndpoint : Type 0 where
  pub lane : String
  pub eip : String
  pub ports : List EndpointPort

pub record PaSpec : Type 0 where
  pub bound_pod : String
  pub bound_pod_ip : String
  pub server_groups : List ServerGroupRef
  pub endpoints : List LaneEndpoint

pub record ExternalAddressPort : Type 0 where
  pub name : String
  pub port : ℤ
  pub protocol : String

pub record ExternalAddress : Type 0 where
  pub lane : String
  pub ip : String
  pub ports : List ExternalAddressPort

pub record PaStatus : Type 0 where
  pub phase : PaPhase
  pub external_addresses : List ExternalAddress
  pub message : String
  pub server_groups : List ServerGroupCloudStatus
  pub listeners : List ListenerCloudStatus
  pub sgs_ready : ℤ
  pub sgs_total : ℤ
  pub listeners_ready : ℤ
  pub listeners_total : ℤ

pub record PortAllocation : Type 0 where
  pub metadata : ObjectMeta
  pub spec : PaSpec
  pub status : PaStatus

-- what the controllers read of a core/v1 Pod
pub record Pod : Type 0 where
  pub metadata : ObjectMeta
  pub pod_ip : String
