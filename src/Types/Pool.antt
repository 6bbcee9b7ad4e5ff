-- ===== src/Types/Pool.antt =====
-- apis/v1alpha1/nlbpool_types.go. An `int32` field is an integer; `healthCheck` and the status of the
-- lanes are fields that no controller reads or writes.
use alibaba_cloud_nlb_pool_o.Base.{String, List, ℤ}
use alibaba_cloud_nlb_pool_o.Types.Meta.{ObjectMeta}
use alibaba_cloud_nlb_pool_o.Types.Phase.{PoolPhase}

pub record LaneConfig : Type 0 where
  pub name : String
  pub isp_type : String
  pub bandwidth : String
  pub bandwidth_package_id : String
  pub security_protection_types : List String

pub record PortConfig : Type 0 where
  pub name : String
  pub protocol : String
  pub container_port : ℤ

pub record PortRange : Type 0 where
  pub min : ℤ
  pub max : ℤ

pub record ZoneMapEntry : Type 0 where
  pub zone : String
  pub vswitch_id : String

pub record PoolSpec : Type 0 where
  pub region : String
  pub vpc_id : String
  pub zone_maps : List ZoneMapEntry
  pub lanes : List LaneConfig
  pub ports : List PortConfig
  pub port_range : PortRange
  pub slots_per_nlb : ℤ
  pub min_available_nlbs : ℤ

pub record PoolStatus : Type 0 where
  pub phase : PoolPhase
  pub nlbs_per_lane : ℤ
  pub total_slots : ℤ
  pub available_slots : ℤ
  pub bound_slots : ℤ
  pub message : String
  pub cloud_nlb_ids : List String

pub record NlbPool : Type 0 where
  pub metadata : ObjectMeta
  pub spec : PoolSpec
  pub status : PoolStatus
