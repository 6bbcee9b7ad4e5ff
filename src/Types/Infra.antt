-- ===== src/Types/Infra.antt =====
-- The child objects of a pool: apis/nlboperator/v1 and apis/eipoperator/v1alpha1, with the fields
-- that the pool controller reads or writes. Of the older ServerGroup and Listener objects the
-- deletion code reads the metadata alone.
use alibaba_cloud_nlb_pool_o.Base.{String, List, ℤ}
use alibaba_cloud_nlb_pool_o.Types.Meta.{ObjectMeta}

pub record ZoneMapping : Type 0 where
  pub zone_id : String
  pub vswitch_id : String
  pub allocation_id : String

pub record NlbSpec : Type 0 where
  pub load_balancer_name : String
  pub address_type : String
  pub vpc_id : String
  pub bandwidth_package_id : String
  pub zone_mappings : List ZoneMapping

pub record NlbStatus : Type 0 where
  pub load_balancer_id : String
  pub load_balancer_status : String
  pub dns_name : String

pub record Nlb : Type 0 where
  pub metadata : ObjectMeta
  pub spec : NlbSpec
  pub status : NlbStatus

pub record EipSpec : Type 0 where
  pub name : String
  pub isp : String
  pub internet_charge_type : String
  pub bandwidth : String
  pub security_protection_types : List String

pub record Eip : Type 0 where
  pub metadata : ObjectMeta
  pub spec : EipSpec
  pub allocation_id : String

pub record ServerGroupSpec : Type 0 where
  pub region : String
  pub vpc_id : String
  pub server_group_name : String
  pub server_group_type : String
  pub protocol : String
  pub scheduler : String

pub record ServerGroupStatus : Type 0 where
  pub phase : String
  pub server_group_id : String
  pub message : String

pub record ServerGroup : Type 0 where
  pub metadata : ObjectMeta
  pub spec : ServerGroupSpec
  pub status : ServerGroupStatus

pub record ListenerSpec : Type 0 where
  pub region : String
  pub load_balancer_ref : String
  pub server_group_ref : String
  pub listener_port : ℤ
  pub listener_protocol : String

pub record ListenerStatus : Type 0 where
  pub phase : String
  pub listener_id : String
  pub message : String

pub record Listener : Type 0 where
  pub metadata : ObjectMeta
  pub spec : ListenerSpec
  pub status : ListenerStatus
