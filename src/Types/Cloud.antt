-- ===== src/Types/Cloud.antt =====
-- The requests and answers of pkg/provider/nlb_api_client.go that the controllers use.
use alibaba_cloud_nlb_pool_o.Base.{String, List, ℤ}

pub record CreateServerGroupRequest : Type 0 where
  pub vpc_id : String
  pub server_group_name : String
  pub server_group_type : String
  pub protocol : String
  pub scheduler : String
  pub client_token : String

pub record CreateServerGroupResponse : Type 0 where
  pub server_group_id : String
  pub job_id : String

pub record CreateListenerRequest : Type 0 where
  pub load_balancer_id : String
  pub listener_protocol : String
  pub listener_port : ℤ
  pub server_group_id : String
  pub client_token : String

pub record CreateListenerResponse : Type 0 where
  pub listener_id : String
  pub job_id : String

pub record BackendServer : Type 0 where
  pub server_type : String
  pub server_id : String
  pub server_ip : String
  pub port : ℤ
  pub weight : ℤ

-- AddServersRequest and RemoveServersRequest, which have the same fields
pub record ServersRequest : Type 0 where
  pub server_group_id : String
  pub servers : List BackendServer
  pub client_token : String

-- AddServersResponse and RemoveServersResponse
pub record JobResponse : Type 0 where
  pub job_id : String

pub record ServerGroupAttribute : Type 0 where
  pub server_group_id : String
  pub server_group_name : String
  pub server_group_status : String
  pub vpc_id : String

pub record ListenerAttribute : Type 0 where
  pub listener_id : String
  pub listener_status : String
  pub listener_port : ℤ
  pub listener_protocol : String
  pub load_balancer_id : String
  pub server_group_id : String
