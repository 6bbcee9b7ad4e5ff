-- ===== src/Provider/Sdk.antt =====
-- The operations of the SDK's NLB client (alibabacloud-go/nlb-20220430) that AlibabaNLBClient calls, as a
-- parameter: an operation acts on the state of the world. A nil response or a nil body is `none`, a nil
-- element of a slice is `none`, and a nil text or number reads as blank or zero. In a request, `none` is a
-- field that is not set. The servers of a group are taken as not nil: the source reads them with no test.
use alibaba_cloud_nlb_pool_o.Base.{String, List, Option, ℤ}
use alibaba_cloud_nlb_pool_o.Types.{
  CreateServerGroupRequest, CreateServerGroupResponse, CreateListenerRequest,
  CreateListenerResponse, JobResponse,
}
use alibaba_cloud_nlb_pool_o.World.{Result}

pub record SdkServer : Type 0 where
  pub server_type : String
  pub server_id : String
  pub server_ip : String
  pub port : ℤ
  pub weight : Option ℤ

pub record SdkServersRequest : Type 0 where
  pub server_group_id : String
  pub servers : List SdkServer
  pub client_token : String

pub record SdkListServerGroups : Type 0 where
  pub server_group_ids : List String
  pub server_group_names : List String
  pub vpc_id : Option String
  pub next_token : Option String

pub record SdkListListeners : Type 0 where
  pub load_balancer_ids : List String
  pub listener_protocol : Option String
  pub next_token : Option String

pub record SdkServerGroup : Type 0 where
  pub server_group_id : String
  pub server_group_name : String
  pub server_group_status : String
  pub vpc_id : String

pub record SdkListener : Type 0 where
  pub listener_id : String
  pub listener_status : String
  pub listener_port : ℤ
  pub listener_protocol : String
  pub load_balancer_id : String
  pub server_group_id : String

-- a page of a listing, with the token of the next one
pub record Page (A : Type 0) : Type 0 where
  pub items : List (Option A)
  pub next_token : String

-- the public addresses of the zones of a load balancer
pub record SdkLoadBalancer : Type 0 where
  pub zone_mappings : List (Option (List (Option String)))

abbrev pub SdkAct : Type 0 → Type 0 → Type 0
SdkAct S A = S → Result (Option A) × S

-- the last text of each operation but of `get_job_status`, the listener's and the deletion's is the region
pub record Sdk (S : Type 0) : Type 0 where
  pub create_server_group : CreateServerGroupRequest → String → SdkAct S CreateServerGroupResponse
  pub create_listener : CreateListenerRequest → String → SdkAct S CreateListenerResponse
  pub add_servers : SdkServersRequest → String → SdkAct S JobResponse
  pub remove_servers : SdkServersRequest → String → SdkAct S JobResponse
  pub list_servers : String → ℤ → String → SdkAct S (List SdkServer)
  pub get_job_status : String → SdkAct S String
  pub list_server_groups : SdkListServerGroups → String → SdkAct S (Page SdkServerGroup)
  pub list_listeners : SdkListListeners → String → SdkAct S (Page SdkListener)
  pub delete_server_group : String → String → SdkAct S Unit
  pub get_listener_attribute : String → SdkAct S SdkListener
  pub delete_listener : String → SdkAct S Unit
  pub get_load_balancer_attribute : String → String → SdkAct S SdkLoadBalancer
