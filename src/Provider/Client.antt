-- ===== src/Provider/Client.antt =====
-- NLBAPIClient of pkg/provider/nlb_api_client.go: an operation acts on the state `S` of the world, and
-- answers a result; `none` is a loop whose fuel ran out.
use alibaba_cloud_nlb_pool_o.Base.{String, Bool, List, Option, ℤ}
use alibaba_cloud_nlb_pool_o.Types.{
  CreateServerGroupRequest, CreateServerGroupResponse, CreateListenerRequest,
  CreateListenerResponse, BackendServer, ServersRequest, JobResponse, ServerGroupAttribute,
  ListenerAttribute,
}
use alibaba_cloud_nlb_pool_o.World.{Result}

abbrev pub Act : Type 0 → Type 0 → Type 0
Act S A = S → Option (Result A × S)

pub record ListServerGroupsRequest : Type 0 where
  pub vpc_id : String
  pub server_group_names : List String

pub record ServerGroupSummary : Type 0 where
  pub server_group_id : String
  pub server_group_name : String

pub record ListListenersRequest : Type 0 where
  pub load_balancer_id : String
  pub listener_protocol : String

pub record ListenerSummary : Type 0 where
  pub listener_id : String
  pub listener_port : ℤ
  pub listener_protocol : String
  pub load_balancer_id : String

pub record NlbApiClient (S : Type 0) : Type 0 where
  pub create_server_group : CreateServerGroupRequest → Act S CreateServerGroupResponse
  pub create_listener : CreateListenerRequest → Act S CreateListenerResponse
  pub add_servers_to_server_group : ServersRequest → Act S JobResponse
  pub remove_servers_from_server_group : ServersRequest → Act S JobResponse
  pub get_job_status : String → Act S String
  pub list_server_groups : ListServerGroupsRequest → Act S (List ServerGroupSummary)
  pub list_listeners : ListListenersRequest → Act S (List ListenerSummary)
  pub list_server_group_servers : String → Act S (List BackendServer)
  pub get_server_group_attribute : String → Act S (Option ServerGroupAttribute)
  pub delete_server_group : String → Act S Unit
  pub get_listener_attribute : String → Act S (Option ListenerAttribute)
  pub delete_listener : String → Act S Unit
  pub list_server_groups_by_name : String → String → Act S String
  pub list_listeners_by_port : String → ℤ → Act S String
  pub get_load_balancer_eip : String → Act S String
  pub load_balancer_exists : String → Act S Bool

-- a call of the interface, with the type of what it answers
pub data ApiCall : Type 0 where
  create_server_group : CreateServerGroupRequest → ApiCall
  create_listener : CreateListenerRequest → ApiCall
  add_servers_to_server_group remove_servers_from_server_group : ServersRequest → ApiCall
  list_server_groups : ListServerGroupsRequest → ApiCall
  list_listeners : ListListenersRequest → ApiCall
  get_job_status list_server_group_servers get_server_group_attribute : String → ApiCall
  delete_server_group get_listener_attribute delete_listener : String → ApiCall
  list_server_groups_by_name : String → String → ApiCall
  list_listeners_by_port : String → ℤ → ApiCall
  get_load_balancer_eip load_balancer_exists : String → ApiCall

abbrev pub Answer : ApiCall → Type 0
Answer (ApiCall.create_server_group req) = CreateServerGroupResponse
Answer (ApiCall.create_listener req) = CreateListenerResponse
Answer (ApiCall.add_servers_to_server_group req) = JobResponse
Answer (ApiCall.remove_servers_from_server_group req) = JobResponse
Answer (ApiCall.get_job_status id) = String
Answer (ApiCall.list_server_groups req) = List ServerGroupSummary
Answer (ApiCall.list_listeners req) = List ListenerSummary
Answer (ApiCall.list_server_group_servers id) = List BackendServer
Answer (ApiCall.get_server_group_attribute id) = Option ServerGroupAttribute
Answer (ApiCall.delete_server_group id) = Unit
Answer (ApiCall.get_listener_attribute id) = Option ListenerAttribute
Answer (ApiCall.delete_listener id) = Unit
Answer (ApiCall.list_server_groups_by_name vpc_id name) = String
Answer (ApiCall.list_listeners_by_port id port) = String
Answer (ApiCall.get_load_balancer_eip id) = String
Answer (ApiCall.load_balancer_exists id) = Bool

-- the call of a client
abbrev pub perform : {S : Type 0} → NlbApiClient S → (c : ApiCall) → Act S (Answer c)
perform client (ApiCall.create_server_group req) = client.create_server_group req
perform client (ApiCall.create_listener req) = client.create_listener req
perform client (ApiCall.add_servers_to_server_group req) = client.add_servers_to_server_group req
perform client (ApiCall.remove_servers_from_server_group req) =
    client.remove_servers_from_server_group req
perform client (ApiCall.get_job_status id) = client.get_job_status id
perform client (ApiCall.list_server_groups req) = client.list_server_groups req
perform client (ApiCall.list_listeners req) = client.list_listeners req
perform client (ApiCall.list_server_group_servers id) = client.list_server_group_servers id
perform client (ApiCall.get_server_group_attribute id) = client.get_server_group_attribute id
perform client (ApiCall.delete_server_group id) = client.delete_server_group id
perform client (ApiCall.get_listener_attribute id) = client.get_listener_attribute id
perform client (ApiCall.delete_listener id) = client.delete_listener id
perform client (ApiCall.list_server_groups_by_name vpc_id name) =
    client.list_server_groups_by_name vpc_id name
perform client (ApiCall.list_listeners_by_port id port) = client.list_listeners_by_port id port
perform client (ApiCall.get_load_balancer_eip id) = client.get_load_balancer_eip id
perform client (ApiCall.load_balancer_exists id) = client.load_balancer_exists id
