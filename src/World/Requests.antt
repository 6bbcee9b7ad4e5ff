-- ===== src/World/Requests.antt =====
-- `Only-request` once for each call, so that `search` finds the answer's type.
use alibaba_cloud_nlb_pool_o.Base.{String, Bool, List, Option, ℤ}
use alibaba_cloud_nlb_pool_o.Types.{
  Dict, Key, ObjectMeta, NlbPool, PortAllocation, Pod, Nlb, Eip, CreateServerGroupRequest,
  CreateServerGroupResponse, CreateListenerRequest, CreateListenerResponse, BackendServer,
  ServersRequest, JobResponse, ServerGroupAttribute, ListenerAttribute,
}
use alibaba_cloud_nlb_pool_o.World.Calls.{Call, GoError, Result, Kind}
use alibaba_cloud_nlb_pool_o.World.Monad.{request}
use alibaba_cloud_nlb_pool_o.World.Only.{Only, Only-request}

module _ {K : Call → Type 0} where
  pub Only-get_pa :
      (k : Key) → K (Call.get_pa k) → Only K {A = Result PortAllocation} (request (Call.get_pa k))
  Only-get_pa k holds = Only-request (Call.get_pa k) holds

  pub Only-get_pool :
      (k : Key) → K (Call.get_pool k) → Only K {A = Result NlbPool} (request (Call.get_pool k))
  Only-get_pool k holds = Only-request (Call.get_pool k) holds

  pub Only-get_pod :
      (k : Key) → K (Call.get_pod k) → Only K {A = Result Pod} (request (Call.get_pod k))
  Only-get_pod k holds = Only-request (Call.get_pod k) holds

  pub Only-get_nlb :
      (k : Key) → K (Call.get_nlb k) → Only K {A = Result Nlb} (request (Call.get_nlb k))
  Only-get_nlb k holds = Only-request (Call.get_nlb k) holds

  pub Only-get_eip :
      (k : Key) → K (Call.get_eip k) → Only K {A = Result Eip} (request (Call.get_eip k))
  Only-get_eip k holds = Only-request (Call.get_eip k) holds

  pub Only-list_pas :
      (ns : String) (sel : Dict)
      → K (Call.list_pas ns sel)
      → Only K {A = Result (List PortAllocation)} (request (Call.list_pas ns sel))
  Only-list_pas ns sel holds = Only-request (Call.list_pas ns sel) holds

  pub Only-list_nlbs :
      (ns : String) (sel : Dict)
      → K (Call.list_nlbs ns sel)
      → Only K {A = Result (List Nlb)} (request (Call.list_nlbs ns sel))
  Only-list_nlbs ns sel holds = Only-request (Call.list_nlbs ns sel) holds

  pub Only-list_eips :
      (ns : String) (sel : Dict)
      → K (Call.list_eips ns sel)
      → Only K {A = Result (List Eip)} (request (Call.list_eips ns sel))
  Only-list_eips ns sel holds = Only-request (Call.list_eips ns sel) holds

  pub Only-list_server_groups :
      (ns : String) (sel : Dict)
      → K (Call.list_server_groups ns sel)
      → Only K {A = Result (List ObjectMeta)} (request (Call.list_server_groups ns sel))
  Only-list_server_groups ns sel holds = Only-request (Call.list_server_groups ns sel) holds

  pub Only-list_listeners :
      (ns : String) (sel : Dict)
      → K (Call.list_listeners ns sel)
      → Only K {A = Result (List ObjectMeta)} (request (Call.list_listeners ns sel))
  Only-list_listeners ns sel holds = Only-request (Call.list_listeners ns sel) holds

  pub Only-list_pods :
      (ns : String)
      → K (Call.list_pods ns)
      → Only K {A = Result (List Pod)} (request (Call.list_pods ns))
  Only-list_pods ns holds = Only-request (Call.list_pods ns) holds

  pub Only-create_pa :
      (pa : PortAllocation)
      → K (Call.create_pa pa)
      → Only K {A = Result PortAllocation} (request (Call.create_pa pa))
  Only-create_pa pa holds = Only-request (Call.create_pa pa) holds

  pub Only-create_nlb :
      (nlb : Nlb)
      → K (Call.create_nlb nlb)
      → Only K {A = Result Nlb} (request (Call.create_nlb nlb))
  Only-create_nlb nlb holds = Only-request (Call.create_nlb nlb) holds

  pub Only-create_eip :
      (eip : Eip)
      → K (Call.create_eip eip)
      → Only K {A = Result Eip} (request (Call.create_eip eip))
  Only-create_eip eip holds = Only-request (Call.create_eip eip) holds

  pub Only-update_pa :
      (pa : PortAllocation)
      → K (Call.update_pa pa)
      → Only K {A = Result PortAllocation} (request (Call.update_pa pa))
  Only-update_pa pa holds = Only-request (Call.update_pa pa) holds

  pub Only-update_pa_status :
      (pa : PortAllocation)
      → K (Call.update_pa_status pa)
      → Only K {A = Result PortAllocation} (request (Call.update_pa_status pa))
  Only-update_pa_status pa holds = Only-request (Call.update_pa_status pa) holds

  pub Only-patch_pa :
      (pa : PortAllocation)
      → K (Call.patch_pa pa)
      → Only K {A = Result PortAllocation} (request (Call.patch_pa pa))
  Only-patch_pa pa holds = Only-request (Call.patch_pa pa) holds

  pub Only-patch_pa_status :
      (pa : PortAllocation) (patch : String)
      → K (Call.patch_pa_status pa patch)
      → Only K {A = Result PortAllocation} (request (Call.patch_pa_status pa patch))
  Only-patch_pa_status pa patch holds = Only-request (Call.patch_pa_status pa patch) holds

  pub Only-update_pod :
      (pod : Pod)
      → K (Call.update_pod pod)
      → Only K {A = Result Pod} (request (Call.update_pod pod))
  Only-update_pod pod holds = Only-request (Call.update_pod pod) holds

  pub Only-patch_pod :
      (pod : Pod) → K (Call.patch_pod pod) → Only K {A = Result Pod} (request (Call.patch_pod pod))
  Only-patch_pod pod holds = Only-request (Call.patch_pod pod) holds

  pub Only-update_pool :
      (pool : NlbPool)
      → K (Call.update_pool pool)
      → Only K {A = Result NlbPool} (request (Call.update_pool pool))
  Only-update_pool pool holds = Only-request (Call.update_pool pool) holds

  pub Only-update_pool_status :
      (pool : NlbPool)
      → K (Call.update_pool_status pool)
      → Only K {A = Result NlbPool} (request (Call.update_pool_status pool))
  Only-update_pool_status pool holds = Only-request (Call.update_pool_status pool) holds

  pub Only-update_nlb :
      (nlb : Nlb)
      → K (Call.update_nlb nlb)
      → Only K {A = Result Nlb} (request (Call.update_nlb nlb))
  Only-update_nlb nlb holds = Only-request (Call.update_nlb nlb) holds

  pub Only-delete :
      (kind : Kind) (k : Key)
      → K (Call.delete kind k)
      → Only K {A = Option GoError} (request (Call.delete kind k))
  Only-delete kind k holds = Only-request (Call.delete kind k) holds

  pub Only-record_event :
      (k : Key) (event_type reason : String)
      → K (Call.record_event k event_type reason)
      → Only K {A = Unit {0}} (request (Call.record_event k event_type reason))
  Only-record_event k event_type reason holds =
      Only-request (Call.record_event k event_type reason) holds

  pub Only-create_server_group :
      (req : CreateServerGroupRequest)
      → K (Call.create_server_group req)
      → Only K {A = Result CreateServerGroupResponse} (request (Call.create_server_group req))
  Only-create_server_group req holds = Only-request (Call.create_server_group req) holds

  pub Only-create_listener :
      (req : CreateListenerRequest)
      → K (Call.create_listener req)
      → Only K {A = Result CreateListenerResponse} (request (Call.create_listener req))
  Only-create_listener req holds = Only-request (Call.create_listener req) holds

  pub Only-add_servers :
      (req : ServersRequest)
      → K (Call.add_servers req)
      → Only K {A = Result JobResponse} (request (Call.add_servers req))
  Only-add_servers req holds = Only-request (Call.add_servers req) holds

  pub Only-remove_servers :
      (req : ServersRequest)
      → K (Call.remove_servers req)
      → Only K {A = Result JobResponse} (request (Call.remove_servers req))
  Only-remove_servers req holds = Only-request (Call.remove_servers req) holds

  pub Only-list_server_group_servers :
      (id : String)
      → K (Call.list_server_group_servers id)
      → Only K {A = Result (List BackendServer)} (request (Call.list_server_group_servers id))
  Only-list_server_group_servers id holds = Only-request (Call.list_server_group_servers id) holds

  pub Only-get_server_group_attribute :
      (id : String)
      → K (Call.get_server_group_attribute id)
      → Only K {A = Result (Option ServerGroupAttribute)}
          (request (Call.get_server_group_attribute id))
  Only-get_server_group_attribute id holds = Only-request (Call.get_server_group_attribute id) holds

  pub Only-delete_server_group :
      (id : String)
      → K (Call.delete_server_group id)
      → Only K {A = Option GoError} (request (Call.delete_server_group id))
  Only-delete_server_group id holds = Only-request (Call.delete_server_group id) holds

  pub Only-get_listener_attribute :
      (id : String)
      → K (Call.get_listener_attribute id)
      → Only K {A = Result (Option ListenerAttribute)} (request (Call.get_listener_attribute id))
  Only-get_listener_attribute id holds = Only-request (Call.get_listener_attribute id) holds

  pub Only-delete_listener :
      (id : String)
      → K (Call.delete_listener id)
      → Only K {A = Option GoError} (request (Call.delete_listener id))
  Only-delete_listener id holds = Only-request (Call.delete_listener id) holds

  pub Only-list_listeners_by_port :
      (id : String) (port : ℤ)
      → K (Call.list_listeners_by_port id port)
      → Only K {A = Result String} (request (Call.list_listeners_by_port id port))
  Only-list_listeners_by_port id port holds =
      Only-request (Call.list_listeners_by_port id port) holds

  pub Only-load_balancer_exists :
      (id : String)
      → K (Call.load_balancer_exists id)
      → Only K {A = Result Bool} (request (Call.load_balancer_exists id))
  Only-load_balancer_exists id holds = Only-request (Call.load_balancer_exists id) holds

  pub Only-now : K Call.now → Only K {A = ℤ} (request Call.now)
  Only-now holds = Only-request Call.now holds

pub ruleset request_rules = (
  Only-get_pa, Only-get_pool, Only-get_pod, Only-get_nlb, Only-get_eip, Only-list_pas,
  Only-list_nlbs, Only-list_eips, Only-list_server_groups, Only-list_listeners, Only-list_pods,
  Only-create_pa, Only-create_nlb, Only-create_eip, Only-update_pa, Only-update_pa_status,
  Only-patch_pa, Only-patch_pa_status, Only-update_pod, Only-patch_pod, Only-update_pool,
  Only-update_pool_status, Only-update_nlb, Only-delete, Only-record_event,
  Only-create_server_group, Only-create_listener, Only-add_servers, Only-remove_servers,
  Only-list_server_group_servers, Only-get_server_group_attribute, Only-delete_server_group,
  Only-get_listener_attribute, Only-delete_listener, Only-list_listeners_by_port,
  Only-load_balancer_exists, Only-now,
)
