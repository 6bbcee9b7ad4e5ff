-- ===== src/World/Calls.antt =====
-- Every call that leaves the program, with the type of its answer, and the environment that answers.
-- An environment sees the whole history of calls, so it stands for any behaviour of the API server,
-- of the cloud and of other writers in between.
use alibaba_cloud_nlb_pool_o.Base.{String, Bool, true, false, List, Option, ℤ, ◌<>◌}
use alibaba_cloud_nlb_pool_o.Types.{
  Dict, Key, ObjectMeta, NlbPool, PortAllocation, Pod, Nlb, Eip, CreateServerGroupRequest,
  CreateServerGroupResponse, CreateListenerRequest, CreateListenerResponse, BackendServer,
  ServersRequest, JobResponse, ServerGroupAttribute, ListenerAttribute,
}

-- What the code can tell of an error: its text, the predicates of apimachinery's `errors` package,
-- and `errors.Is` with the sentinel of the local rate limiter.
pub data Reason : Type 0 where
  not_found conflict already_exists local_rate_limited unclassified : Reason

pub record GoError : Type 0 where
  pub message : String
  pub reason : Reason

-- `fmt.Errorf("…: %w", err)`: the reason of the wrapped error is found through it
abbrev pub wrapped : String → GoError → GoError
wrapped prefix e = record { message = prefix <> ": " <> e.message; reason = e.reason }

abbrev pub is_not_found : GoError → Bool
is_not_found e = elim e.reason [ not_found ↦ true | _ ↦ false ]

abbrev pub is_conflict : GoError → Bool
is_conflict e = elim e.reason [ conflict ↦ true | _ ↦ false ]

abbrev pub is_already_exists : GoError → Bool
is_already_exists e = elim e.reason [ already_exists ↦ true | _ ↦ false ]

pub data Result {ℓ} (A : Type ℓ) : Type ℓ where
  ok : A → Result A
  err : GoError → Result A

pub data Kind : Type 0 where
  allocations nlbs eips server_groups listeners : Kind

pub data Call : Type 0 where
  get_pa get_pool get_pod get_nlb get_eip : Key → Call
  list_pas list_nlbs list_eips list_server_groups list_listeners : String → Dict → Call
  list_pods : String → Call
  create_pa : PortAllocation → Call
  create_nlb : Nlb → Call
  create_eip : Eip → Call
  update_pa update_pa_status patch_pa : PortAllocation → Call
  patch_pa_status : PortAllocation → String → Call
  update_pod patch_pod : Pod → Call
  update_pool update_pool_status : NlbPool → Call
  update_nlb : Nlb → Call
  delete : Kind → Key → Call
  record_event : Key → String → String → Call
  create_server_group : CreateServerGroupRequest → Call
  create_listener : CreateListenerRequest → Call
  add_servers remove_servers : ServersRequest → Call
  list_server_group_servers get_server_group_attribute delete_server_group : String → Call
  get_listener_attribute delete_listener : String → Call
  list_listeners_by_port : String → ℤ → Call
  load_balancer_exists : String → Call
  now : Call

-- A write hands back the object as the server holds it; a write that hands back an error alone is
-- `none` where it succeeds. `now` is in nanoseconds.
abbrev pub Response : Call → Type 0
Response (get_pa k) = Result PortAllocation
Response (get_pool k) = Result NlbPool
Response (get_pod k) = Result Pod
Response (get_nlb k) = Result Nlb
Response (get_eip k) = Result Eip
Response (list_pas ns sel) = Result (List PortAllocation)
Response (list_nlbs ns sel) = Result (List Nlb)
Response (list_eips ns sel) = Result (List Eip)
Response (list_server_groups ns sel) = Result (List ObjectMeta)
Response (list_listeners ns sel) = Result (List ObjectMeta)
Response (list_pods ns) = Result (List Pod)
Response (create_pa pa) = Result PortAllocation
Response (create_nlb nlb) = Result Nlb
Response (create_eip eip) = Result Eip
Response (update_pa pa) = Result PortAllocation
Response (update_pa_status pa) = Result PortAllocation
Response (patch_pa pa) = Result PortAllocation
Response (patch_pa_status pa patch) = Result PortAllocation
Response (update_pod pod) = Result Pod
Response (patch_pod pod) = Result Pod
Response (update_pool pool) = Result NlbPool
Response (update_pool_status pool) = Result NlbPool
Response (update_nlb nlb) = Result Nlb
Response (delete kind k) = Option GoError
Response (record_event k type_text reason) = Unit
Response (create_server_group req) = Result CreateServerGroupResponse
Response (create_listener req) = Result CreateListenerResponse
Response (add_servers req) = Result JobResponse
Response (remove_servers req) = Result JobResponse
Response (list_server_group_servers id) = Result (List BackendServer)
Response (get_server_group_attribute id) = Result (Option ServerGroupAttribute)
Response (delete_server_group id) = Option GoError
Response (get_listener_attribute id) = Result (Option ListenerAttribute)
Response (delete_listener id) = Option GoError
Response (list_listeners_by_port id port) = Result String
Response (load_balancer_exists id) = Result Bool
Response now = ℤ

pub data Exchange : Type 0 where
  exchange : (c : Call) → Response c → Exchange

-- the calls made so far with their answers, the last one first
abbrev pub Trace : Type 0
Trace = List Exchange

-- `md5_hex` is crypto/md5 in hexadecimal; the times are RFC 3339 texts and nanoseconds; the rest is
-- controllerutil and metav1.
pub record Env : Type 0 where
  pub respond : Trace → (c : Call) → Response c
  pub md5_hex : String → String
  pub parse_time : String → Option ℤ
  pub format_time : ℤ → String
  pub contains_finalizer : ObjectMeta → String → Bool
  pub add_finalizer : ObjectMeta → String → ObjectMeta
  pub remove_finalizer : ObjectMeta → String → ObjectMeta
  pub is_controlled_by : ObjectMeta → ObjectMeta → Bool
  pub set_controller_reference : ObjectMeta → ObjectMeta → Result ObjectMeta
