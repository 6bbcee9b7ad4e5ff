-- ===== src/Allocation/Calls/Provision.antt =====
-- The calls of handleProvisioning.
use alibaba_cloud_nlb_pool_o.Base.{ℕ, String, Bool, List}
use alibaba_cloud_nlb_pool_o.Types.{
  PortAllocation, ServerGroupCloudStatus, ListenerCloudStatus, LaneConfig, LaneEndpoint, SgPhase,
  LsnPhase, sg_creating, lsn_creating,
}
use alibaba_cloud_nlb_pool_o.World.{GoError}
use alibaba_cloud_nlb_pool_o.World.Only.{Only, IsQuiet, only_rules}
use alibaba_cloud_nlb_pool_o.World.Requests.{request_rules}
use alibaba_cloud_nlb_pool_o.Allocation.Helpers.{
  patch_sg_status, patch_listener_status, provisioning_client_token, patch_aggregates,
}
use alibaba_cloud_nlb_pool_o.Allocation.Provision.{
  Slot, Round, back_off, back_off_create, create_group, poll_group, group_by_phase,
  listener_by_phase, ensure_group, ensure_groups, find_slot, load_balancer_of, call_create_listener,
  record_listener, adopt_by_port, create_listener_failed, create_pending, recreate_failed, recreate,
  repair_listener, poll_failed, poll_listener, ensure_listener, ensure_listeners, lane_endpoint,
}

ruleset rules = (only_rules, request_rules)

pub back_off-IsQuiet : (e : GoError) → Only IsQuiet (back_off e)
unfolding back_off
back_off-IsQuiet e = search rules

back_off_create-IsQuiet : (pa : PortAllocation) (e : GoError) → Only IsQuiet (back_off_create pa e)
unfolding back_off_create
back_off_create-IsQuiet pa e = search rules

pub find_slot-IsQuiet : (pa : PortAllocation) → Only IsQuiet (find_slot pa)
unfolding find_slot
find_slot-IsQuiet pa = search rules depth 12

module _ (slot : Slot) (pa : PortAllocation) (i : ℕ) (sg : ServerGroupCloudStatus) where
  create_group-IsQuiet : Only IsQuiet (create_group slot pa i sg)
  unfolding create_group patch_sg_status provisioning_client_token
  create_group-IsQuiet = search (rules, back_off_create-IsQuiet) depth 14

  poll_group-IsQuiet : Only IsQuiet (poll_group pa i sg)
  unfolding poll_group patch_sg_status
  poll_group-IsQuiet = search (rules, back_off-IsQuiet) depth 14

  group_by_phase-IsQuiet : (phase : SgPhase) → Only IsQuiet (group_by_phase pa i sg phase)
  unfolding group_by_phase
  group_by_phase-IsQuiet sg_creating = poll_group-IsQuiet
  group_by_phase-IsQuiet _ = search rules

ensure_group-IsQuiet :
    (slot : Slot) (i : ℕ) (sg : ServerGroupCloudStatus) (s : PortAllocation × Bool)
    → Only IsQuiet (ensure_group slot i sg s)
unfolding ensure_group
ensure_group-IsQuiet slot i sg (pa, b) =
    search (rules, create_group-IsQuiet, group_by_phase-IsQuiet)

pub ensure_groups-IsQuiet :
    (slot : Slot) (pa : PortAllocation) → Only IsQuiet (ensure_groups slot pa)
unfolding ensure_groups patch_aggregates
ensure_groups-IsQuiet slot pa = search (rules, ensure_group-IsQuiet) depth 8

record_listener-IsQuiet :
    (pa : PortAllocation) (i : ℕ) (id : String) (phase : LsnPhase)
    → Only IsQuiet (record_listener pa i id phase)
unfolding record_listener patch_listener_status
record_listener-IsQuiet pa i id phase = search rules depth 8

module _ (slot : Slot) (pa : PortAllocation) where
  load_balancer_of-IsQuiet : (lane : LaneConfig) → Only IsQuiet (load_balancer_of slot pa lane)
  unfolding load_balancer_of
  load_balancer_of-IsQuiet lane = search rules depth 8

  call_create_listener-IsQuiet :
      (r : Round) (prefix nlb_id : String)
      → Only IsQuiet (call_create_listener slot pa r prefix nlb_id)
  unfolding call_create_listener provisioning_client_token
  call_create_listener-IsQuiet r prefix nlb_id = search rules depth 8

  module _ (r : Round) where
    adopt_by_port-IsQuiet : (nlb_id : String) → Only IsQuiet (adopt_by_port pa r nlb_id)
    unfolding adopt_by_port
    adopt_by_port-IsQuiet nlb_id = search (rules, record_listener-IsQuiet) depth 8

    create_listener_failed-IsQuiet :
        (nlb_id : String) (e : GoError) → Only IsQuiet (create_listener_failed pa r nlb_id e)
    unfolding create_listener_failed
    create_listener_failed-IsQuiet nlb_id e = search (rules, adopt_by_port-IsQuiet) depth 9

    create_pending-IsQuiet : Only IsQuiet (create_pending slot pa r)
    unfolding create_pending
    create_pending-IsQuiet =
        search
          (
            rules, load_balancer_of-IsQuiet, call_create_listener-IsQuiet,
            create_listener_failed-IsQuiet, record_listener-IsQuiet,
          )
          depth 9

    recreate-IsQuiet : (nlb_id : String) → Only IsQuiet (recreate slot pa r nlb_id)
    unfolding recreate recreate_failed patch_listener_status
    recreate-IsQuiet nlb_id = search (rules, call_create_listener-IsQuiet) depth 10

    repair_listener-IsQuiet : Only IsQuiet (repair_listener slot pa r)
    unfolding repair_listener patch_listener_status
    repair_listener-IsQuiet = search (rules, load_balancer_of-IsQuiet, recreate-IsQuiet) depth 10

    poll_failed-IsQuiet : (e : GoError) → Only IsQuiet (poll_failed pa r e)
    unfolding poll_failed
    poll_failed-IsQuiet e = search (rules, record_listener-IsQuiet) depth 8

    poll_listener-IsQuiet : Only IsQuiet (poll_listener slot pa r)
    unfolding poll_listener patch_listener_status
    poll_listener-IsQuiet = search (rules, poll_failed-IsQuiet, repair_listener-IsQuiet) depth 12

    listener_by_phase-IsQuiet :
        (phase : LsnPhase) → Only IsQuiet (listener_by_phase slot pa r phase)
    unfolding listener_by_phase
    listener_by_phase-IsQuiet lsn_creating = poll_listener-IsQuiet
    listener_by_phase-IsQuiet _ = search rules

ensure_listener-IsQuiet :
    (slot : Slot) (i : ℕ) (lsn : ListenerCloudStatus) (s : PortAllocation × Bool)
    → Only IsQuiet (ensure_listener slot i lsn s)
unfolding ensure_listener
ensure_listener-IsQuiet slot i lsn (pa, b) =
    search (rules, create_pending-IsQuiet, listener_by_phase-IsQuiet) depth 8

pub ensure_listeners-IsQuiet :
    (slot : Slot) (pa : PortAllocation) → Only IsQuiet (ensure_listeners slot pa)
unfolding ensure_listeners patch_aggregates
ensure_listeners-IsQuiet slot pa = search (rules, ensure_listener-IsQuiet) depth 8

pub lane_endpoint-IsQuiet :
    (slot : Slot) (pa : PortAllocation) (i : ℕ) (lane : LaneConfig) (eps : List LaneEndpoint)
    → Only IsQuiet (lane_endpoint slot pa i lane eps)
unfolding lane_endpoint
lane_endpoint-IsQuiet slot pa i lane eps = search rules depth 10
