-- ===== src/Allocation/Provision/Listen.antt =====
-- Phase 2 of handleProvisioning: the listeners, one for each port and lane.
use alibaba_cloud_nlb_pool_o.Base.{
  ℕ, String, Bool, true, false, [], ◌∷◌, Option, none, some, modify?, get_elem?, length, any,
  nat_eq, ◌+◌, ◌/◌, ◌%◌, ◌==◌, ◌&&◌, if◌then◌else◌,
}
use alibaba_cloud_nlb_pool_o.Types.{
  CreateListenerResponse, Key, PortAllocation, LaneConfig, ListenerCloudStatus, LsnPhase,
  lsn_pending, lsn_creating, lsn_running, lsn_other, is_running,
}
use alibaba_cloud_nlb_pool_o.World.{
  GoError, get_nlb, create_listener, get_listener_attribute, list_listeners_by_port, Result, ok,
  err, retry_after, Proc, ◌>>=◌, ◌>>◌, pure, finish, request, on_err, on_none, or_panic, exit_if,
  for_index, eventf,
}
use alibaba_cloud_nlb_pool_o.Provider.{
  is_local_rate_limited, is_throttling_error, is_not_found_error, is_incorrect_status_error,
  is_conflict_port_error,
}
use alibaba_cloud_nlb_pool_o.Allocation.Slots.{nlb_name_for_group}
use alibaba_cloud_nlb_pool_o.Allocation.Helpers.{
  provisioning_client_token, patch_listener_status, patch_aggregates,
}
use alibaba_cloud_nlb_pool_o.Allocation.Provision.Groups.{Slot, back_off, patched, uid_residue}

-- the local variables of a round: the index, the listener, its port's index and its lane
pub record Round : Type 0 where
  pub index : ℕ
  pub lsn : ListenerCloudStatus
  pub port_idx : ℕ
  pub lane : LaneConfig

-- `pa.Status.Listeners[i].… = …`, which panics out of range
abbrev pub set_listener :
    PortAllocation → ℕ → (ListenerCloudStatus → ListenerCloudStatus) → Proc PortAllocation
set_listener pa i f = do
  listeners ← or_panic (modify? pa.status.listeners i f)
  pure (record pa { status = record pa.status { listeners = listeners } })

abbrev nlb_key : Slot → PortAllocation → LaneConfig → Key
nlb_key slot pa lane = record {
  namespace = pa.metadata.namespace;
  name = nlb_name_for_group slot.pool.metadata lane slot.group_idx;
}

-- the id of the cloud load balancer of the round's lane, or another round in 5 seconds
unfoldable pub load_balancer_of : Slot → PortAllocation → LaneConfig → Proc String
load_balancer_of slot pa lane = do
  got ← request (get_nlb (nlb_key slot pa lane))
  on_err got (λ e. finish (retry_after 5))
      λ nlb. do
        exit_if (nlb.status.load_balancer_id == "") (retry_after 5)
        pure nlb.status.load_balancer_id

-- the call of CreateListener, with the reads of `ServerGroups[portIdx]` and `Ports[portIdx]`
unfoldable pub call_create_listener :
    Slot → PortAllocation → Round → String → String → Proc (Result CreateListenerResponse)
call_create_listener slot pa r token_prefix nlb_id = do
  sg ← or_panic (get_elem? pa.status.server_groups r.port_idx)
  port ← or_panic (get_elem? slot.pool.spec.ports r.port_idx)
  token ← provisioning_client_token pa (token_prefix ∷ port.name ∷ r.lane.name ∷ [])
  request (
      create_listener (record {
        load_balancer_id = nlb_id;
        listener_protocol = port.protocol;
        listener_port = r.lsn.listener_port;
        server_group_id = sg.server_group_id;
        client_token = token;
      }))

-- records a listener's id and phase on the server, then in memory
unfoldable pub record_listener : PortAllocation → ℕ → String → LsnPhase → Proc PortAllocation
record_listener pa i id phase = do
  answer ← patch_listener_status pa i id phase
  pa ← patched answer
  set_listener pa i (λ l. record l { listener_id = id; phase = phase })

-- Conflict.Port: the listener is there already, so its id is looked up by its port
unfoldable pub adopt_by_port : PortAllocation → Round → String → Proc PortAllocation
unfolding record_listener
adopt_by_port pa r nlb_id = do
  found ← request (list_listeners_by_port nlb_id r.lsn.listener_port)
  on_err found (λ e. finish (retry_after 5))
      λ id. do exit_if (id == "") (retry_after 5); record_listener pa r.index id lsn_creating

-- the errors of the first CreateListener of a listener
unfoldable pub create_listener_failed :
    PortAllocation → Round → String → GoError → Proc PortAllocation
unfolding adopt_by_port
create_listener_failed pa r nlb_id e =
    if is_local_rate_limited (some e)
    then finish (retry_after 1)
    else if is_throttling_error (some e)
    then (do eventf pa.metadata "Warning" "Throttled"; finish (retry_after 60))
    else if is_incorrect_status_error (some e)
    then (do residue ← or_panic (uid_residue pa.metadata.uid); finish (retry_after (1 + residue)))
    else if is_conflict_port_error (some e)
    then adopt_by_port pa r nlb_id
    else finish (retry_after 5)

-- `case lsn.ListenerId == "" && lsn.Phase == "Pending"`
unfoldable pub create_pending : Slot → PortAllocation → Round → Proc PortAllocation
unfolding load_balancer_of call_create_listener create_listener_failed record_listener
create_pending slot pa r = do
  nlb_id ← load_balancer_of slot pa r.lane
  let token_prefix =
      if any (λ l. is_running l.phase) pa.status.listeners then "lsn-recreate" else "lsn"
  resp ← call_create_listener slot pa r token_prefix nlb_id
  on_err resp (create_listener_failed pa r nlb_id) λ created. do
    eventf pa.metadata "Normal" "ListenerCreated"
    record_listener pa r.index created.listener_id lsn_creating

-- the errors of CreateListener when a listener that has vanished is created again
unfoldable pub recreate_failed : GoError → Proc PortAllocation
recreate_failed e =
    if is_local_rate_limited (some e)
    then finish (retry_after 1)
    else if is_throttling_error (some e)
    then finish (retry_after 60)
    else if is_incorrect_status_error (some e)
    then finish (retry_after 3)
    else finish (retry_after 5)

-- the stored id is unknown to the cloud, and no listener was found by the port
unfoldable pub recreate : Slot → PortAllocation → Round → String → Proc PortAllocation
unfolding call_create_listener recreate_failed
recreate slot pa r nlb_id = do
  resp ← call_create_listener slot pa r "lsn-recreate" nlb_id
  on_err resp recreate_failed λ created. do
    answer ← patch_listener_status pa r.index created.listener_id lsn_creating
    pa ← patched answer
    set_listener pa r.index (λ l. record l { listener_id = created.listener_id })

abbrev found_id : Result String → String
found_id (ok id) = id
found_id (err e) = ""

-- `if attr == nil`: look the listener up by its port, or create it again
unfoldable pub repair_listener : Slot → PortAllocation → Round → Proc PortAllocation
unfolding load_balancer_of recreate
repair_listener slot pa r = do
  nlb_id ← load_balancer_of slot pa r.lane
  found ← request (list_listeners_by_port nlb_id r.lsn.listener_port)
  if found_id found == "" then recreate slot pa r nlb_id else do
    answer ← patch_listener_status pa r.index (found_id found) lsn_creating
    pa ← patched answer
    set_listener pa r.index (λ l. record l { listener_id = found_id found })

-- a listener that the cloud lost while it was being created goes back to Pending
unfoldable pub poll_failed : PortAllocation → Round → GoError → Proc (PortAllocation × Bool)
unfolding record_listener back_off
poll_failed pa r e =
    if is_local_rate_limited (some e)
    then finish (retry_after 1)
    else if is_throttling_error (some e)
    then finish (retry_after 60)
    else if is_not_found_error (some e)
    then (do pa ← record_listener pa r.index "" lsn_pending; pure (pa, false))
    else finish (retry_after 5)

-- `case lsn.Phase == "Creating"`; the Boolean is false where `allListenersRunning` is cleared
unfoldable pub poll_listener : Slot → PortAllocation → Round → Proc (PortAllocation × Bool)
unfolding poll_failed repair_listener
poll_listener slot pa r = do
  resp ← request (get_listener_attribute r.lsn.listener_id)
  on_err resp (poll_failed pa r) λ attr.
      on_none attr (do pa ← repair_listener slot pa r; pure (pa, false))
        λ a.
          if a.listener_status == "Running"
          then (do
            answer ← patch_listener_status pa r.index r.lsn.listener_id lsn_running
            pa ← patched answer
            pa ← set_listener pa r.index (λ l. record l { phase = lsn_running })
            pure (pa, true))
          else pure (pa, false)

unfoldable pub listener_by_phase :
    Slot → PortAllocation → Round → LsnPhase → Proc (PortAllocation × Bool)
unfolding poll_listener
listener_by_phase slot pa r lsn_creating = poll_listener slot pa r
listener_by_phase slot pa r lsn_running = pure (pa, true)
listener_by_phase slot pa r lsn_pending = pure (pa, false)
listener_by_phase slot pa r (lsn_other s) = pure (pa, false)

abbrev pub is_lsn_pending : LsnPhase → Bool
is_lsn_pending lsn_pending = true
is_lsn_pending _ = false

-- `i / laneCount`, `i % laneCount` and `pool.Spec.Lanes[laneIdx]`, each with its panic
unfoldable pub round_of : Slot → ℕ → ListenerCloudStatus → Option Round
round_of slot i lsn =
    let lane_count = length slot.pool.spec.lanes in
    if nat_eq lane_count 0 then none else elim (get_elem? slot.pool.spec.lanes (i % lane_count)) [
      | none ↦ none
      | some lane ↦ some (record { index = i; lsn = lsn; port_idx = i / lane_count; lane = lane })
    ]

-- one round of the loop over the listeners, with the flag `allListenersRunning`
unfoldable pub ensure_listener :
    Slot → ℕ → ListenerCloudStatus → PortAllocation × Bool → Proc (PortAllocation × Bool)
unfolding create_pending listener_by_phase round_of
ensure_listener slot i lsn (pa, all_running) = do
  r ← or_panic (round_of slot i lsn)
  if lsn.listener_id == "" && is_lsn_pending lsn.phase
      then (do pa ← create_pending slot pa r; pure (pa, false))
      else (do
        (pa, running) ← listener_by_phase slot pa r lsn.phase
        pure (pa, all_running && running))

-- phase 2 of handleProvisioning
unfoldable pub ensure_listeners : Slot → PortAllocation → Proc PortAllocation
unfolding ensure_listener
ensure_listeners slot pa = do
  (pa, all_running) ← for_index 0 pa.status.listeners (pa, true) (ensure_listener slot)
  if all_running then pure pa else do patch_aggregates pa; finish (retry_after 5)
