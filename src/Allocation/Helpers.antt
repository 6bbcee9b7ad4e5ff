-- ===== src/Allocation/Helpers.antt =====
-- The helpers of the allocation controller: status writes, tokens, server removal, phase labels.
use alibaba_cloud_nlb_pool_o.Base.{
  ℕ, String, Bool, true, false, not, List, [], ◌∷◌, Option, none, some, ℤ, pos, is_zero, any, count,
  wrap32, show_ℕ, show_ℤ, join, ◌<>◌, ◌==◌, ◌||◌, ◌&&◌, if◌then◌else◌,
}
use alibaba_cloud_nlb_pool_o.Types.{
  Key, lookup, insert, remove, label_phase, annotation_pa_claim, pa_phase_name, releasing, PaPhase,
  PortAllocation, ServerGroupRef, EndpointPort, LaneEndpoint, ExternalAddressPort, ExternalAddress,
  BackendServer, is_active, is_running, ServerStatus, server_status_name, sg_phase_name,
  lsn_phase_name, SgPhase, LsnPhase,
}
use alibaba_cloud_nlb_pool_o.World.{
  GoError, Result, ok, err, get_pod, update_pa, update_pa_status, patch_pod, patch_pa_status,
  remove_servers, list_server_group_servers, Reply, done, requeue_now, Proc, ◌>>=◌, ◌>>◌, pure,
  finish, request, asks, on_err, for_each, or_requeue, eventf, or_keep,
}
use alibaba_cloud_nlb_pool_o.Provider.{
  err_local_rate_limited, is_limited, is_server_not_found_error, is_duplicated_server_error,
  is_incorrect_status_backend_server_error,
}

-- `pa.Status.Phase = phase; pa.Status.Message = message`
abbrev pub with_phase : PaPhase → String → PortAllocation → PortAllocation
with_phase phase message pa = record pa {
  status = record pa.status { phase = phase; message = message };
}

-- `pa.Spec.BoundPod = pod; pa.Spec.BoundPodIP = ip`
abbrev pub with_bound_pod : String → String → PortAllocation → PortAllocation
with_bound_pod pod ip pa = record pa {
  spec = record pa.spec { bound_pod = pod; bound_pod_ip = ip };
}

abbrev pub pod_key : PortAllocation → Key
pod_key pa = record { namespace = pa.metadata.namespace; name = pa.spec.bound_pod }

-- updatePhaseLabel
unfoldable pub update_phase_label : PortAllocation → Proc PortAllocation
update_phase_label pa =
    let phase = pa_phase_name pa.status.phase in
    let pa' = record pa {
      metadata = record pa.metadata { labels = insert label_phase phase pa.metadata.labels };
    } in
    if lookup label_phase pa.metadata.labels == phase
    then pure pa
    else do written ← request (update_pa pa'); pure (or_keep pa' written)

-- generateClientToken
unfoldable pub generate_client_token : List String → Proc String
generate_client_token parts = asks (λ env. env.md5_hex (join "|" parts))

-- the loop of provisioningClientToken: `data += "|" + p`
unfoldable pub token_data : String → List String → String
token_data data' [] = data'
token_data data' (p ∷ parts) = token_data (data' <> "|" <> p) parts

-- provisioningClientToken
unfoldable pub provisioning_client_token : PortAllocation → List String → Proc String
unfolding token_data
provisioning_client_token pa parts = asks (λ env. env.md5_hex (token_data pa.metadata.uid parts))

-- one endpoint's part of lookupContainerPortForSG
abbrev container_port_in : List EndpointPort → String → Option ℤ
container_port_in [] sg_name = none
container_port_in (p ∷ ports) sg_name =
    if p.name == sg_name && not (is_zero p.container_port)
    then some p.container_port
    else if p.name == sg_name && not (is_zero p.listener_port)
    then some p.listener_port
    else container_port_in ports sg_name

abbrev or_else : Option ℤ → ℤ → ℤ
or_else none d = d
or_else (some p) d = p

container_port_of : List LaneEndpoint → String → ℤ
container_port_of [] sg_name = pos 0
container_port_of (ep ∷ eps) sg_name =
    or_else (container_port_in ep.ports sg_name) (container_port_of eps sg_name)

-- lookupContainerPortForSG
unfoldable pub lookup_container_port_for_sg : PortAllocation → String → ℤ
unfolding container_port_of
lookup_container_port_for_sg pa sg_name = container_port_of pa.spec.endpoints sg_name

abbrev external_ports : List EndpointPort → List ExternalAddressPort
external_ports [] = []
external_ports (p ∷ ports) =
    record { name = p.name; port = p.listener_port; protocol = p.protocol } ∷ external_ports ports

external_addresses_of : List LaneEndpoint → List ExternalAddress
external_addresses_of [] = []
external_addresses_of (ep ∷ eps) =
    record { lane = ep.lane; ip = ep.eip; ports = external_ports ep.ports }
    ∷ external_addresses_of eps

-- buildExternalAddresses
unfoldable pub build_external_addresses : PortAllocation → List ExternalAddress
unfolding external_addresses_of
build_external_addresses pa = external_addresses_of pa.spec.endpoints

-- the JSON Patch texts
abbrev replace_op : String → String → String
replace_op path value = "{\"op\":\"replace\",\"path\":\"" <> path <> "\",\"value\":" <> value <> "}"

abbrev quoted : String → String
quoted s = "\"" <> s <> "\""

abbrev group_path : ℕ → String
group_path index = "/status/serverGroups/" <> show_ℕ index

abbrev listener_path : ℕ → String
listener_path index = "/status/listeners/" <> show_ℕ index

-- patchSGStatus
unfoldable pub patch_sg_status :
    PortAllocation → ℕ → String → SgPhase → Proc (Result PortAllocation)
patch_sg_status pa index sg_id phase = request (
    patch_pa_status pa (
      "["
      <> replace_op (group_path index <> "/serverGroupId") (quoted sg_id)
      <> ","
      <> replace_op (group_path index <> "/phase") (quoted (sg_phase_name phase))
      <> "]"))

-- patchServerStatus
unfoldable pub patch_server_status :
    PortAllocation → ℕ → ServerStatus → Proc (Result PortAllocation)
patch_server_status pa index status = request (
    patch_pa_status pa (
      "["
      <> replace_op (group_path index <> "/serverStatus") (quoted (server_status_name status))
      <> "]"))

-- patchListenerStatus
unfoldable pub patch_listener_status :
    PortAllocation → ℕ → String → LsnPhase → Proc (Result PortAllocation)
patch_listener_status pa index listener_id phase = request (
    patch_pa_status pa (
      "["
      <> replace_op (listener_path index <> "/listenerId") (quoted listener_id)
      <> ","
      <> replace_op (listener_path index <> "/phase") (quoted (lsn_phase_name phase))
      <> "]"))

abbrev pub sgs_ready_of : PortAllocation → ℤ
sgs_ready_of pa = wrap32 (pos (count (λ sg. is_active sg.phase) pa.status.server_groups))

abbrev pub listeners_ready_of : PortAllocation → ℤ
listeners_ready_of pa = wrap32 (pos (count (λ lsn. is_running lsn.phase) pa.status.listeners))

-- patchAggregates
unfoldable pub patch_aggregates : PortAllocation → Proc (Result PortAllocation)
patch_aggregates pa = request (
    patch_pa_status pa (
      "["
      <> replace_op "/status/sgsReady" (show_ℤ (sgs_ready_of pa))
      <> ","
      <> replace_op "/status/listenersReady" (show_ℤ (listeners_ready_of pa))
      <> "]"))

-- isServerInSG
unfoldable pub is_server_in_sg : String → String → Proc (Result Bool)
is_server_in_sg sg_id server_ip = do
  resp ← request (list_server_group_servers sg_id)
  on_err resp (λ e. pure (err e)) λ servers. pure (ok (any (λ s. s.server_ip == server_ip) servers))

-- clearPodClaim
unfoldable pub clear_pod_claim : PortAllocation → Proc Unit
clear_pod_claim pa = if pa.spec.bound_pod == "" then pure tt else do
  got ← request (get_pod (pod_key pa))
  on_err got (λ e. pure tt)
      λ pod.
        if lookup annotation_pa_claim pod.metadata.annotations == pa.metadata.name
        then (do
          request (
              patch_pod (record pod {
                metadata = record pod.metadata {
                  annotations = remove annotation_pa_claim pod.metadata.annotations;
                };
              }))
          pure tt)
        else pure tt

-- clearClaim
unfoldable pub clear_claim : PortAllocation → String → Proc Reply
clear_claim pa reason = do
  written ← request (update_pa (with_bound_pod "" "" pa))
  pa ← or_requeue written
  if pa.status.message == reason then finish done else do
    request (update_pa_status (record pa { status = record pa.status { message = reason } }))
    finish done

-- startReleasing
unfoldable pub start_releasing : PortAllocation → Proc Reply
start_releasing pa = do
  written ←
      request
        (update_pa_status (with_phase releasing ("Releasing from pod " <> pa.spec.bound_pod) pa))
  pa ← or_requeue written
  pa ← update_phase_label pa
  eventf pa.metadata "Normal" "Releasing"
  finish requeue_now

-- the single backend of a request of the pod's address
abbrev pub backend : PortAllocation → ℤ → BackendServer
backend pa port = record {
  server_type = "Ip";
  server_id = pa.spec.bound_pod_ip;
  server_ip = pa.spec.bound_pod_ip;
  port = port;
  weight = pos 100;
}

-- one round of the loop of removeServers; `some e` stops it with the error `e`
unfoldable pub remove_servers_round :
    PortAllocation → ServerGroupRef → Bool × Option GoError → Proc (Bool × Option GoError)
remove_servers_round pa sg_ref (throttled, some e) = pure (throttled, some e)
remove_servers_round pa sg_ref (throttled, none) =
    if sg_ref.server_group_id == "" then pure (throttled, none) else do
      token ← generate_client_token (
          pa.metadata.namespace ∷ pa.metadata.name ∷ "remove" ∷ sg_ref.server_group_id
          ∷ pa.spec.bound_pod_ip ∷ pa.metadata.resource_version ∷ [])
      resp ← request (
          remove_servers (record {
            server_group_id = sg_ref.server_group_id;
            servers = backend pa (lookup_container_port_for_sg pa sg_ref.name) ∷ [];
            client_token = token;
          }))
      on_err resp
          (λ e.
            if is_server_not_found_error (some e) || is_duplicated_server_error (some e)
            then pure (throttled, none)
            else if is_incorrect_status_backend_server_error (some e)
            then pure (throttled, none)
            else if is_limited e
            then pure (true, none)
            else pure (throttled, some e))
          (λ _. pure (throttled, none))

-- removeServers
unfoldable pub remove_all_servers : PortAllocation → Proc (Option GoError)
unfolding remove_servers_round
remove_all_servers pa = if pa.spec.bound_pod_ip == "" then pure none else do
  (throttled, failure) ← for_each pa.spec.server_groups (false, none) (remove_servers_round pa)
  pure (elim failure [
    | some e ↦ some e
    | none ↦ (if throttled then some err_local_rate_limited else none)
  ])
