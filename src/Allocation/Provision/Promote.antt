-- ===== src/Allocation/Provision/Promote.antt =====
-- Phase 3 of handleProvisioning: the spec is filled and the allocation becomes available.
use alibaba_cloud_nlb_pool_o.Base.{
  ℕ, suc, List, [], ◌∷◌, ◌++◌, Option, none, some, get_elem?, length, ◌+◌, ◌*◌, ◌==◌,
}
use alibaba_cloud_nlb_pool_o.Types.{
  PortAllocation, PortConfig, LaneConfig, ListenerCloudStatus, ServerGroupCloudStatus,
  ServerGroupRef, EndpointPort, LaneEndpoint, NlbPool, available,
}
use alibaba_cloud_nlb_pool_o.World.{
  get_nlb, get_pa, update_pa, update_pa_status, Reply, done, requeue_now, retry_after, Proc, ◌>>=◌,
  ◌>>◌, pure, finish, request, on_err, or_panic, exit_if, for_index, or_requeue, eventf, key_of,
}
use alibaba_cloud_nlb_pool_o.Allocation.Slots.{int32_of, listener_port_of, nlb_name_for_group}
use alibaba_cloud_nlb_pool_o.Allocation.Helpers.{
  with_phase, sgs_ready_of, listeners_ready_of, update_phase_label,
}
use alibaba_cloud_nlb_pool_o.Allocation.Provision.Groups.{
  Slot, find_slot, fill_arrays, ensure_groups,
}
use alibaba_cloud_nlb_pool_o.Allocation.Provision.Listen.{ensure_listeners}

-- computeProvisioningAggregates
unfoldable pub compute_aggregates : PortAllocation → NlbPool → PortAllocation
compute_aggregates pa pool = record pa {
  status = record pa.status {
    sgs_total = int32_of (length pool.spec.ports);
    listeners_total = int32_of (length pool.spec.ports * length pool.spec.lanes);
    sgs_ready = sgs_ready_of pa;
    listeners_ready = listeners_ready_of pa;
  };
}

-- the loop that fills `sgRefs`
abbrev pub server_group_refs : List ServerGroupCloudStatus → List ServerGroupRef
server_group_refs [] = []
server_group_refs (sg ∷ sgs) =
    record { name = sg.name; server_group_id = sg.server_group_id } ∷ server_group_refs sgs

-- the inner loop over the ports: `pa.Status.Listeners[portIdx*laneCount+laneIdx]` panics out of range
unfoldable pub endpoint_ports :
    Slot → List ListenerCloudStatus → ℕ → ℕ → List PortConfig → Option (List EndpointPort)
endpoint_ports slot listeners lane_idx i [] = some []
endpoint_ports slot listeners lane_idx i (port ∷ ports) =
    let rest = endpoint_ports slot listeners lane_idx (suc i) ports in
    elim (get_elem? listeners (i * length slot.pool.spec.lanes + lane_idx)) [
      | none ↦ none
      | some lsn ↦ elim rest [
        | none ↦ none
        | some more ↦ some (
            record {
              name = port.name;
              listener_port = listener_port_of slot.pool.spec slot.in_group i;
              container_port = port.container_port;
              protocol = port.protocol;
              listener_id = lsn.listener_id;
            }
            ∷ more)
      ]
    ]

-- one round of the loop over the lanes
unfoldable pub lane_endpoint :
    Slot → PortAllocation → ℕ → LaneConfig → List LaneEndpoint → Proc (List LaneEndpoint)
unfolding endpoint_ports
lane_endpoint slot pa lane_idx lane endpoints = do
  got ← request (
      get_nlb (record {
        namespace = pa.metadata.namespace;
        name = nlb_name_for_group slot.pool.metadata lane slot.group_idx;
      }))
  on_err got (λ e. finish (retry_after 5))
      λ nlb. do
        exit_if (nlb.status.dns_name == "") (retry_after 5)
        ports ← or_panic (endpoint_ports slot pa.status.listeners lane_idx 0 slot.pool.spec.ports)
        pure (
            endpoints ++ record { lane = lane.name; eip = nlb.status.dns_name; ports = ports } ∷ [])

-- the end of phase 3: a fresh copy becomes Available
unfoldable pub publish : Slot → PortAllocation → Proc Reply
unfolding compute_aggregates
publish slot pa = do
  got ← request (get_pa (key_of pa.metadata))
  on_err got (λ e. finish requeue_now)
      λ fresh. do
        written ←
            request
              (update_pa_status (compute_aggregates (with_phase available "" fresh) slot.pool))
        fresh ← or_requeue written
        fresh ← update_phase_label fresh
        eventf fresh.metadata "Normal" "Available"
        finish done

-- phase 3 of handleProvisioning
unfoldable pub promote : Slot → PortAllocation → Proc Reply
unfolding lane_endpoint publish
promote slot pa = do
  endpoints ← for_index 0 slot.pool.spec.lanes [] (lane_endpoint slot pa)
  written ← request (
      update_pa (record pa {
        spec = record pa.spec {
          server_groups = server_group_refs pa.status.server_groups;
          endpoints = endpoints;
        };
      }))
  pa ← or_requeue written
  publish slot pa

-- handleProvisioning
unfoldable pub handle_provisioning : PortAllocation → Proc Reply
unfolding find_slot fill_arrays ensure_groups ensure_listeners promote
handle_provisioning pa = do
  slot ← find_slot pa
  pa ← fill_arrays slot pa
  pa ← ensure_groups slot pa
  pa ← ensure_listeners slot pa
  promote slot pa
