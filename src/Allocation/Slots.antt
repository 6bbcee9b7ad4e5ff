-- ===== src/Allocation/Slots.antt =====
-- The slot arithmetic of an allocation: its ports on a load balancer and the status arrays that
-- `Reconcile` and `handleProvisioning` fill.
use alibaba_cloud_nlb_pool_o.Base.{
  ℕ, suc, String, List, [], ◌∷◌, ◌++◌, Option, none, some, ℤ, pos, length, is_zero, wrap32, add32,
  mul32, quot32, rem32, show_ℤ, ◌<>◌, if◌then◌else◌,
}
use alibaba_cloud_nlb_pool_o.Types.{
  ObjectMeta, LaneConfig, PortConfig, PoolSpec, ServerGroupCloudStatus, ListenerCloudStatus,
  sg_pending, clear, lsn_pending,
}

-- `int32(len(xs))`, and `int32(i)` of an index
unfoldable pub int32_of : ℕ → ℤ
unfolding wrap32
int32_of n = wrap32 (pos n)

-- `slotIdx / slotsPerNLB` and `slotIdx % slotsPerNLB`; `none` is the panic at a zero divisor
unfoldable pub group_of : PoolSpec → ℤ → Option ℤ
group_of spec slot =
    if is_zero spec.slots_per_nlb then none else some (quot32 slot spec.slots_per_nlb)

unfoldable pub slot_in_group : PoolSpec → ℤ → Option ℤ
slot_in_group spec slot =
    if is_zero spec.slots_per_nlb then none else some (rem32 slot spec.slots_per_nlb)

-- `pool.Spec.PortRange.Min + slotInGroup*portCount + int32(portIdx)`
unfoldable pub listener_port_of : PoolSpec → ℤ → ℕ → ℤ
unfolding int32_of
listener_port_of spec in_group port_idx =
    add32 (add32 spec.port_range.min (mul32 in_group (int32_of (length spec.ports))))
      (int32_of port_idx)

-- the loop that fills `sgs`, one entry for each port
unfoldable pub initial_server_groups : List PortConfig → List ServerGroupCloudStatus
initial_server_groups [] = []
initial_server_groups (port ∷ ports) =
    record { name = port.name; server_group_id = ""; phase = sg_pending; server_status = clear }
    ∷ initial_server_groups ports

-- the inner loop that fills `lsns`, over the lanes
unfoldable pub lane_listeners : String → ℤ → List LaneConfig → List ListenerCloudStatus
lane_listeners port_name port [] = []
lane_listeners port_name port (lane ∷ lanes) =
    record {
      port_name = port_name;
      lane_name = lane.name;
      listener_id = "";
      listener_port = port;
      phase = lsn_pending;
    }
    ∷ lane_listeners port_name port lanes

-- the outer loop, over the ports from index `i` on
unfoldable pub initial_listeners : PoolSpec → ℤ → ℕ → List PortConfig → List ListenerCloudStatus
unfolding lane_listeners
initial_listeners spec in_group i [] = []
initial_listeners spec in_group i (port ∷ ports) =
    lane_listeners port.name (listener_port_of spec in_group i) spec.lanes
    ++ initial_listeners spec in_group (suc i) ports

-- `fmt.Sprintf("%s-%s-%d", pool.Name, lane.Name, nlbGroupIdx)`
unfoldable pub nlb_name_for_group : ObjectMeta → LaneConfig → ℤ → String
nlb_name_for_group pool lane group = pool.name <> "-" <> lane.name <> "-" <> show_ℤ group
