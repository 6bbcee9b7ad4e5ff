-- ===== src/Pool/Infrastructure.antt =====
-- ensureNLBsAndEIPs: the EIPs of each zone and the load balancer of each lane, group by group.
use alibaba_cloud_nlb_pool_o.Base.{
  ℕ, zero, suc, String, Bool, true, false, List, [], ◌∷◌, ℤ, pos, pos_part, not, ◌==◌, ◌&&◌, ◌||◌,
  if◌then◌else◌,
}
use alibaba_cloud_nlb_pool_o.Types.{
  Key, NlbPool, LaneConfig, ZoneMapEntry, ZoneMapping, Nlb, ObjectMeta,
}
use alibaba_cloud_nlb_pool_o.World.{
  get_nlb, get_eip, create_nlb, create_eip, update_nlb, is_not_found, is_already_exists, Result,
  fail, Proc, ◌>>=◌, ◌>>◌, pure, finish, request, asks, on_err, for_each, eventf,
}
use alibaba_cloud_nlb_pool_o.Allocation.Slots.{nlb_name_for_group}
use alibaba_cloud_nlb_pool_o.Pool.Builders.{eip_name_for_group, build_nlb, build_eip}

-- `types.NamespacedName{Name: name, Namespace: pool.Namespace}`
abbrev pub in_namespace : NlbPool → String → Key
in_namespace pool name = record { namespace = pool.metadata.namespace; name = name }

-- `controllerutil.SetControllerReference(pool, obj, r.Scheme)`, whose error is returned
unfoldable pub own : NlbPool → ObjectMeta → Proc ObjectMeta
own pool metadata = do
  owned ← asks (λ env. env.set_controller_reference pool.metadata metadata)
  on_err owned (λ e. finish (fail e)) pure

-- `if err := r.Create(…); err != nil && !errors.IsAlreadyExists(err) { return false, err }`
unfoldable pub accept_existing : {A : Type 0} → Result A → Proc Unit
accept_existing created =
    on_err created (λ e. if is_already_exists e then pure tt else finish (fail e)) λ obj. pure tt

-- the branch of a missing EIP
unfoldable pub create_missing_eip : NlbPool → LaneConfig → String → Proc Unit
unfolding own accept_existing
create_missing_eip pool lane eip_name = do
  let eip = build_eip pool lane eip_name
  metadata ← own pool eip.metadata
  created ← request (create_eip (record eip { metadata = metadata }))
  accept_existing created
  eventf pool.metadata "Normal" "EIPCreated"

-- the body of the loop over the zones: the allocation id of the zone's EIP, blank while it has none
unfoldable pub ensure_eip : NlbPool → LaneConfig → ℤ → ℕ → Proc String
unfolding create_missing_eip
ensure_eip pool lane group_idx zone_idx = do
  let eip_name = eip_name_for_group pool.metadata lane group_idx zone_idx
  got ← request (get_eip (in_namespace pool eip_name))
  on_err got
      (λ e.
        if is_not_found e
        then create_missing_eip pool lane eip_name >> pure ""
        else finish (fail e))
      λ eip. pure eip.allocation_id

-- the loop over the zones, from index `i` on: `eipAllocationIds` with `eipsReady`
unfoldable pub ensure_eips :
    NlbPool → LaneConfig → ℤ → ℕ → List ZoneMapEntry → Proc (List String × Bool)
unfolding ensure_eip
ensure_eips pool lane group_idx i [] = pure ([], true)
ensure_eips pool lane group_idx i (zone ∷ zones) = do
  id ← ensure_eip pool lane group_idx i
  rest ← ensure_eips pool lane group_idx (suc i) zones
  pure (id ∷ rest.0, not (id == "") && rest.1)

-- `eipAllocationIds[i] != "" && ZoneMappings[i].AllocationId != eipAllocationIds[i]`
abbrev pub is_drifted : ZoneMapping → String → Bool
is_drifted zm id = not (id == "") && not (zm.allocation_id == id)

-- the loop that corrects the zone mappings, over both slices as far as the shorter one goes
unfoldable pub realigned : List ZoneMapping → List String → List ZoneMapping
realigned [] ids = []
realigned (zm ∷ zms) [] = zm ∷ zms
realigned (zm ∷ zms) (id ∷ ids) =
    (if is_drifted zm id then record zm { allocation_id = id } else zm) ∷ realigned zms ids

-- `needUpdate`
unfoldable pub need_update : List ZoneMapping → List String → Bool
need_update [] ids = false
need_update (zm ∷ zms) [] = false
need_update (zm ∷ zms) (id ∷ ids) = is_drifted zm id || need_update zms ids

-- the branch of a missing load balancer
unfoldable pub create_missing_nlb : NlbPool → LaneConfig → String → List String → Proc Unit
unfolding own accept_existing
create_missing_nlb pool lane nlb_name ids = do
  let nlb = build_nlb pool lane nlb_name ids
  metadata ← own pool nlb.metadata
  created ← request (create_nlb (record nlb { metadata = metadata }))
  accept_existing created
  eventf pool.metadata "Normal" "NLBCreated"

-- the branch of a load balancer that exists, with the object that stands in memory after it
unfoldable pub correct_drift : NlbPool → Nlb → List String → Proc Nlb
unfolding realigned need_update
correct_drift pool nlb ids = if not (need_update nlb.spec.zone_mappings ids) then pure nlb else do
  let corrected = realigned nlb.spec.zone_mappings ids
  updated ←
      request (update_nlb (record nlb { spec = record nlb.spec { zone_mappings = corrected } }))
  on_err updated (λ e. finish (fail e))
      λ nlb. do eventf pool.metadata "Normal" "NLBUpdated"; pure nlb

-- step 2: whether the load balancer is there and Active
unfoldable pub ensure_nlb : NlbPool → LaneConfig → ℤ → List String → Proc Bool
unfolding create_missing_nlb correct_drift
ensure_nlb pool lane group_idx ids = do
  let nlb_name = nlb_name_for_group pool.metadata lane group_idx
  got ← request (get_nlb (in_namespace pool nlb_name))
  on_err got
      (λ e.
        if is_not_found e
        then create_missing_nlb pool lane nlb_name ids >> pure false
        else finish (fail e))
      λ nlb. do nlb ← correct_drift pool nlb ids; pure (nlb.status.load_balancer_status == "Active")

-- the body of the loop over the lanes: whether the lane is ready
unfoldable pub ensure_lane : NlbPool → ℤ → LaneConfig → Proc Bool
unfolding ensure_eips ensure_nlb
ensure_lane pool group_idx lane = do
  zones ← ensure_eips pool lane group_idx 0 pool.spec.zone_maps
  if not zones.1 then pure false else ensure_nlb pool lane group_idx zones.0

-- the loop over `count` groups from `group` on, with `allReady`
unfoldable pub ensure_infrastructure : NlbPool → ℕ → ℕ → Bool → Proc Bool
unfolding ensure_lane
ensure_infrastructure pool zero group all_ready = pure all_ready
ensure_infrastructure pool (suc count) group all_ready = do
  all_ready ←
      for_each pool.spec.lanes all_ready
        λ lane all_ready. do ready ← ensure_lane pool (pos group) lane; pure (ready && all_ready)
  ensure_infrastructure pool count (suc group) all_ready

-- ensureNLBsAndEIPs
unfoldable pub ensure_nlbs_and_eips : NlbPool → ℤ → Proc Bool
unfolding ensure_infrastructure
ensure_nlbs_and_eips pool desired = ensure_infrastructure pool (pos_part desired) 0 true
