-- ===== src/Allocation/Provision/Groups.antt =====
-- The slot that handleProvisioning works on, and its phase 1: the server groups.
use Prim.Native.Char.{code}
use alibaba_cloud_nlb_pool_o.Base.{
  ℕ, String, Bool, true, false, [], ◌∷◌, Option, none, some, ℤ, atoi, wrap32, modify?, show_ℤ,
  length, is_empty, ◌%◌, ◌<>◌, ◌==◌, ◌||◌, ◌&&◌, if◌then◌else◌,
}
use alibaba_cloud_nlb_pool_o.Types.{
  lookup, label_pool, label_slot, NlbPool, PortAllocation, ServerGroupCloudStatus, SgPhase,
  sg_pending, sg_creating, sg_active, sg_other,
}
use alibaba_cloud_nlb_pool_o.World.{
  GoError, get_pool, update_pa_status, create_server_group, get_server_group_attribute, Result,
  requeue_now, retry_after, Proc, ◌>>=◌, ◌>>◌, pure, finish, request, on_err, on_none, or_panic,
  exit_if, for_index, or_requeue, eventf,
}
use alibaba_cloud_nlb_pool_o.Provider.{is_local_rate_limited, is_throttling_error}
use alibaba_cloud_nlb_pool_o.Allocation.Slots.{
  group_of, slot_in_group, initial_server_groups, initial_listeners, int32_of,
}
use alibaba_cloud_nlb_pool_o.Allocation.Helpers.{
  provisioning_client_token, patch_sg_status, patch_aggregates,
}

-- the local variables that handleProvisioning computes from the labels and the pool
pub record Slot : Type 0 where
  pub pool : NlbPool
  pub slot_idx : ℤ
  pub group_idx : ℤ
  pub in_group : ℤ

-- the answers of the cloud that end a round: the local limiter, throttling, anything else
unfoldable pub back_off : GoError → Proc PortAllocation
back_off e =
    if is_local_rate_limited (some e)
    then finish (retry_after 1)
    else if is_throttling_error (some e)
    then finish (retry_after 60)
    else finish (retry_after 5)

-- the same, with an event where the cloud throttles
unfoldable pub back_off_create : PortAllocation → GoError → Proc PortAllocation
back_off_create pa e =
    if is_local_rate_limited (some e)
    then finish (retry_after 1)
    else if is_throttling_error (some e)
    then (do eventf pa.metadata "Warning" "Throttled"; finish (retry_after 60))
    else finish (retry_after 5)

-- `pa.Status.ServerGroups[i].… = …`, which panics out of range
abbrev pub set_group :
    PortAllocation → ℕ → (ServerGroupCloudStatus → ServerGroupCloudStatus) → Proc PortAllocation
set_group pa i f = do
  groups ← or_panic (modify? pa.status.server_groups i f)
  pure (record pa { status = record pa.status { server_groups = groups } })

-- a patch that fails asks for another round
abbrev pub patched : Result PortAllocation → Proc PortAllocation
patched r = on_err r (λ e. finish requeue_now) pure

-- `case sg.ServerGroupId == "" && sg.Phase == "Pending"`
unfoldable pub create_group :
    Slot → PortAllocation → ℕ → ServerGroupCloudStatus → Proc PortAllocation
unfolding back_off_create
create_group slot pa i sg = do
  token ← provisioning_client_token pa ("sg" ∷ sg.name ∷ [])
  resp ← request (
      create_server_group (record {
        vpc_id = slot.pool.spec.vpc_id;
        server_group_name =
            slot.pool.metadata.name <> "-s" <> show_ℤ slot.slot_idx <> "-" <> sg.name;
        server_group_type = "Ip";
        protocol = "TCP_UDP";
        scheduler = "Wrr";
        client_token = token;
      }))
  on_err resp (back_off_create pa) λ created. do
    eventf pa.metadata "Normal" "SGCreated"
    answer ← patch_sg_status pa i created.server_group_id sg_creating
    pa ← patched answer
    set_group pa i
        (λ g. record g { server_group_id = created.server_group_id; phase = sg_creating })

-- `case sg.Phase == "Creating"`; the Boolean is false where `allSGsActive` is cleared
unfoldable pub poll_group :
    PortAllocation → ℕ → ServerGroupCloudStatus → Proc (PortAllocation × Bool)
unfolding back_off
poll_group pa i sg = do
  resp ← request (get_server_group_attribute sg.server_group_id)
  on_err resp (λ e. do pa ← back_off e; pure (pa, false))
      λ attr. on_none attr (pure (pa, false)) λ a.
        if a.server_group_status == "Available"
        then (do
          answer ← patch_sg_status pa i sg.server_group_id sg_active
          pa ← patched answer
          pa ← set_group pa i (λ g. record g { phase = sg_active })
          pure (pa, true))
        else pure (pa, false)

unfoldable pub group_by_phase :
    PortAllocation → ℕ → ServerGroupCloudStatus → SgPhase → Proc (PortAllocation × Bool)
unfolding poll_group
group_by_phase pa i sg sg_creating = poll_group pa i sg
group_by_phase pa i sg sg_active = pure (pa, true)
group_by_phase pa i sg sg_pending = pure (pa, false)
group_by_phase pa i sg (sg_other s) = pure (pa, false)

abbrev pub is_sg_pending : SgPhase → Bool
is_sg_pending sg_pending = true
is_sg_pending _ = false

-- one round of the loop over the server groups, with the flag `allSGsActive`
unfoldable pub ensure_group :
    Slot → ℕ → ServerGroupCloudStatus → PortAllocation × Bool → Proc (PortAllocation × Bool)
unfolding create_group group_by_phase
ensure_group slot i sg (pa, all_active) =
    if sg.server_group_id == "" && is_sg_pending sg.phase
    then (do pa ← create_group slot pa i sg; pure (pa, false))
    else (do (pa, active) ← group_by_phase pa i sg sg.phase; pure (pa, all_active && active))

-- phase 1 of handleProvisioning
unfoldable pub ensure_groups : Slot → PortAllocation → Proc PortAllocation
unfolding ensure_group
ensure_groups slot pa = do
  (pa, all_active) ← for_index 0 pa.status.server_groups (pa, true) (ensure_group slot)
  if all_active then pure pa else do patch_aggregates pa; finish (retry_after 5)

-- the head of handleProvisioning: labels, pool, slot arithmetic
unfoldable pub find_slot : PortAllocation → Proc Slot
find_slot pa = do
  let pool_name = lookup label_pool pa.metadata.labels
  let slot_label = lookup label_slot pa.metadata.labels
  exit_if (pool_name == "" || slot_label == "") (retry_after 5)
  on_none (atoi slot_label) (finish (retry_after 5)) λ slot_int. do
    got ← request (get_pool (record { namespace = pa.metadata.namespace; name = pool_name }))
    on_err got (λ e. finish (retry_after 5))
        λ pool. do
          group_idx ← or_panic (group_of pool.spec (wrap32 slot_int))
          in_group ← or_panic (slot_in_group pool.spec (wrap32 slot_int))
          pure (record {
            pool = pool;
            slot_idx = wrap32 slot_int;
            group_idx = group_idx;
            in_group = in_group;
          })

-- `pa.Status.ServerGroups = sgs; pa.Status.Listeners = lsns` with the totals
abbrev pub with_initial_arrays : NlbPool → ℤ → PortAllocation → PortAllocation
with_initial_arrays pool in_group pa =
    let sgs = initial_server_groups pool.spec.ports in
    let lsns = initial_listeners pool.spec in_group 0 pool.spec.ports in
    record pa {
      status = record pa.status {
        server_groups = sgs;
        listeners = lsns;
        sgs_total = int32_of (length sgs);
        listeners_total = int32_of (length lsns);
      };
    }

-- handleProvisioning fills the arrays where there are none, and asks for another round
unfoldable pub fill_arrays : Slot → PortAllocation → Proc PortAllocation
fill_arrays slot pa =
    if is_empty pa.status.server_groups
    then (do
      written ← request (update_pa_status (with_initial_arrays slot.pool slot.in_group pa))
      pa ← or_requeue written
      finish requeue_now)
    else pure pa

-- `pa.UID[0] % 3`, for a uid in ASCII; `none` is the panic at an empty uid
abbrev pub uid_residue : String → Option ℕ
uid_residue String.[] = none
uid_residue (String.◌∷◌ c s) = some (code c % 3)
