-- ===== src/Pool/Expansion.antt =====
-- ensureSlotResources: one allocation for each slot.
use alibaba_cloud_nlb_pool_o.Base.{
  ℕ, zero, suc, Bool, false, ℤ, pos, pos_part, ltb_ℤ, leb_ℤ, mul32, any, not, ◌-◌, if◌then◌else◌,
}
use alibaba_cloud_nlb_pool_o.Types.{NlbPool, PortAllocation, is_provisioning_or_unset, provisioning}
use alibaba_cloud_nlb_pool_o.World.{
  get_pa, list_pas, create_pa, update_pa_status, is_not_found, fail, Proc, ◌>>=◌, ◌>>◌, pure,
  finish, request, on_err, eventf,
}
use alibaba_cloud_nlb_pool_o.Pool.Builders.{slot_name, build_port_allocation}
use alibaba_cloud_nlb_pool_o.Pool.Deletion.{pool_selector}
use alibaba_cloud_nlb_pool_o.Pool.Infrastructure.{in_namespace, own}

-- the fast path: whether no allocation is still being provisioned
unfoldable pub slots_ready : NlbPool → Proc Bool
slots_ready pool = do
  listed ← request (list_pas pool.metadata.namespace (pool_selector pool))
  on_err listed (λ e. finish (fail e))
      λ pas. pure (not (any (λ pa. is_provisioning_or_unset pa.status.phase) pas))

abbrev in_provisioning : PortAllocation → PortAllocation
in_provisioning pa = record pa { status = record pa.status { phase = provisioning } }

-- the branch of a missing allocation: it is created, and its status is initialised where it can be read
unfoldable pub create_slot : NlbPool → ℕ → Proc Unit
unfolding own
create_slot pool slot_idx = do
  let pa_name = slot_name pool.metadata (pos slot_idx)
  let pa = build_port_allocation pool (pos slot_idx) pa_name
  metadata ← own pool pa.metadata
  created ← request (create_pa (record pa { metadata = metadata }))
  on_err created (λ e. finish (fail e))
      λ pa. do
        got ← request (get_pa (in_namespace pool pa_name))
        on_err got (λ e. pure tt)
            λ fresh. do written ← request (update_pa_status (in_provisioning fresh)); pure tt
        eventf pool.metadata "Normal" "PortAllocationCreated"

-- the body of the loop
unfoldable pub ensure_slot : NlbPool → ℕ → Proc Unit
unfolding create_slot
ensure_slot pool slot_idx = do
  got ← request (get_pa (in_namespace pool (slot_name pool.metadata (pos slot_idx))))
  on_err got (λ e. if is_not_found e then create_slot pool slot_idx else finish (fail e))
      λ pa. pure tt

-- the loop over `count` slots from `slot_idx` on
unfoldable pub ensure_slots : NlbPool → ℕ → ℕ → Proc Unit
unfolding ensure_slot
ensure_slots pool zero slot_idx = pure tt
ensure_slots pool (suc count) slot_idx = do
  ensure_slot pool slot_idx
  ensure_slots pool count (suc slot_idx)

-- `if startSlot < 0 { startSlot = 0 }`
abbrev pub start_slot : NlbPool → ℤ
start_slot pool = if ltb_ℤ pool.status.total_slots (pos 0) then pos 0 else pool.status.total_slots

-- ensureSlotResources
unfoldable pub ensure_slot_resources : NlbPool → ℤ → Proc Bool
unfolding slots_ready ensure_slots
ensure_slot_resources pool desired = do
  let total = mul32 desired pool.spec.slots_per_nlb
  let start = start_slot pool
  if leb_ℤ total start
      then slots_ready pool
      else do ensure_slots pool (pos_part total - pos_part start) (pos_part start); pure false
