-- ===== src/Pool/Status.antt =====
-- syncPoolStatus and updatePhase: the counters and the phase in a pool's status.
use alibaba_cloud_nlb_pool_o.Base.{
  String, List, [], ◌∷◌, Option, none, some, ℤ, pos, ltb_ℤ, add32, sub32, quot32, length, ◌==◌,
  ◌&&◌, if◌then◌else◌,
}
use alibaba_cloud_nlb_pool_o.Types.{
  NlbPool, PoolStatus, PoolPhase, PortAllocation, is_available, is_bound, pool_phase_eq, pool_unset,
  pool_provisioning,
}
use alibaba_cloud_nlb_pool_o.World.{
  get_pool, list_pas, update_pool_status, GoError, Proc, ◌>>=◌, pure, request, on_err, or_keep,
}
use alibaba_cloud_nlb_pool_o.Allocation.Slots.{int32_of}
use alibaba_cloud_nlb_pool_o.Pool.Deletion.{pool_selector}
use alibaba_cloud_nlb_pool_o.Pool.Infrastructure.{in_namespace}

-- the loop that counts: the available and the bound allocations
unfoldable pub tally : List PortAllocation → ℤ × ℤ → ℤ × ℤ
tally [] counts = counts
tally (pa ∷ pas) counts = tally pas (
  (if is_available pa.status.phase then add32 counts.0 (pos 1) else counts.0),
  (if is_bound pa.status.phase then add32 counts.1 (pos 1) else counts.1),
)

-- NLBsPerLane, from the slots of a load balancer, the total, and what stands in the status
unfoldable pub nlbs_per_lane_of : ℤ → ℤ → ℤ → ℤ
nlbs_per_lane_of slots total old =
    let n = if ltb_ℤ (pos 0) slots then quot32 (sub32 (add32 total slots) (pos 1)) slots else old in
    if ltb_ℤ n (pos 1) then pos 1 else n

-- the status that syncPoolStatus writes
unfoldable pub synced : NlbPool → List PortAllocation → PoolStatus → PoolStatus
unfolding tally nlbs_per_lane_of int32_of
synced pool pas status = record status {
  total_slots = int32_of (length pas);
  available_slots = (tally pas (pos 0, pos 0)).0;
  bound_slots = (tally pas (pos 0, pos 0)).1;
  nlbs_per_lane =
      nlbs_per_lane_of pool.spec.slots_per_nlb (int32_of (length pas)) status.nlbs_per_lane;
  phase = if pool_phase_eq status.phase pool_unset then pool_provisioning else status.phase;
}

-- syncPoolStatus, with the pool that it leaves in memory
unfoldable pub sync_pool_status : NlbPool → Proc NlbPool
unfolding synced
sync_pool_status pool = do
  listed ← request (list_pas pool.metadata.namespace (pool_selector pool))
  on_err listed (λ e. pure pool)
      λ pas. do
        got ← request (get_pool (in_namespace pool pool.metadata.name))
        on_err got (λ e. pure pool)
            λ fresh. do
              let counted = record fresh { status = synced pool pas fresh.status }
              written ← request (update_pool_status counted)
              pure (record pool { status = (or_keep counted written).status })

-- updatePhase
unfoldable pub update_phase : NlbPool → PoolPhase → String → Proc (Option GoError)
update_phase pool phase message = do
  got ← request (get_pool (in_namespace pool pool.metadata.name))
  on_err got (λ e. pure (some e))
      λ fresh.
        if pool_phase_eq fresh.status.phase phase && fresh.status.message == message
        then pure none
        else do
          written ← request (
              update_pool_status (record fresh {
                status = record fresh.status { phase = phase; message = message };
              }))
          on_err written (λ e. pure (some e)) λ fresh. pure none
