-- ===== src/Pool/Reconcile.antt =====
-- Reconcile of a pool: the deletion path, with its gates and phases, and the provisioning path.
use alibaba_cloud_nlb_pool_o.Base.{ℤ, String, not, ◌==◌, if◌then◌else◌}
use alibaba_cloud_nlb_pool_o.Types.{
  Key, lookup, annotation_deletion_protection, annotation_deletion_dry_run, finalizer_pool, NlbPool,
  pool_phase_eq, pool_provisioning, pool_ready, pool_deleting, pool_failed,
}
use alibaba_cloud_nlb_pool_o.World.{
  get_pool, update_pool, update_pool_status, is_not_found, Reply, done, requeue_now, retry_after,
  fail, retry_after_failure, Proc, ◌>>=◌, ◌>>◌, pure, finish, request, asks, on_err, on_none,
  or_panic, exit_if, eventf,
}
use alibaba_cloud_nlb_pool_o.Pool.Sizing.{compute_desired_nlbs}
use alibaba_cloud_nlb_pool_o.Pool.Confirmation.{has_cloud_nlbs}
use alibaba_cloud_nlb_pool_o.Pool.Builders.{validate_lane_config}
use alibaba_cloud_nlb_pool_o.Pool.Deletion.{
  build_deletion_plan, delete_infrastructure, delete_port_allocations, has_port_allocations,
  has_child_resources,
}
use alibaba_cloud_nlb_pool_o.Pool.Infrastructure.{ensure_nlbs_and_eips}
use alibaba_cloud_nlb_pool_o.Pool.Expansion.{ensure_slot_resources}
use alibaba_cloud_nlb_pool_o.Pool.Status.{sync_pool_status, update_phase}

-- what both safety gates do: the plan is built and reported, and nothing is deleted
unfoldable pub report_plan : NlbPool → String → String → Proc Unit
unfolding build_deletion_plan
report_plan pool event_type reason = do
  plan ← build_deletion_plan pool
  eventf pool.metadata event_type reason
  finish (retry_after 30)

-- the safety gates: deletion protection, then the dry run
unfoldable pub safety_gates : NlbPool → Proc Unit
unfolding report_plan
safety_gates pool =
    if lookup annotation_deletion_protection pool.metadata.annotations == "true"
    then report_plan pool "Warning" "DeletionBlocked"
    else if lookup annotation_deletion_dry_run pool.metadata.annotations == "true"
    then report_plan pool "Normal" "DeletionDryRun"
    else pure tt

abbrev pub in_deleting : NlbPool → NlbPool
in_deleting pool = record pool {
  status = record pool.status { phase = pool_deleting; message = "Deleting child resources" };
}

-- the phase is set where it is not Deleting yet
unfoldable pub mark_pool_deleting : NlbPool → Proc NlbPool
mark_pool_deleting pool = if pool_phase_eq pool.status.phase pool_deleting then pure pool else do
  written ← request (update_pool_status (in_deleting pool))
  on_err written (λ e. finish (fail e)) pure

-- the end of the deletion: the finalizer goes
unfoldable pub drop_pool_finalizer : NlbPool → Proc Reply
drop_pool_finalizer pool = do
  metadata ← asks (λ env. env.remove_finalizer pool.metadata finalizer_pool)
  written ← request (update_pool (record pool { metadata = metadata }))
  on_err written (λ e. finish (fail e)) λ pool. finish done

-- from phase 2 on: the cloud's load balancers, the allocations, and what else is left
unfoldable pub finish_deletion : NlbPool → Proc Reply
unfolding has_cloud_nlbs delete_port_allocations has_port_allocations has_child_resources
    drop_pool_finalizer
finish_deletion pool = do
  cloud ← has_cloud_nlbs pool
  exit_if cloud.1 (retry_after 5)
  failure ← delete_port_allocations cloud.0
  on_none failure (pure tt) λ e. finish (retry_after_failure 5 e)
  held ← has_port_allocations cloud.0
  exit_if held (retry_after 5)
  children ← has_child_resources cloud.0
  exit_if children (retry_after 5)
  drop_pool_finalizer cloud.0

-- phases 1 to 3
unfoldable pub tear_down : NlbPool → Proc Reply
unfolding delete_infrastructure finish_deletion
tear_down pool = do
  left ← delete_infrastructure pool
  on_err left (λ e. finish (retry_after_failure 5 e)) finish_deletion

-- a pool with a deletion timestamp
unfoldable pub delete_pool : NlbPool → Proc Reply
unfolding safety_gates mark_pool_deleting tear_down
delete_pool pool = do
  held ← asks (λ env. env.contains_finalizer pool.metadata finalizer_pool)
  exit_if (not held) done
  safety_gates pool
  pool ← mark_pool_deleting pool
  tear_down pool

-- step 3: the finalizer is there, or is added and the pool is seen again
unfoldable pub ensure_finalizer : NlbPool → Proc Unit
ensure_finalizer pool = do
  held ← asks (λ env. env.contains_finalizer pool.metadata finalizer_pool)
  if held then pure tt else do
    metadata ← asks (λ env. env.add_finalizer pool.metadata finalizer_pool)
    written ← request (update_pool (record pool { metadata = metadata }))
    on_err written (λ e. finish (fail e)) λ pool. finish requeue_now

-- step 4
unfoldable pub check_lanes : NlbPool → Proc Unit
unfolding validate_lane_config update_phase
check_lanes pool = do
  let message = validate_lane_config pool.spec.lanes
  if message == "" then pure tt else do
    eventf pool.metadata "Warning" "LaneConfigInvalid"
    failure ← update_phase pool pool_failed message
    finish done

-- where the load balancers are not ready
unfoldable pub await_infrastructure : NlbPool → Proc Reply
unfolding update_phase sync_pool_status
await_infrastructure pool = do
  failure ← update_phase pool pool_provisioning "waiting for NLB/EIP CRs to become ready"
  pool ← sync_pool_status pool
  finish (retry_after 10)

-- steps 7 to 9
unfoldable pub provision_slots : NlbPool → ℤ → Proc Reply
unfolding ensure_slot_resources update_phase sync_pool_status
provision_slots pool desired = do
  all_ready ← ensure_slot_resources pool desired
  failure ← update_phase pool (if all_ready then pool_ready else pool_provisioning) ""
  pool ← sync_pool_status pool
  finish (if all_ready then retry_after 60 else retry_after 10)

-- steps 6 to 9, for a number of load balancers for each lane
unfoldable pub provision_pool : NlbPool → ℤ → Proc Reply
unfolding ensure_nlbs_and_eips await_infrastructure provision_slots
provision_pool pool desired = do
  nlbs_ready ← ensure_nlbs_and_eips pool desired
  if nlbs_ready then provision_slots pool desired else await_infrastructure pool

-- steps 3 to 9
unfoldable pub maintain_pool : NlbPool → Proc Reply
unfolding ensure_finalizer check_lanes sync_pool_status provision_pool
maintain_pool pool = do
  ensure_finalizer pool
  check_lanes pool
  pool ← sync_pool_status pool
  desired ← or_panic (compute_desired_nlbs pool)
  provision_pool pool desired

-- Reconcile of NLBPoolReconciler
unfoldable pub reconcile_pool : Key → Proc Reply
unfolding delete_pool maintain_pool
reconcile_pool key = do
  got ← request (get_pool key)
  on_err got (λ e. if is_not_found e then finish done else finish (fail e))
      λ pool. if pool.metadata.deleting then delete_pool pool else maintain_pool pool
