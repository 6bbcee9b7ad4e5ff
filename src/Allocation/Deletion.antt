-- ===== src/Allocation/Deletion.antt =====
-- handleDeletion: the listeners are confirmed gone, then the server groups are deleted, then the
-- finalizer goes. Both loops run while a list in the status is not empty, and each status write puts
-- the server's answer in its place: they are on fuel, and `running` is a loop that has not ended.
use alibaba_cloud_nlb_pool_o.Base.{
  ℕ, zero, suc, List, some, pos, not, contains, ◌==◌, if◌then◌else◌,
}
use alibaba_cloud_nlb_pool_o.Types.{
  PortAllocation, ListenerCloudStatus, ServerGroupCloudStatus, is_deleting, deleting,
  finalizer_allocation,
}
use alibaba_cloud_nlb_pool_o.World.{
  update_pa, update_pa_status, get_listener_attribute, delete_server_group, Reply, done,
  retry_after, Proc, ◌>>=◌, ◌>>◌, pure, finish, out_of_fuel, request, asks, on_err, on_none,
  on_empty, or_requeue, or_keep, eventf,
}
use alibaba_cloud_nlb_pool_o.Provider.{is_not_found_error}
use alibaba_cloud_nlb_pool_o.Allocation.Helpers.{
  with_phase, with_bound_pod, clear_pod_claim, remove_all_servers,
}
use alibaba_cloud_nlb_pool_o.Allocation.Provision.{back_off}

abbrev pub with_listeners : List ListenerCloudStatus → PortAllocation → PortAllocation
with_listeners ls pa = record pa { status = record pa.status { listeners = ls } }

abbrev pub with_groups : List ServerGroupCloudStatus → PortAllocation → PortAllocation
with_groups gs pa = record pa { status = record pa.status { server_groups = gs } }

-- `_ = r.Status().Update(ctx, pa)`
unfoldable pub try_write_status : PortAllocation → Proc PortAllocation
try_write_status pa = do written ← request (update_pa_status pa); pure (or_keep pa written)

-- one round of the loop over the listeners: the first is dropped where the cloud does not know it
unfoldable pub verify_listener :
    PortAllocation → ListenerCloudStatus → List ListenerCloudStatus → Proc PortAllocation
unfolding try_write_status back_off
verify_listener pa lsn rest = if lsn.listener_id == "" then pure (with_listeners rest pa) else do
  resp ← request (get_listener_attribute lsn.listener_id)
  on_err resp
      (λ e.
        if is_not_found_error (some e)
        then try_write_status (with_listeners rest pa)
        else do pa ← try_write_status pa; back_off e)
      λ attr. on_none attr (try_write_status (with_listeners rest pa)) λ a. finish (retry_after 5)

unfoldable pub verify_listeners : ℕ → PortAllocation → Proc PortAllocation
unfolding verify_listener
verify_listeners zero pa = on_empty pa.status.listeners (pure pa) λ lsn rest. out_of_fuel
verify_listeners (suc fuel) pa =
    on_empty pa.status.listeners (pure pa)
      λ lsn rest. verify_listener pa lsn rest >>= verify_listeners fuel

-- one round of the loop over the server groups: the first is deleted
unfoldable pub delete_group :
    PortAllocation → ServerGroupCloudStatus → List ServerGroupCloudStatus → Proc PortAllocation
unfolding try_write_status back_off
delete_group pa sg rest = if sg.server_group_id == "" then pure (with_groups rest pa) else do
  failure ← request (delete_server_group sg.server_group_id)
  on_none failure (try_write_status (with_groups rest pa)) λ e.
      if is_not_found_error (some e)
      then try_write_status (with_groups rest pa)
      else if contains e.message "ResourceInUse"
      then finish (retry_after 10)
      else do pa ← try_write_status pa; back_off e

unfoldable pub delete_groups : ℕ → PortAllocation → Proc PortAllocation
unfolding delete_group
delete_groups zero pa = on_empty pa.status.server_groups (pure pa) λ sg rest. out_of_fuel
delete_groups (suc fuel) pa =
    on_empty pa.status.server_groups (pure pa)
      λ sg rest. delete_group pa sg rest >>= delete_groups fuel

-- the head of handleDeletion: the phase is set where it is not Deleting yet
unfoldable pub mark_deleting : PortAllocation → Proc PortAllocation
unfolding try_write_status
mark_deleting pa =
    if not (is_deleting pa.status.phase)
    then try_write_status (with_phase deleting "Cleaning up cloud resources" pa)
    else pure pa

-- step 1: the pod's servers are removed and its claim is dropped, as far as that goes
unfoldable pub unbind : PortAllocation → Proc PortAllocation
unbind pa = if pa.spec.bound_pod_ip == "" then pure pa else do
  failure ← remove_all_servers pa
  on_none failure (pure tt) λ e. do eventf pa.metadata "Warning" "RemoveServerFailed"; pure tt
  clear_pod_claim pa
  let cleared = with_bound_pod "" "" pa
  written ← request (update_pa cleared)
  pure (or_keep cleared written)

-- the end: the finalizer is removed
unfoldable pub drop_finalizer : PortAllocation → Proc Reply
drop_finalizer pa = do
  metadata ← asks (λ env. env.remove_finalizer pa.metadata finalizer_allocation)
  written ← request (update_pa (record pa { metadata = metadata }))
  pa ← or_requeue written
  finish done

abbrev pub with_no_listener_counts : PortAllocation → PortAllocation
with_no_listener_counts pa = record pa {
  status = record pa.status { listeners_ready = pos 0; listeners_total = pos 0 };
}

-- steps 2 and 3: the listeners, the counts, the server groups
unfoldable pub erase_cloud : ℕ → PortAllocation → Proc PortAllocation
unfolding verify_listeners delete_groups
erase_cloud fuel pa = do
  pa ← verify_listeners fuel pa
  delete_groups fuel (with_no_listener_counts pa)

-- handleDeletion
unfoldable pub handle_deletion : ℕ → PortAllocation → Proc Reply
unfolding mark_deleting unbind erase_cloud drop_finalizer
handle_deletion fuel pa = do
  held ← asks (λ env. env.contains_finalizer pa.metadata finalizer_allocation)
  if not held
      then finish done
      else do pa ← mark_deleting pa; pa ← unbind pa; pa ← erase_cloud fuel pa; drop_finalizer pa
