-- ===== src/Allocation/Binding.antt =====
-- handleBinding: the pod's address is added to every server group and each addition is confirmed by a
-- listing before the allocation is bound.
use alibaba_cloud_nlb_pool_o.Base.{
  ℕ, String, Bool, true, false, [], ◌∷◌, some, modify?, not, is_zero, ◌<>◌, ◌==◌, ◌&&◌,
  if◌then◌else◌,
}
use alibaba_cloud_nlb_pool_o.Types.{
  lookup, annotation_pa_claim, PortAllocation, ServerGroupCloudStatus, ServerStatus, clear,
  none_text, adding, server_bound, removing, server_other, bound, releasing,
}
use alibaba_cloud_nlb_pool_o.World.{
  is_not_found, get_pod, update_pa_status, add_servers, Reply, done, fail, requeue_now, retry_after,
  Proc, ◌>>=◌, ◌>>◌, pure, finish, request, on_err, or_panic, exit_if, for_index, or_requeue,
  eventf,
}
use alibaba_cloud_nlb_pool_o.Provider.{is_limited, is_duplicated_server_error}
use alibaba_cloud_nlb_pool_o.Allocation.Helpers.{
  with_phase, pod_key, backend, update_phase_label, is_server_in_sg, patch_server_status,
  generate_client_token, lookup_container_port_for_sg, build_external_addresses,
}

-- patchServerStatus, whose failure asks for another round, then the same change in memory
unfoldable pub mark_server : PortAllocation → ℕ → ServerStatus → Proc PortAllocation
mark_server pa i status = do
  answer ← patch_server_status pa i status
  on_err answer (λ e. finish requeue_now)
      λ pa. do
        groups ←
            or_panic (modify? pa.status.server_groups i (λ g. record g { server_status = status }))
        pure (record pa { status = record pa.status { server_groups = groups } })

-- the early aborts: the allocation goes to Releasing
unfoldable pub abort_binding : PortAllocation → String → Proc Reply
abort_binding pa message = do
  written ← request (update_pa_status (with_phase releasing message pa))
  pa ← or_requeue written
  pa ← update_phase_label pa
  eventf pa.metadata "Normal" "BindingAborted"
  finish requeue_now

-- `case "Adding"`: is the server in the group? The Boolean is false where `allBound` is cleared.
unfoldable pub confirm_added :
    PortAllocation → ℕ → ServerGroupCloudStatus → Proc (PortAllocation × Bool)
unfolding mark_server
confirm_added pa i sg = do
  found ← is_server_in_sg sg.server_group_id pa.spec.bound_pod_ip
  on_err found (λ e. if is_limited e then pure (pa, false) else finish (retry_after 5))
      λ present.
        if present
        then (do pa ← mark_server pa i server_bound; pure (pa, true))
        else (do pa ← mark_server pa i clear; pure (pa, false))

-- `default`: ask the cloud to add the server
unfoldable pub add_server : PortAllocation → ℕ → ServerGroupCloudStatus → Proc PortAllocation
unfolding mark_server
add_server pa i sg = do
  let port = lookup_container_port_for_sg pa sg.name
  exit_if (is_zero port) (retry_after 5)
  token ← generate_client_token (
      pa.metadata.namespace ∷ pa.metadata.name ∷ "add" ∷ sg.server_group_id ∷ pa.spec.bound_pod_ip
      ∷ pa.metadata.resource_version ∷ [])
  resp ← request (
      add_servers (record {
        server_group_id = sg.server_group_id;
        servers = backend pa port ∷ [];
        client_token = token;
      }))
  on_err resp
      (λ e.
        if is_limited e
        then pure pa
        else if is_duplicated_server_error (some e)
        then mark_server pa i adding
        else do eventf pa.metadata "Warning" "AddServerFailed"; finish (retry_after 5))
      λ _. mark_server pa i adding

unfoldable pub bind_by_status :
    PortAllocation → ℕ → ServerGroupCloudStatus → ServerStatus → Proc (PortAllocation × Bool)
unfolding confirm_added add_server
bind_by_status pa i sg server_bound = pure (pa, true)
bind_by_status pa i sg adding = confirm_added pa i sg
bind_by_status pa i sg clear = do pa ← add_server pa i sg; pure (pa, false)
bind_by_status pa i sg none_text = do pa ← add_server pa i sg; pure (pa, false)
bind_by_status pa i sg removing = do pa ← add_server pa i sg; pure (pa, false)
bind_by_status pa i sg (server_other s) = do pa ← add_server pa i sg; pure (pa, false)

-- one round of the loop over the server groups, with the flag `allBound`
unfoldable pub bind_group :
    ℕ → ServerGroupCloudStatus → PortAllocation × Bool → Proc (PortAllocation × Bool)
unfolding bind_by_status
bind_group i sg (pa, all_bound) = do
  exit_if (sg.server_group_id == "") (retry_after 5)
  (pa, is_bound) ← bind_by_status pa i sg sg.server_status
  pure (pa, all_bound && is_bound)

-- the loop, and what follows it
unfoldable pub bind_groups : PortAllocation → Proc Reply
unfolding bind_group
bind_groups pa = do
  (pa, all_bound) ← for_index 0 pa.status.server_groups (pa, true) bind_group
  exit_if (not all_bound) (retry_after 5)
  written ← request (
      update_pa_status (record pa {
        status = record pa.status {
          phase = bound;
          external_addresses = build_external_addresses pa;
          message = "Bound to pod " <> pa.spec.bound_pod;
        };
      }))
  pa ← or_requeue written
  pa ← update_phase_label pa
  eventf pa.metadata "Normal" "Bound"
  finish done

-- handleBinding
unfoldable pub handle_binding : PortAllocation → Proc Reply
unfolding abort_binding bind_groups
handle_binding pa =
    if pa.spec.bound_pod_ip == ""
    then abort_binding pa "Binding aborted: No pod IP, aborting binding"
    else do
      got ← request (get_pod (pod_key pa))
      on_err got
          (λ e.
            if is_not_found e
            then abort_binding pa "Binding aborted: Pod not found, aborting binding"
            else finish (fail e))
          λ pod.
            if not (lookup annotation_pa_claim pod.metadata.annotations == pa.metadata.name)
            then abort_binding pa "Binding aborted: Pod claim mismatch, aborting binding"
            else bind_groups pa
