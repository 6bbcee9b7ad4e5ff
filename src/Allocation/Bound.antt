-- ===== src/Allocation/Bound.antt =====
-- handleBound, handleDisable and handleDisabled.
use alibaba_cloud_nlb_pool_o.Base.{
  ℕ, Bool, true, false, [], ◌∷◌, some, not, ◌==◌, ◌&&◌, if◌then◌else◌,
}
use alibaba_cloud_nlb_pool_o.Types.{
  lookup, annotation_network_disabled, annotation_pool_name, annotation_pa_claim, PortAllocation,
  ServerGroupCloudStatus, ServerStatus, clear, none_text, adding, server_bound, removing,
  server_other, disabled, binding,
}
use alibaba_cloud_nlb_pool_o.World.{
  is_not_found, get_pod, update_pa_status, remove_servers, Reply, done, fail, requeue_now,
  retry_after, Proc, ◌>>=◌, ◌>>◌, pure, finish, request, on_err, exit_if, for_index, or_requeue,
  eventf,
}
use alibaba_cloud_nlb_pool_o.Provider.{
  is_limited, is_server_not_found_error, is_duplicated_server_error,
}
use alibaba_cloud_nlb_pool_o.Allocation.Helpers.{
  with_phase, pod_key, backend, update_phase_label, is_server_in_sg, generate_client_token,
  lookup_container_port_for_sg, start_releasing,
}
use alibaba_cloud_nlb_pool_o.Allocation.Binding.{mark_server}

-- `case "Removing"`; the Boolean is false where `allClear` is cleared
unfoldable pub confirm_removed :
    PortAllocation → ℕ → ServerGroupCloudStatus → Proc (PortAllocation × Bool)
confirm_removed pa i sg = do
  found ← is_server_in_sg sg.server_group_id pa.spec.bound_pod_ip
  on_err found (λ e. if is_limited e then pure (pa, false) else finish (retry_after 5))
      λ present.
        if not present then (do pa ← mark_server pa i clear; pure (pa, true)) else pure (pa, false)

-- `default`: "Bound" or "Adding"
unfoldable pub remove_server :
    PortAllocation → ℕ → ServerGroupCloudStatus → Proc (PortAllocation × Bool)
remove_server pa i sg = do
  token ← generate_client_token (
      pa.metadata.namespace ∷ pa.metadata.name ∷ "remove" ∷ sg.server_group_id
      ∷ pa.spec.bound_pod_ip ∷ pa.metadata.resource_version ∷ [])
  resp ← request (
      remove_servers (record {
        server_group_id = sg.server_group_id;
        servers = backend pa (lookup_container_port_for_sg pa sg.name) ∷ [];
        client_token = token;
      }))
  on_err resp
      (λ e.
        if is_server_not_found_error (some e)
        then (do pa ← mark_server pa i clear; pure (pa, true))
        else if is_limited e
        then pure (pa, false)
        else if is_duplicated_server_error (some e)
        then (do pa ← mark_server pa i removing; pure (pa, false))
        else do eventf pa.metadata "Warning" "RemoveServerFailed"; finish (retry_after 5))
      λ _. do pa ← mark_server pa i removing; pure (pa, false)

unfoldable pub disable_by_status :
    PortAllocation → ℕ → ServerGroupCloudStatus → ServerStatus → Proc (PortAllocation × Bool)
unfolding confirm_removed remove_server
disable_by_status pa i sg clear = pure (pa, true)
disable_by_status pa i sg none_text = pure (pa, true)
disable_by_status pa i sg removing = confirm_removed pa i sg
disable_by_status pa i sg adding = remove_server pa i sg
disable_by_status pa i sg server_bound = remove_server pa i sg
disable_by_status pa i sg (server_other s) = remove_server pa i sg

-- one round of the loop of handleDisable, with the flag `allClear`
unfoldable pub disable_group :
    ℕ → ServerGroupCloudStatus → PortAllocation × Bool → Proc (PortAllocation × Bool)
unfolding disable_by_status
disable_group i sg (pa, all_clear) = if sg.server_group_id == "" then pure (pa, all_clear) else do
  (pa, is_clear) ← disable_by_status pa i sg sg.server_status
  pure (pa, all_clear && is_clear)

-- handleDisable
unfoldable pub handle_disable : PortAllocation → Proc Reply
unfolding disable_group
handle_disable pa = do
  (pa, all_clear) ← for_index 0 pa.status.server_groups (pa, true) disable_group
  exit_if (not all_clear) (retry_after 5)
  written ← request (
      update_pa_status (record pa {
        status = record pa.status {
          phase = disabled;
          external_addresses = [];
          message = "Network disabled";
        };
      }))
  pa ← or_requeue written
  pa ← update_phase_label pa
  eventf pa.metadata "Normal" "Disabled"
  finish done

-- handleBound
unfoldable pub handle_bound : PortAllocation → Proc Reply
unfolding handle_disable
handle_bound pa = do
  got ← request (get_pod (pod_key pa))
  on_err got (λ e. if is_not_found e then start_releasing pa else finish (fail e))
      λ pod.
        if lookup annotation_network_disabled pod.metadata.annotations == "true"
        then handle_disable pa
        else if lookup annotation_pool_name pod.metadata.annotations == ""
        then start_releasing pa
        else if not (lookup annotation_pa_claim pod.metadata.annotations == pa.metadata.name)
        then (do eventf pa.metadata "Normal" "DedupRelease"; start_releasing pa)
        else finish (retry_after 30)

-- handleDisabled
unfoldable pub handle_disabled : PortAllocation → Proc Reply
handle_disabled pa = do
  got ← request (get_pod (pod_key pa))
  on_err got (λ e. if is_not_found e then start_releasing pa else finish (fail e))
      λ pod.
        if not (lookup annotation_network_disabled pod.metadata.annotations == "true")
        then (do
          written ← request (update_pa_status (with_phase binding "Re-enabling network" pa))
          pa ← or_requeue written
          pa ← update_phase_label pa
          eventf pa.metadata "Normal" "ReEnabling"
          finish requeue_now)
        else finish done
