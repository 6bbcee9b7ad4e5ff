-- ===== src/Allocation/Releasing.antt =====
-- handleReleasing and resetToAvailable: the server groups are emptied, the pod's claim is dropped and
-- the allocation becomes available again.
use alibaba_cloud_nlb_pool_o.Base.{
  ℕ, suc, String, Bool, true, false, List, [], ◌∷◌, Option, none, some, ℤ, pos, negsuc, signed,
  ltb_ℤ, ◌-ℤ◌, show_ℤ, is_empty, map, ◌*◌, ◌/◌, ◌^◌, ◌==◌, ◌||◌, ◌&&◌, if◌then◌else◌,
}
use alibaba_cloud_nlb_pool_o.Types.{
  lookup?, insert, remove, annotation_releasing_since, PortAllocation, ServerGroupCloudStatus,
  BackendServer, clear, is_clear, available,
}
use alibaba_cloud_nlb_pool_o.World.{
  update_pa, update_pa_status, patch_pa, remove_servers, list_server_group_servers, now, Reply,
  done, requeue_now, retry_after, Proc, ◌>>=◌, ◌>>◌, pure, finish, request, asks, on_err, on_none,
  for_index, or_requeue, eventf,
}
use alibaba_cloud_nlb_pool_o.Provider.{
  is_local_rate_limited, is_limited, is_server_not_found_error,
  is_incorrect_status_backend_server_error,
}
use alibaba_cloud_nlb_pool_o.Allocation.Helpers.{
  with_bound_pod, clear_pod_claim, remove_all_servers, update_phase_label, generate_client_token,
}
use alibaba_cloud_nlb_pool_o.Allocation.Binding.{mark_server}

-- durations in nanoseconds
abbrev pub seconds : ℕ → ℤ
seconds n = pos (n * 10 ^ 9)

-- `t.Unix() / 60`: whole seconds round down, and the division truncates
abbrev pub unix_minutes : ℤ → ℤ
unix_minutes (pos n) = pos (n / 10 ^ 9 / 60)
unix_minutes (negsuc n) = signed true (suc (n / 10 ^ 9) / 60)

abbrev parsed_or : Option ℤ → ℤ → ℤ
parsed_or none t = t
parsed_or (some s) t = s

-- the marker of the cycle's start: read where it is there, and written where it is not
unfoldable pub releasing_since : PortAllocation → Proc (PortAllocation × ℤ)
releasing_since pa = do
  started ← request now
  on_none (lookup? annotation_releasing_since pa.metadata.annotations)
      (do
        stamp ← asks (λ env. env.format_time started)
        answer ← request (
            patch_pa (record pa {
              metadata = record pa.metadata {
                annotations = insert annotation_releasing_since stamp pa.metadata.annotations;
              };
            }))
        on_err answer (λ e. finish requeue_now) λ pa. pure (pa, started))
      λ v. do parsed ← asks (λ env. env.parse_time v); pure (pa, parsed_or parsed started)

-- the loop over the servers that a group lists; the flag is `rateLimitedThisCycle`
unfoldable pub remove_listed : PortAllocation → String → List BackendServer → Bool → Proc Bool
remove_listed pa sg_id [] rate_limited = pure rate_limited
remove_listed pa sg_id (s ∷ servers) rate_limited = do
  time ← request now
  token ← generate_client_token (
      pa.metadata.namespace
      ∷ pa.metadata.name
      ∷ "release"
      ∷ sg_id
      ∷ s.server_ip
      ∷ show_ℤ (unix_minutes time)
      ∷ [])
  resp ← request (
      remove_servers (record {
        server_group_id = sg_id;
        servers =
            record {
              server_type = "Ip";
              server_id = s.server_ip;
              server_ip = s.server_ip;
              port = s.port;
              weight = pos 0;
            }
            ∷ [];
        client_token = token;
      }))
  let rest = remove_listed pa sg_id servers rate_limited
  on_err resp
      (λ e.
        if is_limited e
        then pure (rate_limited || is_local_rate_limited (some e))
        else if is_server_not_found_error (some e)
            || is_incorrect_status_backend_server_error (some e)
        then rest
        else do eventf pa.metadata "Warning" "RemoveServerFailed"; rest)
      λ _. rest

-- the variables of the loop over the server groups
pub record Release : Type 0 where
  pub pa : PortAllocation
  pub all_clear : Bool
  pub rate_limited : Bool

-- one round: the group is listed; an empty one is marked, the servers of another are removed
unfoldable pub release_group : ℕ → ServerGroupCloudStatus → Release → Proc Release
unfolding remove_listed
release_group i sg st =
    if sg.server_group_id == "" || is_clear sg.server_status then pure st else do
      resp ← request (list_server_group_servers sg.server_group_id)
      on_err resp
          (λ e.
            if is_limited e
            then pure (record st {
              all_clear = false;
              rate_limited = st.rate_limited || is_local_rate_limited (some e);
            })
            else finish (retry_after 5))
          λ servers.
            if is_empty servers
            then (do pa ← mark_server st.pa i clear; pure (record st { pa = pa }))
            else do
              limited ← remove_listed st.pa sg.server_group_id servers st.rate_limited
              pure (record st { all_clear = false; rate_limited = limited })

-- the age-based delay, in seconds
unfoldable pub release_backoff : ℤ → ℕ
release_backoff age =
    if ltb_ℤ (seconds 1800) age
    then 300
    else if ltb_ℤ (seconds 600) age
    then 60
    else if ltb_ℤ (seconds 120) age
    then 30
    else 10

abbrev pub cleared : ServerGroupCloudStatus → ServerGroupCloudStatus
cleared g = record g { server_status = clear }

-- the marks that resetToAvailable leaves in the status
abbrev pub reset_status : String → PortAllocation → PortAllocation
reset_status message pa = record pa {
  status = record pa.status {
    server_groups = map cleared pa.status.server_groups;
    phase = available;
    external_addresses = [];
    message = message;
  };
}

abbrev pub without_marker : PortAllocation → PortAllocation
without_marker pa = record pa {
  metadata = record pa.metadata {
    annotations = remove annotation_releasing_since pa.metadata.annotations;
  };
}

-- resetToAvailable
unfoldable pub reset_to_available : PortAllocation → String → Proc Reply
reset_to_available pa message = do
  failure ← remove_all_servers pa
  on_none failure (pure tt) λ e. do eventf pa.metadata "Warning" "RemoveServerFailed"; pure tt
  clear_pod_claim pa
  written ← request (update_pa (without_marker (with_bound_pod "" "" pa)))
  pa ← or_requeue written
  written ← request (update_pa_status (reset_status message pa))
  pa ← or_requeue written
  pa ← update_phase_label pa
  eventf pa.metadata "Normal" "Available"
  finish done

-- handleReleasing from the loop over the server groups on
unfoldable pub release_from : PortAllocation × ℤ → Proc Reply
unfolding release_group release_backoff reset_to_available
release_from (pa, since) = do
  time ← request now
  let age = time -ℤ since
  let start : Release = record { pa = pa; all_clear = true; rate_limited = false }
  st ← for_index 0 pa.status.server_groups start release_group
  if st.all_clear
      then (do clear_pod_claim st.pa; reset_to_available st.pa "Released, ready for rebinding")
      else do
        if ltb_ℤ (seconds 900) age
            then eventf st.pa.metadata "Warning" "StuckReleasing"
            else pure tt
        if st.rate_limited && ltb_ℤ (seconds 300) age
            then eventf st.pa.metadata "Warning" "ReleaseRateLimited"
            else pure tt
        finish (retry_after (release_backoff age))

-- handleReleasing
unfoldable pub handle_releasing : PortAllocation → Proc Reply
unfolding releasing_since release_from
handle_releasing pa = releasing_since pa >>= release_from
