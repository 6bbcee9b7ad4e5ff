-- ===== src/Allocation/Available.antt =====
-- handleAvailable and availableResumeBind: an available allocation looks for a pod and claims it with
-- two optimistic writes, first of itself and then of the pod.
use alibaba_cloud_nlb_pool_o.Base.{
  String, Bool, List, [], ◌∷◌, Option, none, some, not, ◌<>◌, ◌==◌, ◌||◌, if◌then◌else◌,
}
use alibaba_cloud_nlb_pool_o.Types.{
  lookup, insert, label_pool, annotation_pool_name, annotation_pa_claim, PortAllocation, Pod,
  binding,
}
use alibaba_cloud_nlb_pool_o.World.{
  is_not_found, list_pods, get_pa, get_pod, update_pa, update_pa_status, update_pod, Result, ok,
  err, Reply, fail, requeue_now, retry_after, Proc, ◌>>=◌, ◌>>◌, pure, finish, request, on_err,
  on_none, exit_if, or_requeue, eventf,
}
use alibaba_cloud_nlb_pool_o.Allocation.Helpers.{
  with_phase, with_bound_pod, pod_key, update_phase_label, clear_claim,
}

abbrev pub claim_of : Pod → String
claim_of pod = lookup annotation_pa_claim pod.metadata.annotations

-- `pod.Annotations[AnnotationPAClaim] = pa.Name`
abbrev pub claimed_by : PortAllocation → Pod → Pod
claimed_by pa pod = record pod {
  metadata = record pod.metadata {
    annotations = insert annotation_pa_claim pa.metadata.name pod.metadata.annotations;
  };
}

-- `err != nil || otherPA.Spec.BoundPod != p.Name`
abbrev pub is_stale : Result PortAllocation → Pod → Bool
is_stale (ok other_pa) p = not (other_pa.spec.bound_pod == p.metadata.name)
is_stale (err e) p = Bool.true

-- one round of the loop over the pods: `p` is the candidate, or the loop goes on with `rest`
unfoldable pub consider : PortAllocation → Pod → Proc (Option Pod) → Proc (Option Pod)
consider pa p rest =
    if not
      (lookup annotation_pool_name p.metadata.annotations == lookup label_pool pa.metadata.labels)
    then rest
    else if p.pod_ip == ""
    then rest
    else if claim_of p == "" || claim_of p == pa.metadata.name
    then pure (some p)
    else do
      other ← request (get_pa (record { namespace = p.metadata.namespace; name = claim_of p }))
      if is_stale other p then pure (some p) else rest

-- the loop over the pods; `none` is `candidate == nil`
unfoldable pub find_candidate : PortAllocation → List Pod → Proc (Option Pod)
unfolding consider
find_candidate pa [] = pure none
find_candidate pa (p ∷ pods) = consider pa p (find_candidate pa pods)

-- the last step of a claim: the status turns to Binding
unfoldable pub start_binding : PortAllocation → Proc Reply
start_binding pa = do
  written ← request (
      update_pa_status (
        with_phase binding
          ("Binding to pod " <> pa.spec.bound_pod <> " (IP: " <> pa.spec.bound_pod_ip <> ")") pa))
  pa ← or_requeue written
  pa ← update_phase_label pa
  eventf pa.metadata "Normal" "Binding"
  finish requeue_now

-- the write of the pod failed, by a conflict or otherwise: the reservation is rolled back
unfoldable pub roll_back : PortAllocation → Proc Reply
roll_back pa = do
  eventf pa.metadata "Warning" "PodCASFailed"
  written ← request (update_pa (with_bound_pod "" "" pa))
  pa ← or_requeue written
  finish requeue_now

-- steps 1 to 3 of handleAvailable
unfoldable pub claim_pod : PortAllocation → Pod → Proc Reply
unfolding roll_back start_binding
claim_pod pa candidate = do
  written ← request (update_pa (with_bound_pod candidate.metadata.name candidate.pod_ip pa))
  pa ← or_requeue written
  eventf pa.metadata "Normal" "PAReserved"
  claimed ← request (update_pod (claimed_by pa candidate))
  on_err claimed (λ e. roll_back pa)
      λ pod. do eventf pa.metadata "Normal" "PodClaimed"; start_binding pa

-- the rest of availableResumeBind, once the pod's claim is this allocation's
unfoldable pub resume_binding : PortAllocation → Pod → Proc Reply
unfolding start_binding
resume_binding pa pod = do
  exit_if (pod.pod_ip == "") (retry_after 2)
  if pa.spec.bound_pod_ip == pod.pod_ip then start_binding pa else do
    written ← request (update_pa (with_bound_pod pa.spec.bound_pod pod.pod_ip pa))
    pa ← or_requeue written
    start_binding pa

-- availableResumeBind
unfoldable pub available_resume_bind : PortAllocation → Proc Reply
unfolding resume_binding
available_resume_bind pa = do
  got ← request (get_pod (pod_key pa))
  on_err got
      (λ e.
        if is_not_found e then clear_claim pa "reserved pod no longer exists" else finish (fail e))
      λ pod.
        if claim_of pod == pa.metadata.name
        then resume_binding pa pod
        else if claim_of pod == ""
        then (do
          claimed ← request (update_pod (claimed_by pa pod))
          on_err claimed
              (λ e. do
                eventf pa.metadata "Warning" "ResumePodCASFailed"
                clear_claim pa "Pod CAS failed during resume")
              λ pod. do eventf pa.metadata "Normal" "ResumedPodClaim"; resume_binding pa pod)
        else do
          eventf pa.metadata "Normal" "ClaimConflict"
          clear_claim pa ("Pod " <> pod.metadata.name <> " claimed by PA " <> claim_of pod)

-- handleAvailable
unfoldable pub handle_available : PortAllocation → Proc Reply
unfolding find_candidate claim_pod available_resume_bind
handle_available pa = if not (pa.spec.bound_pod == "") then available_resume_bind pa else do
  listed ← request (list_pods pa.metadata.namespace)
  on_err listed (λ e. finish (fail e))
      λ pods. do
        candidate ← find_candidate pa pods
        on_none candidate (finish (retry_after 5)) (claim_pod pa)
