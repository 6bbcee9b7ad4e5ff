-- ===== src/Allocation/Reconcile.antt =====
-- Reconcile of the allocation controller, and the router from pod events.
use alibaba_cloud_nlb_pool_o.Base.{
  ℕ, List, [], ◌∷◌, pos, atoi, wrap32, not, ◌==◌, ◌||◌, if◌then◌else◌,
}
use alibaba_cloud_nlb_pool_o.Types.{
  Key, lookup, label_pool, label_slot, label_phase, annotation_pool_name, annotation_pa_claim,
  finalizer_allocation, PortAllocation, Pod, PaPhase, unset, provisioning, available, binding,
  bound, releasing, disabled, deleting, other, pa_phase_name,
}
use alibaba_cloud_nlb_pool_o.World.{
  Result, is_not_found, get_pa, get_pool, list_pas, update_pa, update_pa_status, Reply, done, fail,
  requeue_now, retry_after, Proc, ◌>>=◌, ◌>>◌, pure, finish, request, asks, on_err, on_none,
  or_panic, exit_if, or_requeue,
}
use alibaba_cloud_nlb_pool_o.Allocation.Slots.{slot_in_group}
use alibaba_cloud_nlb_pool_o.Allocation.Helpers.{with_phase, update_phase_label}
use alibaba_cloud_nlb_pool_o.Allocation.Provision.{with_initial_arrays, handle_provisioning}
use alibaba_cloud_nlb_pool_o.Allocation.Available.{handle_available}
use alibaba_cloud_nlb_pool_o.Allocation.Binding.{handle_binding}
use alibaba_cloud_nlb_pool_o.Allocation.Bound.{handle_bound, handle_disabled}
use alibaba_cloud_nlb_pool_o.Allocation.Releasing.{handle_releasing}
use alibaba_cloud_nlb_pool_o.Allocation.Deletion.{handle_deletion}

abbrev pub with_no_ready : PortAllocation → PortAllocation
with_no_ready pa = record pa {
  status = record pa.status { sgs_ready = pos 0; listeners_ready = pos 0 };
}

-- `if pa.Status.Phase == ""`: the status arrays are filled
unfoldable pub initialize : PortAllocation → Proc Reply
initialize pa = do
  let pool_name = lookup label_pool pa.metadata.labels
  let slot_label = lookup label_slot pa.metadata.labels
  exit_if (pool_name == "" || slot_label == "") (retry_after 5)
  on_none (atoi slot_label) (finish (retry_after 5)) λ slot_int. do
    got ← request (get_pool (record { namespace = pa.metadata.namespace; name = pool_name }))
    on_err got (λ e. finish (retry_after 5))
        λ pool. do
          in_group ← or_panic (slot_in_group pool.spec (wrap32 slot_int))
          written ← request (
              update_pa_status (
                with_no_ready
                  (with_initial_arrays pool in_group (with_phase provisioning "Initializing" pa))))
          pa ← or_requeue written
          pa ← update_phase_label pa
          finish requeue_now

-- the switch on the phase
unfoldable pub dispatch : PaPhase → PortAllocation → Proc Reply
unfolding initialize
dispatch unset pa = initialize pa
dispatch provisioning pa = handle_provisioning pa
dispatch available pa = handle_available pa
dispatch binding pa = handle_binding pa
dispatch bound pa = handle_bound pa
dispatch releasing pa = handle_releasing pa
dispatch disabled pa = handle_disabled pa
dispatch deleting pa = finish done
dispatch (other s) pa = finish done

-- Reconcile from the answer of its first `Get` on
unfoldable pub after_get : ℕ → Result PortAllocation → Proc Reply
unfolding dispatch
after_get fuel got =
    on_err got (λ e. if is_not_found e then finish done else finish (fail e))
      λ pa. if pa.metadata.deleting then handle_deletion fuel pa else do
        held ← asks (λ env. env.contains_finalizer pa.metadata finalizer_allocation)
        if not held
            then (do
              metadata ← asks (λ env. env.add_finalizer pa.metadata finalizer_allocation)
              written ← request (update_pa (record pa { metadata = metadata }))
              pa ← or_requeue written
              finish requeue_now)
            else dispatch pa.status.phase pa

-- Reconcile
unfoldable pub reconcile : ℕ → Key → Proc Reply
unfolding after_get
reconcile fuel key = request (get_pa key) >>= after_get fuel

-- the loop of podToPortAllocation over the available allocations
abbrev pub unbound_keys : List PortAllocation → List Key
unbound_keys [] = []
unbound_keys (pa ∷ pas) =
    if pa.spec.bound_pod == ""
    then record { namespace = pa.metadata.namespace; name = pa.metadata.name } ∷ unbound_keys pas
    else unbound_keys pas

-- podToPortAllocation, for an object that is a pod
unfoldable pub pod_to_port_allocation : Pod → Proc (List Key)
pod_to_port_allocation pod =
    let pool_name = lookup annotation_pool_name pod.metadata.annotations in
    let claim = lookup annotation_pa_claim pod.metadata.annotations in
    if pool_name == ""
    then pure []
    else if not (claim == "")
    then pure (record { namespace = pod.metadata.namespace; name = claim } ∷ [])
    else do
      listed ← request (
          list_pas pod.metadata.namespace
            ((label_pool, pool_name) ∷ (label_phase, pa_phase_name available) ∷ []))
      on_err listed (λ e. pure []) λ pas. pure (unbound_keys pas)
