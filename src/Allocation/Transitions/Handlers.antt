-- ===== src/Allocation/Transitions/Handlers.antt =====
-- The status writes of the handlers from Available to Releasing.
use alibaba_cloud_nlb_pool_o.Base.{String, arith}
use alibaba_cloud_nlb_pool_o.Types.{
  PaPhase, available, binding, bound, releasing, disabled, PortAllocation, Pod,
}
use alibaba_cloud_nlb_pool_o.World.{◌>>=◌, request, or_requeue, eventf, pure, finish}
use alibaba_cloud_nlb_pool_o.World.Keeps.{Keeps, keeps_rules}
use alibaba_cloud_nlb_pool_o.World.Only.{Only-for_index, Only-or_requeue, Only-eventf, only_rules}
use alibaba_cloud_nlb_pool_o.World.Requests.{request_rules}
use alibaba_cloud_nlb_pool_o.Allocation.Helpers.{start_releasing, update_phase_label, clear_claim}
use alibaba_cloud_nlb_pool_o.Allocation.Available.{
  start_binding, roll_back, claim_pod, resume_binding, available_resume_bind, handle_available,
}
use alibaba_cloud_nlb_pool_o.Allocation.Binding.{abort_binding, bind_groups, handle_binding}
use alibaba_cloud_nlb_pool_o.Allocation.Bound.{handle_disable, handle_bound, handle_disabled}
use alibaba_cloud_nlb_pool_o.Allocation.Releasing.{reset_to_available}
use alibaba_cloud_nlb_pool_o.Allocation.Calls
use alibaba_cloud_nlb_pool_o.Allocation.Transitions.{
  Edge, Steps, no_status-Steps, quiet-Steps, write_status-Steps, initialized, filled, provisioned,
  claimed, added, aborted, released, switched_off, switched_on, pod_lost, emptied, removed,
}

module _ (p : PaPhase) (pa : PortAllocation) where
  pub start_releasing-Steps : Edge p releasing → Keeps (Steps p) (start_releasing pa)
  unfolding start_releasing update_phase_label ◌>>=◌ request or_requeue eventf pure finish
  start_releasing-Steps e = record { at = λ env t h. ground arith }

  pub clear_claim-Steps : (s : String) → Keeps (Steps p) (clear_claim pa s)
  unfolding clear_claim ◌>>=◌ request or_requeue eventf pure finish
  clear_claim-Steps s = record { at = λ env t h. ground arith }

  pub start_binding-Steps : Edge p binding → Keeps (Steps p) (start_binding pa)
  unfolding start_binding update_phase_label ◌>>=◌ request or_requeue eventf pure finish
  start_binding-Steps e = record { at = λ env t h. ground arith }

  pub roll_back-Steps : Keeps (Steps p) (roll_back pa)
  unfolding roll_back ◌>>=◌ request or_requeue eventf pure finish
  roll_back-Steps = record { at = λ env t h. ground arith }

  pub abort_binding-Steps : Edge p releasing → (s : String) → Keeps (Steps p) (abort_binding pa s)
  unfolding abort_binding update_phase_label ◌>>=◌ request or_requeue eventf pure finish
  abort_binding-Steps e s = record { at = λ env t h. ground arith }

pub update_phase_label-Steps :
    (p : PaPhase) (pa : PortAllocation) → Keeps (Steps p) (update_phase_label pa)
unfolding update_phase_label
update_phase_label-Steps p pa = no_status-Steps p (search (only_rules, request_rules) depth 8)

pub ruleset steps_rules = (
  keeps_rules, Only-or_requeue, Only-eventf, request_rules, no_status-Steps, write_status-Steps,
  start_releasing-Steps, clear_claim-Steps, start_binding-Steps, roll_back-Steps,
  abort_binding-Steps, update_phase_label-Steps, initialized, filled, provisioned, claimed, added,
  aborted, released, switched_off, switched_on, pod_lost, emptied, removed,
)

resume_binding-Steps :
    (pa : PortAllocation) (pod : Pod) → Keeps (Steps available) (resume_binding pa pod)
unfolding resume_binding
resume_binding-Steps pa pod = search steps_rules depth 8

claim_pod-Steps : (pa : PortAllocation) (pod : Pod) → Keeps (Steps available) (claim_pod pa pod)
unfolding claim_pod
claim_pod-Steps pa pod = search steps_rules depth 8

available_resume_bind-Steps :
    (pa : PortAllocation) → Keeps (Steps available) (available_resume_bind pa)
unfolding available_resume_bind
available_resume_bind-Steps pa = search (steps_rules, resume_binding-Steps) depth 14

pub handle_available-Steps : (pa : PortAllocation) → Keeps (Steps available) (handle_available pa)
unfolding handle_available
handle_available-Steps pa =
    search
      (
        steps_rules, available_resume_bind-Steps, claim_pod-Steps, quiet-Steps,
        Calls.find_candidate-IsQuiet,
      )
      depth 9

bind_groups-Steps : (pa : PortAllocation) → Keeps (Steps binding) (bind_groups pa)
unfolding bind_groups
bind_groups-Steps pa =
    search (steps_rules, quiet-Steps, Only-for_index, Calls.bind_group-IsQuiet) depth 12

pub handle_binding-Steps : (pa : PortAllocation) → Keeps (Steps binding) (handle_binding pa)
unfolding handle_binding
handle_binding-Steps pa = search (steps_rules, bind_groups-Steps) depth 9

handle_disable-Steps : (pa : PortAllocation) → Keeps (Steps bound) (handle_disable pa)
unfolding handle_disable
handle_disable-Steps pa =
    search (steps_rules, quiet-Steps, Only-for_index, Calls.disable_group-IsQuiet) depth 12

pub handle_bound-Steps : (pa : PortAllocation) → Keeps (Steps bound) (handle_bound pa)
unfolding handle_bound
handle_bound-Steps pa = search (steps_rules, handle_disable-Steps) depth 11

pub handle_disabled-Steps : (pa : PortAllocation) → Keeps (Steps disabled) (handle_disabled pa)
unfolding handle_disabled
handle_disabled-Steps pa = search steps_rules depth 12

pub reset_to_available-Steps :
    (pa : PortAllocation) (s : String) → Keeps (Steps releasing) (reset_to_available pa s)
unfolding reset_to_available
reset_to_available-Steps pa s =
    search
      (steps_rules, quiet-Steps, Calls.remove_all_servers-IsQuiet, Calls.clear_pod_claim-IsQuiet)
      depth 12
