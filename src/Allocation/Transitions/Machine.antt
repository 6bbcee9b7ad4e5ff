-- ===== src/Allocation/Transitions/Machine.antt =====
-- The status writes of Provisioning and Releasing, of the first round, and of Reconcile as a whole.
use alibaba_cloud_nlb_pool_o.Base.{ℕ, [], ◌∷◌, ◌≡◌, refl, sym, ℤ, not}
use alibaba_cloud_nlb_pool_o.Types.{
  PaPhase, unset, provisioning, available, binding, bound, releasing, disabled, deleting, other,
  PortAllocation, Key,
}
use alibaba_cloud_nlb_pool_o.World.{done, get_pa, exchange, Env, Result, ok, ◌>>=◌, request}
use alibaba_cloud_nlb_pool_o.World.Keeps.{
  Keeps, Keeps-bind, Keeps-if, Keeps-asks, Keeps-finish, Keeps-on_err, keeps_rules,
}
use mathlib.Core.Path.{subst}
use alibaba_cloud_nlb_pool_o.World.Only.{Only-for_index}
use alibaba_cloud_nlb_pool_o.Allocation.Provision.{
  Slot, compute_aggregates, fill_arrays, publish, promote, handle_provisioning,
}
use alibaba_cloud_nlb_pool_o.Allocation.Releasing.{releasing_since, release_from, handle_releasing}
use alibaba_cloud_nlb_pool_o.Allocation.Reconcile.{initialize, dispatch, after_get, reconcile}
use alibaba_cloud_nlb_pool_o.Allocation.Transitions.Teardown.{handle_deletion-Steps}
use alibaba_cloud_nlb_pool_o.Allocation.Calls
use alibaba_cloud_nlb_pool_o.Allocation.Transitions.{Edge, Steps, quiet-Steps, filled}
use alibaba_cloud_nlb_pool_o.Allocation.Transitions.Handlers.{
  steps_rules, handle_available-Steps, handle_binding-Steps, handle_bound-Steps,
  handle_disabled-Steps, reset_to_available-Steps,
}

fill_arrays-Steps :
    (slot : Slot) (pa : PortAllocation)
    → Edge provisioning pa.status.phase
    → Keeps (Steps provisioning) (fill_arrays slot pa)
unfolding fill_arrays
fill_arrays-Steps slot pa e = search steps_rules depth 10

publish-Steps : (slot : Slot) (pa : PortAllocation) → Keeps (Steps provisioning) (publish slot pa)
unfolding publish compute_aggregates
publish-Steps slot pa = search steps_rules depth 12

promote-Steps : (slot : Slot) (pa : PortAllocation) → Keeps (Steps provisioning) (promote slot pa)
unfolding promote
promote-Steps slot pa =
    search (steps_rules, publish-Steps, quiet-Steps, Calls.lane_endpoint-IsQuiet) depth 9

handle_provisioning-Steps :
    (pa : PortAllocation)
    → Edge provisioning pa.status.phase
    → Keeps (Steps provisioning) (handle_provisioning pa)
unfolding handle_provisioning
handle_provisioning-Steps pa e =
    search
      (
        steps_rules, fill_arrays-Steps, promote-Steps, quiet-Steps, Calls.find_slot-IsQuiet,
        Calls.ensure_groups-IsQuiet, Calls.ensure_listeners-IsQuiet,
      )
      depth 9

release_from-Steps : (x : PortAllocation × ℤ) → Keeps (Steps releasing) (release_from x)
unfolding release_from
release_from-Steps (pa, since) =
    search
      (
        steps_rules, reset_to_available-Steps, quiet-Steps, Only-for_index,
        Calls.release_group-IsQuiet, Calls.clear_pod_claim-IsQuiet,
      )
      depth 12

handle_releasing-Steps : (pa : PortAllocation) → Keeps (Steps releasing) (handle_releasing pa)
unfolding handle_releasing
handle_releasing-Steps pa =
    Keeps-bind (releasing_since pa) release_from
      (quiet-Steps releasing (Calls.releasing_since-IsQuiet pa)) release_from-Steps

initialize-Steps : (pa : PortAllocation) → Keeps (Steps unset) (initialize pa)
unfolding initialize
initialize-Steps pa = search steps_rules depth 14

dispatch-Steps :
    (q : PaPhase) (pa : PortAllocation) → pa.status.phase ≡ q → Keeps (Steps q) (dispatch q pa)
unfolding dispatch
dispatch-Steps unset pa e = initialize-Steps pa
dispatch-Steps provisioning pa e =
    handle_provisioning-Steps pa (subst (Edge provisioning) (sym e) filled)
dispatch-Steps available pa e = handle_available-Steps pa
dispatch-Steps binding pa e = handle_binding-Steps pa
dispatch-Steps bound pa e = handle_bound-Steps pa
dispatch-Steps releasing pa e = handle_releasing-Steps pa
dispatch-Steps disabled pa e = handle_disabled-Steps pa
dispatch-Steps deleting pa e = Keeps-finish done
dispatch-Steps (other s) pa e = Keeps-finish done

after_get-Steps :
    (p : PaPhase) (fuel : ℕ) (r : Result PortAllocation)
    → ((pa : PortAllocation) → r ≡ ok pa → pa.status.phase ≡ p)
    → Keeps (Steps p) (after_get fuel r)
unfolding after_get
after_get-Steps p fuel r h =
    Keeps-on_err r _ _ (λ e _. search keeps_rules)
      λ pa e.
        Keeps-if pa.metadata.deleting _ _ (λ _. handle_deletion-Steps p fuel pa)
          λ _. Keeps-bind _ _ (Keeps-asks _) λ held.
            Keeps-if (not held) _ _ (λ _. search (steps_rules) depth 9)
              λ _.
                subst (λ q. Keeps (Steps q) (dispatch pa.status.phase pa)) (h pa e)
                  (dispatch-Steps pa.status.phase pa refl)

-- Where the server answers the first read with `pa`, every status write of the reconcile, as the server
-- gets them in order, moves along an edge that leaves `pa`'s phase, or writes a phase that the server
-- had handed back before in the same reconcile.
pub reconcile-Steps :
    (env : Env) (fuel : ℕ) (key : Key) (pa : PortAllocation)
    → env.respond [] (get_pa key) ≡ ok pa
    → Steps pa.status.phase (reconcile fuel key env []).1
unfolding reconcile ◌>>=◌ request
reconcile-Steps env fuel key pa e =
    (after_get-Steps pa.status.phase fuel (env.respond [] (get_pa key)) same_phase).at env
      (exchange (get_pa key) (env.respond [] (get_pa key)) ∷ []) (tt, tt)
  where
    same_phase :
        (pa' : PortAllocation)
        → env.respond [] (get_pa key) ≡ ok pa'
        → pa'.status.phase ≡ pa.status.phase
    same_phase pa' e' = cc
