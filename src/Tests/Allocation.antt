-- ===== src/Tests/Allocation.antt =====
-- The theorems on allocations at concrete objects.
use alibaba_cloud_nlb_pool_o.Base.{ℕ, [], some, pos, ◌≡◌, refl, All, get_elem?, arith}
use alibaba_cloud_nlb_pool_o.Types.{Key, available, bound, releasing, deleting}
use alibaba_cloud_nlb_pool_o.World.Keeps.{Keeps}
use alibaba_cloud_nlb_pool_o.Allocation.Reconcile.{reconcile}
use alibaba_cloud_nlb_pool_o.Allocation.Releasing.{release_from}
use alibaba_cloud_nlb_pool_o.Allocation.Deletion.{erase_cloud}
use alibaba_cloud_nlb_pool_o.Allocation.Slots.{initial_listeners, listener_port_of}
use alibaba_cloud_nlb_pool_o.Allocation.Transitions.{Steps}
use alibaba_cloud_nlb_pool_o.Allocation.Transitions.Machine.{reconcile-Steps}
use alibaba_cloud_nlb_pool_o.Allocation.Vacancy.{ResetsWhenVacant, release_from-ResetsWhenVacant}
use alibaba_cloud_nlb_pool_o.Allocation.Available.{handle_available}
use alibaba_cloud_nlb_pool_o.Allocation.Claims.{BindsClaimed}
use alibaba_cloud_nlb_pool_o.Allocation.Claims.Available.{handle_available-BindsClaimed}
use alibaba_cloud_nlb_pool_o.Allocation.Erasure.{Ends}
use alibaba_cloud_nlb_pool_o.Allocation.Erasure.Listeners.{ListenerGone}
use alibaba_cloud_nlb_pool_o.Allocation.Erasure.Groups.{GroupGone}
use alibaba_cloud_nlb_pool_o.Allocation.Erasure.Whole.{erase_cloud_lem}
use alibaba_cloud_nlb_pool_o.Allocation.Layout.{
  pending, slot_port, get_elem?-initial_listeners, slot_port_lem, slot_port-injective,
}
use alibaba_cloud_nlb_pool_o.Tests.World.{lane, pool_spec, allocation, cluster, cluster-Echoes}

abbrev test_key : Key
test_key = record { namespace = "default"; name = "pool-3" }

-- the pod of a bound allocation is gone
reconcile-Steps_example : Steps bound (reconcile 2 test_key (cluster (allocation bound)) []).1
reconcile-Steps_example =
    reconcile-Steps (cluster (allocation bound)) 2 test_key (allocation bound) refl

release_from-ResetsWhenVacant_example :
    Keeps
      (ResetsWhenVacant (allocation releasing).status.server_groups)
      (release_from (allocation releasing, pos 0))
release_from-ResetsWhenVacant_example = release_from-ResetsWhenVacant (allocation releasing) (pos 0)

handle_available-BindsClaimed_example : Keeps BindsClaimed (handle_available (allocation available))
handle_available-BindsClaimed_example = handle_available-BindsClaimed (allocation available)

erase_cloud_lem_example :
    Ends
      (λ pa t.
        (pa.status.listeners ≡ [])
        × (pa.status.server_groups ≡ [])
        × All (λ lsn. ListenerGone lsn t) (allocation deleting).status.listeners
        × All (λ sg. GroupGone sg t) (allocation deleting).status.server_groups)
      (erase_cloud 1 (allocation deleting) (cluster (allocation deleting)) [])
erase_cloud_lem_example =
    erase_cloud_lem (cluster (allocation deleting)) (cluster-Echoes (allocation deleting)) 1
      (allocation deleting) [] (omega arith) (omega arith)

get_elem?-initial_listeners_example :
    get_elem? (initial_listeners pool_spec (pos 2) 0 pool_spec.ports) 3
    ≡ some (
        pending
          (record { name = "game"; protocol = "UDP"; container_port = pos 9000 })
          (lane "unicom")
          (listener_port_of pool_spec (pos 2) 1))
get_elem?-initial_listeners_example =
    get_elem?-initial_listeners pool_spec (pos 2) 1 1
      (record { name = "game"; protocol = "UDP"; container_port = pos 9000 }) (lane "unicom") refl
      refl

slot_port_lem_example : slot_port pool_spec (pos 5) 1 ≡ some (pos 10005)
slot_port_lem_example =
    slot_port_lem pool_spec 2 refl 10000 refl (omega arith) (omega arith) 5 1 (omega arith)
      (omega arith)

abbrev slot_five : ℕ
slot_five = 5

abbrev second_port : ℕ
second_port = 1

slot_port-injective_example : (slot_five ≡ slot_five) × (second_port ≡ second_port)
slot_port-injective_example =
    slot_port-injective pool_spec 2 refl 10000 refl (omega arith) (omega arith) 5 5 1 1
      (omega arith) (omega arith) (omega arith) (omega arith) refl refl
