-- ===== src/Tests/Pool.antt =====
-- The theorems on pools at concrete pools.
use alibaba_cloud_nlb_pool_o.Base.{ℕ, false, [], ◌∷◌, All, some, pos, ◌≡◌, refl, ◌*◌, ◌/◌, arith}
use alibaba_cloud_nlb_pool_o.Pool.Sizing.{compute_desired_nlbs, IsDesired, compute_desired_nlbs_lem}
use alibaba_cloud_nlb_pool_o.Types.{NlbPool}
use alibaba_cloud_nlb_pool_o.World.Keeps.{Once}
use alibaba_cloud_nlb_pool_o.World.Meets.{Meets}
use alibaba_cloud_nlb_pool_o.Pool.Confirmation.{
  SaysAbsent, has_cloud_nlbs, has_cloud_nlbs-Confirmed,
}
use alibaba_cloud_nlb_pool_o.Base.{true, List, Option, atoi, inr, ◌+◌, ◌≤◌, select}
use alibaba_cloud_nlb_pool_o.Types.{
  Key, ObjectMeta, PortAllocation, available, bound, lookup, label_slot,
  annotation_deletion_dry_run,
}
use alibaba_cloud_nlb_pool_o.World.{Kind, done, key_of, retry_after, exit}
use alibaba_cloud_nlb_pool_o.World.Keeps.{Each, Keeps}
use alibaba_cloud_nlb_pool_o.World.Meets.{Preceded}
use alibaba_cloud_nlb_pool_o.Pool.Confirmation.{Absent}
use alibaba_cloud_nlb_pool_o.Pool.Builders.{build_port_allocation, pa_to_nlb_pool}
use alibaba_cloud_nlb_pool_o.Pool.Deletion.{delete_children, delete_controlled}
use alibaba_cloud_nlb_pool_o.Pool.Infrastructure.{ensure_nlbs_and_eips}
use alibaba_cloud_nlb_pool_o.Pool.Status.{synced, sync_pool_status}
use alibaba_cloud_nlb_pool_o.Pool.Reconcile.{finish_deletion, tear_down, reconcile_pool}
use alibaba_cloud_nlb_pool_o.Pool.Gates.{Reads, reconcile_pool-Gated}
use alibaba_cloud_nlb_pool_o.Pool.Teardown.Order.{DeletesAllocation, finish_deletion-ConfirmsFirst}
use alibaba_cloud_nlb_pool_o.Pool.Teardown.Infrastructure.{
  AllDeleted, delete_controlled_lem, delete_children-AllDeleted,
}
use alibaba_cloud_nlb_pool_o.Pool.Teardown.Recorded.{Confirmed, tear_down-ConfirmsOwned}
use alibaba_cloud_nlb_pool_o.Pool.Teardown.Whole.{Current, reconcile_pool-ConfirmsOwned}
use alibaba_cloud_nlb_pool_o.Pool.Teardown.Finalizer.{DropsFinalizer, reconcile_pool-DropsFinalizer}
use alibaba_cloud_nlb_pool_o.Pool.Health.Groups.{AllActive, ensure_nlbs_and_eips-AllActive}
use alibaba_cloud_nlb_pool_o.Pool.Readiness.{Justified, CreatesReady}
use alibaba_cloud_nlb_pool_o.Pool.Readiness.Creation.{ensure_nlbs_and_eips-Ready}
use alibaba_cloud_nlb_pool_o.Pool.Counting.{synced_lem, Outcome, sync_pool_status-Outcome}
use alibaba_cloud_nlb_pool_o.Pool.Labels.{build_port_allocation-RoundTrip}
use alibaba_cloud_nlb_pool_o.Tests.World.{
  last_cluster, last_cluster-IsGone, pool, meta, allocation, load_balancer, pool_cluster,
  cluster-EchoesIds, cluster-KeepsStatus, cluster-few,
}

-- the pool's load balancer is gone from the cloud
abbrev recorded : NlbPool
recorded = record pool { status = record pool.status { cloud_nlb_ids = "nlb-1" ∷ [] } }

has_cloud_nlbs-Confirmed_example :
    Meets
      (λ _. Unit)
      (has_cloud_nlbs recorded)
      (λ s t. s.1 ≡ false → All (λ id. Once (SaysAbsent id) t) ("nlb-1" ∷ []))
      (λ _. Unit)
has_cloud_nlbs-Confirmed_example = has_cloud_nlbs-Confirmed recorded

-- four bound slots and a headroom of three want three load balancers
compute_desired_nlbs_lem_example :
    (d : ℕ) × (compute_desired_nlbs pool ≡ some (pos d)) × IsDesired 3 (3 * 1) (6 / 3) 2 4 d
compute_desired_nlbs_lem_example =
    compute_desired_nlbs_lem pool 2 1 6 2 4 refl refl refl refl refl (omega arith) (omega arith)

-- a pool that is being deleted, and one whose deletion is a dry run
abbrev deleted_pool : NlbPool
deleted_pool = record pool { metadata = record pool.metadata { deleting = true } }

abbrev dry_pool : NlbPool
dry_pool = record deleted_pool {
  metadata = record deleted_pool.metadata {
    annotations = (annotation_deletion_dry_run, "true") ∷ [];
  };
}

abbrev pool_key : Key
pool_key = key_of pool.metadata

reconcile_pool-Gated_example :
    Each Reads (reconcile_pool pool_key (pool_cluster dry_pool) []).1
    × ((reconcile_pool pool_key (pool_cluster dry_pool) []).0 ≡ exit (retry_after 30))
reconcile_pool-Gated_example =
    reconcile_pool-Gated (pool_cluster dry_pool) pool_key dry_pool refl refl refl (inr refl)

tear_down-ConfirmsOwned_example :
    Preceded DeletesAllocation
      (Confirmed (pool_cluster deleted_pool) deleted_pool)
      (tear_down deleted_pool (pool_cluster deleted_pool) []).1
tear_down-ConfirmsOwned_example =
    tear_down-ConfirmsOwned (pool_cluster deleted_pool) deleted_pool []
      (cluster-EchoesIds deleted_pool) tt

reconcile_pool-ConfirmsOwned_example :
    Preceded DeletesAllocation
      (λ t. (p : NlbPool) × (Current pool_key p t × Confirmed (pool_cluster deleted_pool) p t))
      (reconcile_pool pool_key (pool_cluster deleted_pool) []).1
reconcile_pool-ConfirmsOwned_example =
    reconcile_pool-ConfirmsOwned (pool_cluster deleted_pool) pool_key
      (cluster-EchoesIds deleted_pool)

finish_deletion-ConfirmsFirst_example :
    Keeps
      (Preceded DeletesAllocation λ t. All (Absent t) recorded.status.cloud_nlb_ids)
      (finish_deletion recorded)
finish_deletion-ConfirmsFirst_example = finish_deletion-ConfirmsFirst recorded

delete_controlled_lem_example :
    delete_controlled pool Kind.nlbs "NLB" (load_balancer.metadata ∷ []) (pool_cluster pool) []
    ≡ delete_children Kind.nlbs "NLB"
        (select
          (λ (m : ObjectMeta). (pool_cluster pool).is_controlled_by m pool.metadata)
          (load_balancer.metadata ∷ []))
        (pool_cluster pool)
        []
delete_controlled_lem_example =
    delete_controlled_lem pool Kind.nlbs "NLB" (load_balancer.metadata ∷ []) (pool_cluster pool) []

delete_children-AllDeleted_example :
    Meets
      (λ _. Unit)
      (delete_children Kind.allocations "PortAllocation" (meta "pool-3" ∷ []))
      (λ r t. r ≡ Option.none → AllDeleted Kind.allocations (meta "pool-3" ∷ []) t)
      (λ _. Unit)
delete_children-AllDeleted_example =
    delete_children-AllDeleted Kind.allocations "PortAllocation" (meta "pool-3" ∷ [])

-- a pool with a zone
abbrev zoned : NlbPool
zoned = record pool {
  spec = record pool.spec {
    zone_maps = record { zone = "cn-hangzhou-g"; vswitch_id = "vsw-1" } ∷ [];
  };
}

ensure_nlbs_and_eips-Ready_example :
    Keeps (Justified (CreatesReady zoned)) (ensure_nlbs_and_eips zoned (pos 1))
ensure_nlbs_and_eips-Ready_example = ensure_nlbs_and_eips-Ready zoned (pos 1)

abbrev two_allocations : List PortAllocation
two_allocations = allocation available ∷ allocation bound ∷ []

synced_lem_example :
    ((synced pool two_allocations pool.status).total_slots ≡ pos 2)
    × ((synced pool two_allocations pool.status).available_slots ≡ pos 1)
    × ((synced pool two_allocations pool.status).bound_slots ≡ pos 1)
    × (1 + 1 ≤ 2)
synced_lem_example = synced_lem pool two_allocations pool.status (omega arith)

sync_pool_status-Outcome_example : Outcome pool 2 1 (sync_pool_status pool (pool_cluster pool) [])
sync_pool_status-Outcome_example =
    sync_pool_status-Outcome (pool_cluster pool) pool 2 1 (cluster-KeepsStatus pool) refl refl
      (cluster-few pool)

-- a pool with no slots on a load balancer
abbrev slotless : NlbPool
slotless = record pool { spec = record pool.spec { slots_per_nlb = pos 0 } }

build_port_allocation-RoundTrip_example :
    (pa_to_nlb_pool (build_port_allocation pool (pos 12) "pool-s12") ≡ pool_key ∷ [])
    × (atoi (lookup label_slot (build_port_allocation pool (pos 12) "pool-s12").metadata.labels)
        ≡ some (pos 12))
build_port_allocation-RoundTrip_example =
    build_port_allocation-RoundTrip pool 12 "pool-s12" refl (omega arith)

reconcile_pool-DropsFinalizer_example :
    ((reconcile_pool pool_key (last_cluster deleted_pool) []).0 ≡ exit done)
    × Once
        (DropsFinalizer (last_cluster deleted_pool) deleted_pool.metadata)
        (reconcile_pool pool_key (last_cluster deleted_pool) []).1
reconcile_pool-DropsFinalizer_example =
    reconcile_pool-DropsFinalizer (last_cluster deleted_pool) pool_key [] deleted_pool
      (last_cluster-IsGone deleted_pool) refl refl refl refl refl

-- two lanes of two groups
ensure_nlbs_and_eips-AllActive_example :
    Meets
      (λ _. Unit)
      (ensure_nlbs_and_eips pool (pos 2))
      (λ b t. b ≡ true → AllActive pool 2 t)
      (λ _. Unit)
ensure_nlbs_and_eips-AllActive_example = ensure_nlbs_and_eips-AllActive pool (pos 2)
