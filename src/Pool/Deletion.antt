-- ===== src/Pool/Deletion.antt =====
-- The deletion of a pool: the plan that the safety gates report, the deletion of the child objects, and
-- the tests for what is left. The text of the plan goes into an event, whose message is not kept: what
-- the plan counts is kept here as a record.
use alibaba_cloud_nlb_pool_o.Base.{
  ℕ, String, Bool, true, List, [], ◌∷◌, Option, none, some, length, is_empty, map, not, ◌<>◌, ◌==◌,
  if◌then◌else◌,
}
use alibaba_cloud_nlb_pool_o.Types.{Dict, ObjectMeta, label_pool, NlbPool, Nlb}
use alibaba_cloud_nlb_pool_o.World.{
  Kind, allocations, nlbs, eips, server_groups, listeners, list_pas, list_nlbs, list_eips,
  list_server_groups, list_listeners, delete, update_pool_status, GoError, wrapped, is_not_found,
  Result, ok, err, Proc, ◌>>=◌, pure, request, asks, on_err, on_none, key_of,
}

-- `client.MatchingLabels{LabelPool: pool.Name}`
abbrev pub pool_selector : NlbPool → Dict
pool_selector pool = (label_pool, pool.metadata.name) ∷ []

-- `metav1.IsControlledBy(obj, pool)`
unfoldable pub controlled : NlbPool → ObjectMeta → Proc Bool
controlled pool m = asks (λ env. env.is_controlled_by m pool.metadata)

-- the items of a list that could be read: `if err := r.List(…); err == nil { … }`
abbrev pub items_of : {A : Type 0} → Result (List A) → List A
items_of (ok xs) = xs
items_of (err e) = []

pub record DeletionPlan : Type 0 where
  pub nlb_count : ℕ
  pub eip_count : ℕ
  pub sg_count : ℕ
  pub lsn_count : ℕ
  pub pa_count : ℕ
  pub cloud_nlb_ids : List String

-- the objects that the pool controls
unfoldable pub owned_by : {A : Type 0} → NlbPool → (A → ObjectMeta) → List A → Proc (List A)
unfolding controlled
owned_by pool metadata [] = pure []
owned_by pool metadata (x ∷ xs) = do
  mine ← controlled pool (metadata x)
  rest ← owned_by pool metadata xs
  pure (if mine then x ∷ rest else rest)

-- the ids of the load balancers that the cloud has created
unfoldable pub cloud_ids : List Nlb → List String
cloud_ids [] = []
cloud_ids (nlb ∷ rest) =
    let ids = cloud_ids rest in
    if not (nlb.status.load_balancer_id == "") then nlb.status.load_balancer_id ∷ ids else ids

-- buildDeletionPlan
unfoldable pub build_deletion_plan : NlbPool → Proc DeletionPlan
unfolding owned_by cloud_ids
build_deletion_plan pool = do
  nlb_list ← request (list_nlbs pool.metadata.namespace (pool_selector pool))
  own_nlbs ← owned_by pool (λ nlb. nlb.metadata) (items_of nlb_list)
  eip_list ← request (list_eips pool.metadata.namespace (pool_selector pool))
  own_eips ← owned_by pool (λ eip. eip.metadata) (items_of eip_list)
  sg_list ← request (list_server_groups pool.metadata.namespace (pool_selector pool))
  lsn_list ← request (list_listeners pool.metadata.namespace (pool_selector pool))
  pa_list ← request (list_pas pool.metadata.namespace (pool_selector pool))
  pure (record {
    nlb_count = length own_nlbs;
    eip_count = length own_eips;
    sg_count = length (items_of sg_list);
    lsn_count = length (items_of lsn_list);
    pa_count = length (items_of pa_list);
    cloud_nlb_ids = cloud_ids own_nlbs;
  })

-- the body of a deletion loop: an object that is being deleted is skipped, one that is gone is no error
unfoldable pub delete_child : Kind → String → ObjectMeta → Proc (Option GoError)
delete_child kind what m = if m.deleting then pure none else do
  failure ← request (delete kind (key_of m))
  on_none failure (pure none) λ e.
      if is_not_found e
      then pure none
      else pure (some (wrapped ("delete " <> what <> " " <> m.name) e))

-- a deletion loop; `some` is the error that ends it
unfoldable pub delete_children : Kind → String → List ObjectMeta → Proc (Option GoError)
unfolding delete_child
delete_children kind what [] = pure none
delete_children kind what (m ∷ ms) = do
  failure ← delete_child kind what m
  on_none failure (delete_children kind what ms) λ e. pure (some e)

-- the same loop over objects of which the pool may control some: the others are skipped
unfoldable pub delete_controlled : NlbPool → Kind → String → List ObjectMeta → Proc (Option GoError)
unfolding delete_child controlled
delete_controlled pool kind what [] = pure none
delete_controlled pool kind what (m ∷ ms) = do
  mine ← controlled pool m
  failure ← if mine then delete_child kind what m else pure none
  on_none failure (delete_controlled pool kind what ms) λ e. pure (some e)

-- the listeners of the pool, then the server groups, then its EIPs
unfoldable pub delete_listeners : NlbPool → Proc (Option GoError)
unfolding delete_children
delete_listeners pool = do
  listed ← request (list_listeners pool.metadata.namespace (pool_selector pool))
  on_err listed (λ e. pure (some (wrapped "list Listeners" e)))
      λ items. delete_children listeners "Listener" items

unfoldable pub delete_server_groups : NlbPool → Proc (Option GoError)
unfolding delete_children
delete_server_groups pool = do
  listed ← request (list_server_groups pool.metadata.namespace (pool_selector pool))
  on_err listed (λ e. pure (some (wrapped "list ServerGroups" e)))
      λ items. delete_children server_groups "ServerGroup" items

unfoldable pub delete_eips : NlbPool → Proc (Option GoError)
unfolding delete_controlled
delete_eips pool = do
  listed ← request (list_eips pool.metadata.namespace (pool_selector pool))
  on_err listed (λ e. pure (some (wrapped "list EIPs" e)))
      λ items. delete_controlled pool eips "EIP" (map (λ eip. eip.metadata) items)

-- deletePortAllocations
unfoldable pub delete_port_allocations : NlbPool → Proc (Option GoError)
unfolding delete_children
delete_port_allocations pool = do
  listed ← request (list_pas pool.metadata.namespace (pool_selector pool))
  on_err listed (λ e. pure (some (wrapped "list PortAllocations" e)))
      λ items. delete_children allocations "PortAllocation" (map (λ pa. pa.metadata) items)

abbrev pub with_cloud_ids : List String → NlbPool → NlbPool
with_cloud_ids ids pool = record pool { status = record pool.status { cloud_nlb_ids = ids } }

-- the ids are recorded in the status where there are none yet, and there are some to record
unfoldable pub record_cloud_ids : NlbPool → List Nlb → Proc (Result NlbPool)
unfolding owned_by cloud_ids
record_cloud_ids pool items =
    if not (is_empty pool.status.cloud_nlb_ids) then pure (ok pool) else do
      mine ← owned_by pool (λ nlb. nlb.metadata) items
      if is_empty (cloud_ids mine) then pure (ok pool) else do
        written ← request (update_pool_status (with_cloud_ids (cloud_ids mine) pool))
        on_err written (λ e. pure (err (wrapped "persist CloudNLBIds" e))) λ pool. pure (ok pool)

-- the last part of deleteInfrastructure, with the pool that it leaves in memory
unfoldable pub delete_nlbs : NlbPool → Proc (Result NlbPool)
unfolding record_cloud_ids delete_controlled
delete_nlbs pool = do
  listed ← request (list_nlbs pool.metadata.namespace (pool_selector pool))
  on_err listed (λ e. pure (err (wrapped "list NLBs" e)))
      λ items. do
        recorded ← record_cloud_ids pool items
        on_err recorded (λ e. pure (err e))
            λ pool. do
              failure ← delete_controlled pool nlbs "NLB" (map (λ nlb. nlb.metadata) items)
              on_none failure (pure (ok pool)) λ e. pure (err e)

-- deleteInfrastructure
unfoldable pub delete_infrastructure : NlbPool → Proc (Result NlbPool)
unfolding delete_listeners delete_server_groups delete_eips delete_nlbs
delete_infrastructure pool = do
  failure ← delete_listeners pool
  on_none failure
      (do
        failure ← delete_server_groups pool
        on_none failure
            (do failure ← delete_eips pool; on_none failure (delete_nlbs pool) λ e. pure (err e))
            λ e. pure (err e))
      λ e. pure (err e)

-- `err == nil && len(list.Items) > 0`
abbrev pub some_listed : {A : Type 0} → Result (List A) → Bool
some_listed listed = not (is_empty (items_of listed))

-- hasPortAllocations
unfoldable pub has_port_allocations : NlbPool → Proc Bool
has_port_allocations pool = do
  listed ← request (list_pas pool.metadata.namespace (pool_selector pool))
  pure (some_listed listed)

-- hasChildResources
unfoldable pub has_child_resources : NlbPool → Proc Bool
has_child_resources pool = do
  pa_list ← request (list_pas pool.metadata.namespace (pool_selector pool))
  if some_listed pa_list then pure true else do
    nlb_list ← request (list_nlbs pool.metadata.namespace (pool_selector pool))
    if some_listed nlb_list then pure true else do
      sg_list ← request (list_server_groups pool.metadata.namespace (pool_selector pool))
      if some_listed sg_list then pure true else do
        lsn_list ← request (list_listeners pool.metadata.namespace (pool_selector pool))
        if some_listed lsn_list then pure true else do
          eip_list ← request (list_eips pool.metadata.namespace (pool_selector pool))
          pure (some_listed eip_list)
