-- ===== src/Pool/Teardown/Calls.antt =====
-- Which calls the parts of a pool's deletion make.
use alibaba_cloud_nlb_pool_o.Base.{String, true, false, List, [], ◌∷◌, none}
use alibaba_cloud_nlb_pool_o.Types.{Dict, Key, ObjectMeta, NlbPool, Nlb}
use alibaba_cloud_nlb_pool_o.World.{
  Call, Kind, allocations, delete, list_pas, list_nlbs, list_eips, list_server_groups,
  list_listeners, update_pool_status, load_balancer_exists,
}
use alibaba_cloud_nlb_pool_o.World.Only.{
  Only, Only-request, Only-pure, Only-bind, Only-if, Only-on_err, Only-on_none, Only-asks,
  only_rules,
}
use alibaba_cloud_nlb_pool_o.World.Requests.{request_rules}
use alibaba_cloud_nlb_pool_o.Pool.Confirmation.{has_cloud_nlbs, any_exists}
use alibaba_cloud_nlb_pool_o.Pool.Deletion.{
  controlled, owned_by, delete_child, delete_children, delete_controlled, delete_listeners,
  delete_server_groups, delete_eips, delete_nlbs, record_cloud_ids, delete_infrastructure,
  delete_port_allocations, has_port_allocations, has_child_resources,
}

-- the calls of hasCloudNLBs
pub any_exists-Only :
    (K : Call → Type 0) (ids : List String)
    → ((id : String) → K (load_balancer_exists id))
    → Only K (any_exists ids)
unfolding any_exists
any_exists-Only K [] k = Only-pure false
any_exists-Only K (id ∷ ids) k =
    Only-bind _ _ (Only-request (load_balancer_exists id) (k id)) λ resp.
      Only-on_err resp _ _ (λ e. Only-pure true)
        λ exists. Only-if exists _ _ (Only-pure true) (any_exists-Only K ids k)

pub has_cloud_nlbs-Only :
    (K : Call → Type 0) (pool : NlbPool)
    → ((id : String) → K (load_balancer_exists id))
    → ((p : NlbPool) → K (update_pool_status p))
    → Only K (has_cloud_nlbs pool)
unfolding has_cloud_nlbs
has_cloud_nlbs-Only K pool k l = search (only_rules, request_rules, any_exists-Only) depth 12

-- the calls of deletePortAllocations
pub delete_children-Only :
    (K : Call → Type 0) (kind : Kind) (what : String) (ms : List ObjectMeta)
    → ((key : Key) → K (delete kind key))
    → Only K (delete_children kind what ms)
unfolding delete_children delete_child
delete_children-Only K kind what [] k = Only-pure none
delete_children-Only K kind what (m ∷ ms) k =
    Only-bind _ _ (search (only_rules, request_rules) depth 10)
      λ failure. Only-on_none failure _ _ (delete_children-Only K kind what ms k) λ e. Only-pure _

pub delete_port_allocations-Only :
    (K : Call → Type 0) (pool : NlbPool)
    → ((ns : String) (sel : Dict) → K (list_pas ns sel))
    → ((key : Key) → K (delete allocations key))
    → Only K (delete_port_allocations pool)
unfolding delete_port_allocations
delete_port_allocations-Only K pool k l =
    search (only_rules, request_rules, delete_children-Only) depth 10

pub has_port_allocations-Only :
    (K : Call → Type 0) (pool : NlbPool)
    → ((ns : String) (sel : Dict) → K (list_pas ns sel))
    → Only K (has_port_allocations pool)
unfolding has_port_allocations
has_port_allocations-Only K pool k = search (only_rules, request_rules) depth 8

-- the calls of hasChildResources
pub has_child_resources-Only :
    (K : Call → Type 0) (pool : NlbPool)
    → ((ns : String) (sel : Dict) → K (list_pas ns sel))
    → ((ns : String) (sel : Dict) → K (list_nlbs ns sel))
    → ((ns : String) (sel : Dict) → K (list_server_groups ns sel))
    → ((ns : String) (sel : Dict) → K (list_listeners ns sel))
    → ((ns : String) (sel : Dict) → K (list_eips ns sel))
    → Only K (has_child_resources pool)
unfolding has_child_resources
has_child_resources-Only K pool k1 k2 k3 k4 k5 = search (only_rules, request_rules) depth 20

-- the calls of deleteInfrastructure
pub delete_controlled-Only :
    (K : Call → Type 0) (pool : NlbPool) (kind : Kind) (what : String) (ms : List ObjectMeta)
    → ((key : Key) → K (delete kind key))
    → Only K (delete_controlled pool kind what ms)
unfolding delete_controlled delete_child controlled
delete_controlled-Only K pool kind what [] k = Only-pure none
delete_controlled-Only K pool kind what (m ∷ ms) k = Only-bind _ _ (Only-asks _) λ mine.
    Only-bind _ _ (search (only_rules, request_rules) depth 12) λ failure.
      Only-on_none failure _ _ (delete_controlled-Only K pool kind what ms k) λ e. Only-pure _

pub owned_by-Only :
    (K : Call → Type 0) {A : Type 0} (pool : NlbPool) (metadata : A → ObjectMeta) (xs : List A)
    → Only K (owned_by pool metadata xs)
unfolding owned_by controlled
owned_by-Only K pool metadata [] = Only-pure []
owned_by-Only K pool metadata (x ∷ xs) =
    Only-bind _ _ (Only-asks _)
      λ mine. Only-bind _ _ (owned_by-Only K pool metadata xs) λ rest. Only-pure _

record_cloud_ids-Only :
    (K : Call → Type 0) (pool : NlbPool) (items : List Nlb)
    → ((p : NlbPool) → K (update_pool_status p))
    → Only K (record_cloud_ids pool items)
unfolding record_cloud_ids
record_cloud_ids-Only K pool items k = search (only_rules, request_rules, owned_by-Only) depth 14

-- what deleteInfrastructure needs of a predicate on calls
pub record ForInfrastructure (K : Call → Type 0) : Type 0 where
  pub lists_nlbs : (ns : String) (sel : Dict) → K (list_nlbs ns sel)
  pub lists_groups : (ns : String) (sel : Dict) → K (list_server_groups ns sel)
  pub lists_listeners : (ns : String) (sel : Dict) → K (list_listeners ns sel)
  pub lists_eips : (ns : String) (sel : Dict) → K (list_eips ns sel)
  pub deletes_nlb : (key : Key) → K (delete Kind.nlbs key)
  pub deletes_eip : (key : Key) → K (delete Kind.eips key)
  pub deletes_group : (key : Key) → K (delete Kind.server_groups key)
  pub deletes_listener : (key : Key) → K (delete Kind.listeners key)
  pub writes_status : (p : NlbPool) → K (update_pool_status p)

pub delete_infrastructure-Only :
    (K : Call → Type 0) (pool : NlbPool) → ForInfrastructure K → Only K (delete_infrastructure pool)
unfolding delete_infrastructure delete_listeners delete_server_groups delete_eips delete_nlbs
delete_infrastructure-Only K pool f =
    Only-bind _ _
      (search
        (only_rules, request_rules, delete_children-Only, f.lists_listeners, f.deletes_listener)
        depth 10)
      λ failure.
        Only-on_none failure _ _
          (Only-bind _ _
            (search
              (only_rules, request_rules, delete_children-Only, f.lists_groups, f.deletes_group)
              depth 10)
            λ failure.
              Only-on_none failure _ _
                (Only-bind _ _
                  (search
                    (only_rules, request_rules, delete_controlled-Only, f.lists_eips, f.deletes_eip)
                    depth 10)
                  λ failure.
                    Only-on_none failure _ _
                      (search
                        (
                          only_rules, request_rules, delete_controlled-Only, record_cloud_ids-Only,
                          f.lists_nlbs, f.deletes_nlb, f.writes_status,
                        )
                        depth 16)
                      λ e. Only-pure _)
                λ e. Only-pure _)
          λ e. Only-pure _
