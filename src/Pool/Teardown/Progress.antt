-- ===== src/Pool/Teardown/Progress.antt =====
-- The deletion of a pool of which nothing is left: what each phase comes to.
use alibaba_cloud_nlb_pool_o.Base.{
  String, true, false, List, [], ◌∷◌, none, ◌≡◌, refl, inl, is_empty, not, Bool-cases, inr,
}
use alibaba_cloud_nlb_pool_o.Types.{Dict, NlbPool}
use alibaba_cloud_nlb_pool_o.World.{
  list_pas, list_nlbs, list_eips, list_server_groups, list_listeners, update_pool,
  update_pool_status, load_balancer_exists, Trace, Env, ok, on_err, on_none,
}
use alibaba_cloud_nlb_pool_o.World.Progress.{Gives, Gives-pure, Gives-request, Gives-bind, Gives-if}
use alibaba_cloud_nlb_pool_o.Pool.Confirmation.{any_exists, has_cloud_nlbs, without_cloud_ids}
use alibaba_cloud_nlb_pool_o.Pool.Deletion.{
  owned_by, cloud_ids, delete_children, delete_controlled, delete_listeners, delete_server_groups,
  delete_eips, record_cloud_ids, delete_nlbs, delete_infrastructure, delete_port_allocations,
  pool_selector, has_port_allocations, has_child_resources,
}

-- nothing is left of the pool, in the API server and in the cloud, and writes succeed
pub record IsGone (env : Env) : Type 0 where
  pub no_allocations :
      (ns : String) (sel : Dict) (t : Trace) → env.respond t (list_pas ns sel) ≡ ok []
  pub no_nlbs : (ns : String) (sel : Dict) (t : Trace) → env.respond t (list_nlbs ns sel) ≡ ok []
  pub no_eips : (ns : String) (sel : Dict) (t : Trace) → env.respond t (list_eips ns sel) ≡ ok []
  pub no_groups :
      (ns : String) (sel : Dict) (t : Trace) → env.respond t (list_server_groups ns sel) ≡ ok []
  pub no_listeners :
      (ns : String) (sel : Dict) (t : Trace) → env.respond t (list_listeners ns sel) ≡ ok []
  pub no_cloud : (id : String) (t : Trace) → env.respond t (load_balancer_exists id) ≡ ok false
  pub takes_status : (p : NlbPool) (t : Trace) → env.respond t (update_pool_status p) ≡ ok p
  pub takes_pool : (p : NlbPool) (t : Trace) → env.respond t (update_pool p) ≡ ok p

module _ (env : Env) (gone : IsGone env) where
  delete_listeners-Gives : (pool : NlbPool) → Gives env (delete_listeners pool) none
  unfolding delete_listeners on_err delete_children
  delete_listeners-Gives pool =
      Gives-bind _ _ (ok []) none
        (Gives-request (list_listeners pool.metadata.namespace (pool_selector pool)) (ok [])
          (gone.no_listeners pool.metadata.namespace (pool_selector pool)))
        (Gives-pure none)

  delete_server_groups-Gives : (pool : NlbPool) → Gives env (delete_server_groups pool) none
  unfolding delete_server_groups on_err delete_children
  delete_server_groups-Gives pool =
      Gives-bind _ _ (ok []) none
        (Gives-request (list_server_groups pool.metadata.namespace (pool_selector pool)) (ok [])
          (gone.no_groups pool.metadata.namespace (pool_selector pool)))
        (Gives-pure none)

  delete_eips-Gives : (pool : NlbPool) → Gives env (delete_eips pool) none
  unfolding delete_eips on_err delete_controlled
  delete_eips-Gives pool =
      Gives-bind _ _ (ok []) none
        (Gives-request (list_eips pool.metadata.namespace (pool_selector pool)) (ok [])
          (gone.no_eips pool.metadata.namespace (pool_selector pool)))
        (Gives-pure none)

  pub delete_port_allocations-Gives :
      (pool : NlbPool) → Gives env (delete_port_allocations pool) none
  unfolding delete_port_allocations on_err delete_children
  delete_port_allocations-Gives pool =
      Gives-bind _ _ (ok []) none
        (Gives-request (list_pas pool.metadata.namespace (pool_selector pool)) (ok [])
          (gone.no_allocations pool.metadata.namespace (pool_selector pool)))
        (Gives-pure none)

  record_cloud_ids-Gives : (pool : NlbPool) → Gives env (record_cloud_ids pool []) (ok pool)
  unfolding record_cloud_ids owned_by cloud_ids
  record_cloud_ids-Gives pool = elim (Bool-cases (not (is_empty pool.status.cloud_nlb_ids))) [
    | inl e ↦ Gives-if _ true _ _ _ e (Gives-pure (ok pool))
    | inr e ↦
        Gives-if _ false _ _ _ e
          (Gives-bind _ _ [] (ok pool) (Gives-pure []) (Gives-pure (ok pool)))
  ]

  delete_nlbs-Gives : (pool : NlbPool) → Gives env (delete_nlbs pool) (ok pool)
  unfolding delete_nlbs on_err on_none delete_controlled
  delete_nlbs-Gives pool =
      Gives-bind _ _ (ok []) (ok pool)
        (Gives-request (list_nlbs pool.metadata.namespace (pool_selector pool)) (ok [])
          (gone.no_nlbs pool.metadata.namespace (pool_selector pool)))
        (Gives-bind _ _ (ok pool) (ok pool) (record_cloud_ids-Gives pool)
          (Gives-bind _ _ none (ok pool) (Gives-pure none) (Gives-pure (ok pool))))

  pub delete_infrastructure-Gives :
      (pool : NlbPool) → Gives env (delete_infrastructure pool) (ok pool)
  unfolding delete_infrastructure on_none
  delete_infrastructure-Gives pool = Gives-bind _ _ none (ok pool) (delete_listeners-Gives pool) (
      Gives-bind _ _ none (ok pool) (delete_server_groups-Gives pool)
        (Gives-bind _ _ none (ok pool) (delete_eips-Gives pool) (delete_nlbs-Gives pool)))

  any_exists-Gives : (ids : List String) → Gives env (any_exists ids) false
  unfolding any_exists on_err
  any_exists-Gives [] = Gives-pure false
  any_exists-Gives (id ∷ ids) =
      Gives-bind _ _ (ok false) false
        (Gives-request (load_balancer_exists id) (ok false) (gone.no_cloud id))
        (any_exists-Gives ids)

  pub has_cloud_nlbs-Gives :
      (pool : NlbPool)
      → (p : NlbPool) × ((p.metadata ≡ pool.metadata) × Gives env (has_cloud_nlbs pool) (p, false))
  unfolding has_cloud_nlbs
  has_cloud_nlbs-Gives pool = elim (Bool-cases (is_empty pool.status.cloud_nlb_ids)) [
    | inl e ↦ (pool, (refl, Gives-if _ true _ _ _ e (Gives-pure (pool, false))))
    | inr e ↦ (
      without_cloud_ids pool,
      (
        refl,
        Gives-if _ false _ _ _ e (
            Gives-bind _ _ false _ (any_exists-Gives pool.status.cloud_nlb_ids) (
              Gives-bind _ _ (ok (without_cloud_ids pool)) _
                (Gives-request (update_pool_status (without_cloud_ids pool))
                  (ok (without_cloud_ids pool)) (gone.takes_status (without_cloud_ids pool)))
                (Gives-pure _))),
      ),
    )
  ]

  pub has_port_allocations-Gives : (pool : NlbPool) → Gives env (has_port_allocations pool) false
  unfolding has_port_allocations
  has_port_allocations-Gives pool =
      let ns = pool.metadata.namespace in
      let sel = pool_selector pool in
      Gives-bind _ _ (ok []) false
        (Gives-request (list_pas ns sel) (ok []) (gone.no_allocations ns sel)) (Gives-pure false)

  pub has_child_resources-Gives : (pool : NlbPool) → Gives env (has_child_resources pool) false
  unfolding has_child_resources
  has_child_resources-Gives pool =
      let ns = pool.metadata.namespace in
      let sel = pool_selector pool in
      Gives-bind _ _ (ok []) false
        (Gives-request (list_pas ns sel) (ok []) (gone.no_allocations ns sel))
        (Gives-bind _ _ (ok []) false
          (Gives-request (list_nlbs ns sel) (ok []) (gone.no_nlbs ns sel))
          (Gives-bind _ _ (ok []) false
            (Gives-request (list_server_groups ns sel) (ok []) (gone.no_groups ns sel))
            (Gives-bind _ _ (ok []) false
              (Gives-request (list_listeners ns sel) (ok []) (gone.no_listeners ns sel))
              (Gives-bind _ _ (ok []) false
                (Gives-request (list_eips ns sel) (ok []) (gone.no_eips ns sel))
                (Gives-pure false)))))
