-- ===== src/Pool/Teardown/Finalizer.antt =====
-- The end of a pool's deletion, in the whole reconcile: the removal of the finalizer.
use alibaba_cloud_nlb_pool_o.Base.{
  true, false, ◌∷◌, none, ◌≡◌, refl, ap, ◌∙◌, inl, not, Bool-cases, sym, inr, ◌==◌,
}
use mathlib.Core.Path.{subst}
use alibaba_cloud_nlb_pool_o.Types.{
  Key, ObjectMeta, lookup, annotation_deletion_protection, annotation_deletion_dry_run,
  finalizer_pool, NlbPool, pool_phase_eq, pool_deleting,
}
use alibaba_cloud_nlb_pool_o.World.{
  get_pool, update_pool, update_pool_status, Exchange, exchange, Trace, Env, ok, done, exit, ◌>>=◌,
  Reply, Flow, fail, retry_after, finish, request, asks, on_err, on_none,
}
use alibaba_cloud_nlb_pool_o.World.Keeps.{Once}
use alibaba_cloud_nlb_pool_o.World.Progress.{
  Gives, Concludes, Gives-pure, Gives-asks, Gives-request, Gives-bind, Gives-if, Gives-exit_if,
  Concludes-bind,
}
use alibaba_cloud_nlb_pool_o.Pool.Reconcile.{
  safety_gates, in_deleting, mark_pool_deleting, drop_pool_finalizer, finish_deletion, tear_down,
  delete_pool, reconcile_pool,
}
use alibaba_cloud_nlb_pool_o.Pool.Gates.{reconcile_pool_deleting}
use alibaba_cloud_nlb_pool_o.Pool.Teardown.Progress.{
  IsGone, delete_infrastructure-Gives, delete_port_allocations-Gives, has_cloud_nlbs-Gives,
  has_port_allocations-Gives, has_child_resources-Gives,
}

-- the pool with the metadata `m` is written without its finalizer
abbrev pub DropsFinalizer : Env → ObjectMeta → Exchange → Type 0
DropsFinalizer env m (exchange (update_pool p) r) =
    p.metadata ≡ env.remove_finalizer m finalizer_pool
DropsFinalizer env m _ = ⊥

module _ (env : Env) (gone : IsGone env) where
  abbrev without_finalizer : NlbPool → NlbPool
  without_finalizer pool = record pool {
    metadata = env.remove_finalizer pool.metadata finalizer_pool;
  }

  drop_pool_finalizer_lem :
      (pool : NlbPool) (t : Trace)
      → drop_pool_finalizer pool env t ≡ (
        exit done,
        exchange (update_pool (without_finalizer pool)) (ok (without_finalizer pool)) ∷ t,
      )
  unfolding drop_pool_finalizer ◌>>=◌ asks request on_err finish
  drop_pool_finalizer_lem pool t =
      ap
        (λ r.
          on_err r (λ e. finish (fail e)) (λ pool. finish done) env
            (exchange (update_pool (without_finalizer pool)) r ∷ t))
        (gone.takes_pool (without_finalizer pool) t)

  drop_pool_finalizer-Concludes :
      (m : ObjectMeta) (pool : NlbPool)
      → pool.metadata ≡ m
      → Concludes env done (Once (DropsFinalizer env m)) (drop_pool_finalizer pool)
  drop_pool_finalizer-Concludes m pool e = record {
    at = λ t.
        subst (λ (s : Flow Reply × Trace). (s.0 ≡ exit done) × Once (DropsFinalizer env m) s.1)
          (sym (drop_pool_finalizer_lem pool t))
          (refl, inl (ap (λ m. env.remove_finalizer m finalizer_pool) e));
  }

  finish_deletion-Concludes :
      (m : ObjectMeta) (pool : NlbPool)
      → pool.metadata ≡ m
      → Concludes env done (Once (DropsFinalizer env m)) (finish_deletion pool)
  unfolding finish_deletion on_none
  finish_deletion-Concludes m pool e =
      let (p, (same, clear)) = has_cloud_nlbs-Gives env gone pool in
      Concludes-bind _ _ (p, false) clear
        (Concludes-bind _ _ tt (Gives-exit_if false (retry_after 5) refl) (
          Concludes-bind _ _ none (delete_port_allocations-Gives env gone p) (
            Concludes-bind _ _ tt (Gives-pure tt) (
              Concludes-bind _ _ false (has_port_allocations-Gives env gone p) (
                Concludes-bind _ _ tt (Gives-exit_if false (retry_after 5) refl) (
                  Concludes-bind _ _ false (has_child_resources-Gives env gone p) (
                    Concludes-bind _ _ tt (Gives-exit_if false (retry_after 5) refl)
                      (drop_pool_finalizer-Concludes m p (same ∙ e)))))))))

  tear_down-Concludes :
      (m : ObjectMeta) (pool : NlbPool)
      → pool.metadata ≡ m
      → Concludes env done (Once (DropsFinalizer env m)) (tear_down pool)
  unfolding tear_down on_err
  tear_down-Concludes m pool e =
      Concludes-bind _ _ (ok pool) (delete_infrastructure-Gives env gone pool)
        (finish_deletion-Concludes m pool e)

  mark_pool_deleting-Gives :
      (pool : NlbPool)
      → (p : NlbPool) × ((p.metadata ≡ pool.metadata) × Gives env (mark_pool_deleting pool) p)
  unfolding mark_pool_deleting on_err
  mark_pool_deleting-Gives pool =
      elim (Bool-cases (pool_phase_eq pool.status.phase pool_deleting)) [
        | inl e ↦ (pool, (refl, Gives-if _ true _ _ _ e (Gives-pure pool)))
        | inr e ↦ (
          in_deleting pool,
          (
            refl,
            Gives-if _ false _ _ _ e (
                Gives-bind _ _ (ok (in_deleting pool)) _
                  (Gives-request (update_pool_status (in_deleting pool)) (ok (in_deleting pool))
                    (gone.takes_status (in_deleting pool)))
                  (Gives-pure _)),
          ),
        )
      ]

  safety_gates-Gives :
      (pool : NlbPool)
      → (lookup annotation_deletion_protection pool.metadata.annotations == "true") ≡ false
      → (lookup annotation_deletion_dry_run pool.metadata.annotations == "true") ≡ false
      → Gives env (safety_gates pool) tt
  unfolding safety_gates
  safety_gates-Gives pool e d =
      Gives-if _ false _ _ tt e (Gives-if _ false _ _ tt d (Gives-pure tt))

  delete_pool-Concludes :
      (pool : NlbPool)
      → env.contains_finalizer pool.metadata finalizer_pool ≡ true
      → (lookup annotation_deletion_protection pool.metadata.annotations == "true") ≡ false
      → (lookup annotation_deletion_dry_run pool.metadata.annotations == "true") ≡ false
      → Concludes env done (Once (DropsFinalizer env pool.metadata)) (delete_pool pool)
  unfolding delete_pool
  delete_pool-Concludes pool held e d =
      let (p, (same, marked)) = mark_pool_deleting-Gives pool in
      Concludes-bind _ _ (env.contains_finalizer pool.metadata finalizer_pool) (Gives-asks _) (
        Concludes-bind _ _ tt (Gives-exit_if _ done (ap not held)) (
          Concludes-bind _ _ tt (safety_gates-Gives pool e d)
            (Concludes-bind _ _ p marked (tear_down-Concludes pool.metadata p same))))

-- Where the pool that is read is being deleted with the controller's finalizer, neither protected nor in
-- a dry run, and nothing is left of it: every list is answered with no object, the cloud knows no load
-- balancer, and writes of the pool succeed with what was written; then the reconcile ends with the empty
-- result, and has written the pool with the finalizer removed from its metadata.
pub reconcile_pool-DropsFinalizer :
    (env : Env) (key : Key) (t : Trace) (pool : NlbPool)
    → IsGone env
    → env.respond t (get_pool key) ≡ ok pool
    → pool.metadata.deleting ≡ true
    → env.contains_finalizer pool.metadata finalizer_pool ≡ true
    → (lookup annotation_deletion_protection pool.metadata.annotations == "true") ≡ false
    → (lookup annotation_deletion_dry_run pool.metadata.annotations == "true") ≡ false
    → ((reconcile_pool key env t).0 ≡ exit done)
      × Once (DropsFinalizer env pool.metadata) (reconcile_pool key env t).1
reconcile_pool-DropsFinalizer env key t pool gone got deleting held e d =
    subst
      (λ (s : Flow Reply × Trace). (s.0 ≡ exit done) × Once (DropsFinalizer env pool.metadata) s.1)
      (sym (reconcile_pool_deleting env key t pool got deleting))
      ((delete_pool-Concludes env gone pool held e d).at (exchange (get_pool key) (ok pool) ∷ t))
