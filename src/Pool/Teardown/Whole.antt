-- ===== src/Pool/Teardown/Whole.antt =====
-- The reconcile of a pool from its first read: when it deletes an allocation.
use alibaba_cloud_nlb_pool_o.Base.{
  ℕ, zero, suc, String, Bool, false, List, [], ◌∷◌, ℤ, not, ◌≡◌, refl, inl, inr, ◌⊎◌, if◌then◌else◌,
}
use alibaba_cloud_nlb_pool_o.Types.{
  Key, NlbPool, PoolPhase, pool_phase_eq, pool_deleting, LaneConfig,
}
use alibaba_cloud_nlb_pool_o.World.{
  Call, Trace, Env, Proc, get_pool, done, update_pool_status, Exchange, exchange, Result, ok, err,
  GoError, Reply, Flow, next, exit, panic, running, continue, ◌>>=◌, request, on_err, finish, fail,
  is_not_found,
}
use alibaba_cloud_nlb_pool_o.World.Keeps.{Once}
use alibaba_cloud_nlb_pool_o.World.Only.{
  Only, Frame, Only-pure, Only-bind, Only-if, Only-asks, Only-exit_if, only_rules,
}
use alibaba_cloud_nlb_pool_o.World.Requests.{request_rules}
use alibaba_cloud_nlb_pool_o.World.Meets.{
  Preceded, After, Meets, Meets-if, Meets-pure, Meets-bind, Meets-request, Meets-on_err,
  Meets-finish,
}
use alibaba_cloud_nlb_pool_o.World.Within.{KeepsIn, KeepsIn-Keeps, KeepsIn-bind, KeepsIn-if}
use alibaba_cloud_nlb_pool_o.Pool.Deletion.{build_deletion_plan}
use alibaba_cloud_nlb_pool_o.Pool.Infrastructure.{
  own, accept_existing, create_missing_nlb, correct_drift, ensure_nlb, ensure_lane,
  ensure_infrastructure, ensure_nlbs_and_eips,
}
use alibaba_cloud_nlb_pool_o.Pool.Expansion.{
  slots_ready, create_slot, ensure_slot, ensure_slots, ensure_slot_resources,
}
use alibaba_cloud_nlb_pool_o.Pool.Status.{sync_pool_status, update_phase}
use alibaba_cloud_nlb_pool_o.Pool.Reconcile.{
  in_deleting, tear_down, report_plan, safety_gates, mark_pool_deleting, delete_pool,
  ensure_finalizer, await_infrastructure, provision_slots, provision_pool, maintain_pool,
  reconcile_pool,
}
use alibaba_cloud_nlb_pool_o.Pool.Readiness.{ensure_eips-Only}
use alibaba_cloud_nlb_pool_o.Pool.Teardown.Calls.{owned_by-Only}
use alibaba_cloud_nlb_pool_o.Pool.Teardown.Order.{DeletesAllocation, Avoids, Preceded-frame}
use alibaba_cloud_nlb_pool_o.Pool.Teardown.Recorded.{
  EchoesIds, Confirmed, Confirmed-monotone, tear_down-Guards,
}

-- a call that deletes no allocation
abbrev Spares : Call → Type 0
Spares = Avoids DeletesAllocation

safety_gates-Spares : (pool : NlbPool) → Only Spares (safety_gates pool)
unfolding safety_gates report_plan build_deletion_plan
safety_gates-Spares pool = search (only_rules, request_rules, owned_by-Only) depth 20

sync_pool_status-Spares : (pool : NlbPool) → Only Spares (sync_pool_status pool)
unfolding sync_pool_status
sync_pool_status-Spares pool = search (only_rules, request_rules) depth 16

update_phase-Spares :
    (pool : NlbPool) (phase : PoolPhase) (message : String)
    → Only Spares (update_phase pool phase message)
unfolding update_phase
update_phase-Spares pool phase message = search (only_rules, request_rules) depth 16

mark_pool_deleting-Spares : (pool : NlbPool) → Only Spares (mark_pool_deleting pool)
unfolding mark_pool_deleting
mark_pool_deleting-Spares pool = search (only_rules, request_rules) depth 12

ensure_finalizer-Spares : (pool : NlbPool) → Only Spares (ensure_finalizer pool)
unfolding ensure_finalizer
ensure_finalizer-Spares pool = search (only_rules, request_rules) depth 12

ensure_nlb-Spares :
    (pool : NlbPool) (lane : LaneConfig) (group_idx : ℤ) (ids : List String)
    → Only Spares (ensure_nlb pool lane group_idx ids)
unfolding ensure_nlb create_missing_nlb correct_drift own accept_existing
ensure_nlb-Spares pool lane group_idx ids = search (only_rules, request_rules) depth 24

ensure_lane-Spares :
    (pool : NlbPool) (group_idx : ℤ) (lane : LaneConfig)
    → Only Spares (ensure_lane pool group_idx lane)
unfolding ensure_lane
ensure_lane-Spares pool group_idx lane =
    Only-bind _ _
      (ensure_eips-Only Spares pool lane group_idx 0 pool.spec.zone_maps (λ k r d. d) (λ eip r d. d)
        (λ k e x r d. d))
      λ zones.
        Only-if (not zones.1) _ _ (Only-pure false) (ensure_nlb-Spares pool lane group_idx zones.0)

ensure_infrastructure-Spares :
    (pool : NlbPool) (count group : ℕ) (all_ready : Bool)
    → Only Spares (ensure_infrastructure pool count group all_ready)
unfolding ensure_infrastructure
ensure_infrastructure-Spares pool zero group all_ready = Only-pure all_ready
ensure_infrastructure-Spares pool (suc count) group all_ready =
    Only-bind _ _ (search (only_rules, ensure_lane-Spares) depth 10)
      λ ready. ensure_infrastructure-Spares pool count (suc group) ready

ensure_slot-Spares : (pool : NlbPool) (slot_idx : ℕ) → Only Spares (ensure_slot pool slot_idx)
unfolding ensure_slot create_slot own
ensure_slot-Spares pool slot_idx = search (only_rules, request_rules) depth 24

ensure_slots-Spares :
    (pool : NlbPool) (count slot_idx : ℕ) → Only Spares (ensure_slots pool count slot_idx)
unfolding ensure_slots
ensure_slots-Spares pool zero slot_idx = Only-pure tt
ensure_slots-Spares pool (suc count) slot_idx =
    Only-bind _ _ (ensure_slot-Spares pool slot_idx)
      λ _. ensure_slots-Spares pool count (suc slot_idx)

ensure_slot_resources-Spares :
    (pool : NlbPool) (desired : ℤ) → Only Spares (ensure_slot_resources pool desired)
unfolding ensure_slot_resources slots_ready
ensure_slot_resources-Spares pool desired =
    search (only_rules, request_rules, ensure_slots-Spares) depth 14

provision_pool-Spares : (pool : NlbPool) (desired : ℤ) → Only Spares (provision_pool pool desired)
unfolding provision_pool provision_slots await_infrastructure ensure_nlbs_and_eips
provision_pool-Spares pool desired =
    search
      (
        only_rules, ensure_infrastructure-Spares, ensure_slot_resources-Spares, update_phase-Spares,
        sync_pool_status-Spares,
      )
      depth 16

maintain_pool-Spares : (pool : NlbPool) → Only Spares (maintain_pool pool)
unfolding maintain_pool
maintain_pool-Spares pool =
    search (only_rules, ensure_finalizer-Spares, sync_pool_status-Spares, provision_pool-Spares)
      depth 14

-- the pool `p` was read under `key`
abbrev pub ReadsPool : Key → NlbPool → Exchange → Type 0
ReadsPool key p (exchange (get_pool k) r) = (k ≡ key) × (r ≡ ok p)
ReadsPool key p _ = ⊥

-- the server has answered with `p` to the write that turns `read` to Deleting
abbrev pub MarksDeleting : NlbPool → NlbPool → Exchange → Type 0
MarksDeleting read p (exchange (update_pool_status q) r) = (q ≡ in_deleting read) × (r ≡ ok p)
MarksDeleting read p _ = ⊥

-- The pool `p` is the one that was read under `key`, or what the server has made of it when it was turned to
-- Deleting.
abbrev pub Current : Key → NlbPool → Trace → Type 0
Current key p t =
    (read : NlbPool) × (Once (ReadsPool key read) t × ((p ≡ read) ⊎ Once (MarksDeleting read p) t))

Current-monotone : (key : Key) (p : NlbPool) → Frame (λ _. Unit) (Current key p)
Current-monotone key p c r t k (read, (h, inl e)) = (read, (inr h, inl e))
Current-monotone key p c r t k (read, (h, inr m)) = (read, (inr h, inr (inr m)))

mark_pool_deleting-Current :
    (key : Key) (read : NlbPool)
    → Meets (Once (ReadsPool key read)) (mark_pool_deleting read) (Current key) (λ _. Unit)
unfolding mark_pool_deleting
mark_pool_deleting-Current key read =
    Meets-if (pool_phase_eq read.status.phase pool_deleting) _ _
      (λ e. Meets-pure read λ t h. (read, (h, inl refl)))
      λ e.
        Meets-bind _ _
          (Meets-request (update_pool_status (in_deleting read))
            {Q = λ r t. (p : NlbPool) → r ≡ ok p → Current key p t}
            λ r t h p e. (read, (inr h, inr (inl (refl, e)))))
          λ written.
            Meets-on_err written _ _ (λ x e. Meets-finish _ λ t h. tt)
              λ p e. Meets-pure p λ t h. h p e

-- the load balancers of the current pool were confirmed
abbrev CurrentConfirmed : Env → Key → Trace → Type 0
CurrentConfirmed env key t = (p : NlbPool) × (Current key p t × Confirmed env p t)

CurrentConfirmed-monotone : (env : Env) (key : Key) → Frame (λ _. Unit) (CurrentConfirmed env key)
CurrentConfirmed-monotone env key c r t k (p, (h, g)) =
    (p, (Current-monotone key p c r t k h, Confirmed-monotone env p c r t k g))

module _ (env : Env) (key : Key) (read : NlbPool) where
  -- nothing was deleted without the confirmation, and the pool was read
  abbrev Held : Trace → Type 0
  Held t = Preceded DeletesAllocation (CurrentConfirmed env key) t × Once (ReadsPool key read) t

  spared : {A : Type 0} {m : Proc A} → Only Spares m → KeepsIn env Held m
  spared o = KeepsIn-Keeps (
      o.keeps _ λ c r t k h.
        (Preceded-frame DeletesAllocation (CurrentConfirmed env key) c r t k h.0, inr h.1))

  torn_down :
      EchoesIds env
      → (r : Flow NlbPool) (t : Trace) → After (Current key) (λ _. Unit) r t
      → Held t
      → Held (continue r tear_down env t).1
  torn_down echo (next p) t cur h =
      let kept =
        (tear_down-Guards env p (CurrentConfirmed env key)
            (λ t. Current key p t × Once (ReadsPool key read) t) echo
            (CurrentConfirmed-monotone env key)
            (λ c r t k h. (Current-monotone key p c r t k h.0, inr h.1))
            (λ t m g. (p, (m.0, g)))).at
          t (h.0, (cur, h.1)) in
      (kept.0, kept.1.1)
  torn_down echo (exit r) t cur h = h
  torn_down echo panic t cur h = h
  torn_down echo running t cur h = h

  marked_and_torn_down : EchoesIds env → KeepsIn env Held (mark_pool_deleting read >>= tear_down)
  unfolding ◌>>=◌
  marked_and_torn_down echo = record {
    at = λ t h.
        torn_down echo (mark_pool_deleting read env t).0 (mark_pool_deleting read env t).1
          ((mark_pool_deleting-Current key read).at env t h.1)
          ((spared (mark_pool_deleting-Spares read)).at t h);
  }

  delete_pool-Guards : EchoesIds env → KeepsIn env Held (delete_pool read)
  unfolding delete_pool
  delete_pool-Guards echo = KeepsIn-bind _ _ (spared (Only-asks _)) λ held.
      KeepsIn-bind _ _ (spared (Only-exit_if (not held) done))
        λ _. KeepsIn-bind _ _ (spared (safety_gates-Spares read)) λ _. marked_and_torn_down echo

after_read :
    (env : Env) (key : Key)
    → EchoesIds env
    → (r : Result NlbPool)
    → Preceded DeletesAllocation
        (CurrentConfirmed env key)
        (on_err r
          (λ e. if is_not_found e then finish done else finish (fail e))
          (λ pool. if pool.metadata.deleting then delete_pool pool else maintain_pool pool)
          env
          (exchange (get_pool key) r ∷ [])).1
unfolding on_err
after_read env key echo (ok pool) =
    ((KeepsIn-if pool.metadata.deleting _ _ (delete_pool-Guards env key pool echo)
        (spared env key pool (maintain_pool-Spares pool))).at
      (exchange (get_pool key) (ok pool) ∷ []) (((λ d. elim d [ ]), tt), inl (refl, refl))).0
after_read env key echo (err e) =
    ((replied e).keeps _ (Preceded-frame DeletesAllocation (CurrentConfirmed env key))).at env
      (exchange (get_pool key) (err e) ∷ []) ((λ d. elim d [ ]), tt)
  where
    replied :
        (e : GoError)
        → Only Spares {A = Reply} (if is_not_found e then finish done else finish (fail e))
    replied e = search (only_rules) depth 4

-- Where status updates of the pool keep the ids that they write, the reconcile of a pool deletes an
-- allocation only after a listing of the load balancers of a pool and the cloud's answer, for each that has
-- to be gone of it, that it does not exist: those that its status records, or else those of the listed
-- objects that it controls. That pool is the one that the reconcile has read under its key, or the server's
-- answer to the write that turned it to Deleting.
pub reconcile_pool-ConfirmsOwned :
    (env : Env) (key : Key)
    → EchoesIds env
    → Preceded DeletesAllocation
        (λ t. (p : NlbPool) × (Current key p t × Confirmed env p t))
        (reconcile_pool key env []).1
unfolding reconcile_pool ◌>>=◌ request
reconcile_pool-ConfirmsOwned env key echo = after_read env key echo (env.respond [] (get_pool key))
