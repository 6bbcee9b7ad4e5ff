-- ===== src/Pool/Teardown/Order.antt =====
-- Phases 2 and 3 of a pool's deletion: what comes before the deletion of an allocation, and before the
-- update that drops the finalizer.
use alibaba_cloud_nlb_pool_o.Base.{All}
use alibaba_cloud_nlb_pool_o.Types.{NlbPool}
use alibaba_cloud_nlb_pool_o.World.{
  Call, Response, allocations, delete, update_pool, Exchange, exchange, Trace, Proc,
}
use alibaba_cloud_nlb_pool_o.World.Keeps.{Keeps}
use alibaba_cloud_nlb_pool_o.World.Only.{Only, Frame, only_rules}
use alibaba_cloud_nlb_pool_o.World.Requests.{request_rules}
use alibaba_cloud_nlb_pool_o.World.Meets.{
  Meets, Meets-bind, Meets-weaken, Meets-map, Meets-Keeps, Meets-exit_if, Keeps-then, Preceded,
}
use alibaba_cloud_nlb_pool_o.Pool.Confirmation.{Absent, has_cloud_nlbs-Confirmed, All-Absent}
use alibaba_cloud_nlb_pool_o.Pool.Reconcile.{drop_pool_finalizer, finish_deletion}
use alibaba_cloud_nlb_pool_o.Pool.Teardown.Calls.{
  has_cloud_nlbs-Only, delete_port_allocations-Only, has_port_allocations-Only,
  has_child_resources-Only,
}
use alibaba_cloud_nlb_pool_o.Pool.Teardown.Children.{Childless}

-- an allocation is deleted
abbrev pub DeletesAllocation : Exchange → Type 0
DeletesAllocation (exchange (delete allocations k) r) = Unit
DeletesAllocation _ = ⊥

-- the pool is replaced
abbrev pub UpdatesPool : Exchange → Type 0
UpdatesPool (exchange (update_pool pool) r) = Unit
UpdatesPool _ = ⊥

tail-Anything : (pool : NlbPool) → Only (λ _. Unit) (drop_pool_finalizer pool)
unfolding drop_pool_finalizer
tail-Anything pool = search (only_rules, request_rules) depth 8

-- a call that is not a `D`, whatever its answer
abbrev pub Avoids : (Exchange → Type 0) → Call → Type 0
Avoids D c = (r : Response c) → D (exchange c r) → ⊥

pub Preceded-frame : (D : Exchange → Type 0) (H : Trace → Type 0) → Frame (Avoids D) (Preceded D H)
Preceded-frame D H c r t k h = (λ d. elim (k r d) [ ], h)

-- The same with another fact `M` that goes on to hold.
cleared_with :
    {A : Type 0} (D : Exchange → Type 0) (H M : Trace → Type 0) {m : Proc A}
    → Frame (λ _. Unit) H
    → Frame (λ _. Unit) M
    → Only (λ _. Unit) m
    → Meets
        (λ t. (Preceded D H t × H t) × M t)
        m
        (λ _ t. Preceded D H t × M t)
        (λ t. Preceded D H t × M t)
cleared_with D H M fh fm anything =
    Meets-map (λ a t h. (h.0.0, h.1))
      (Meets-Keeps (λ t h. (h.0.0, h.1))
        (anything.keeps _ λ c r t k h. (((λ d. h.0.1, h.0.0), fh c r t tt h.0.1), fm c r t tt h.1)))

-- What the cloud's answers and a fact `M` that goes on to hold give, holds before each deletion.
pub finish_deletion-Guards :
    (pool : NlbPool) (H M : Trace → Type 0)
    → Frame (λ _. Unit) H
    → Frame (λ _. Unit) M
    → ((t : Trace) → M t → All (Absent t) pool.status.cloud_nlb_ids → H t)
    → Keeps (λ t. Preceded DeletesAllocation H t × M t) (finish_deletion pool)
unfolding finish_deletion
finish_deletion-Guards pool H M fh fm k =
    Keeps-then _ _
      ((has_cloud_nlbs-Only (Avoids DeletesAllocation) pool (λ id r d. d) (λ p r d. d)).keeps _
        λ c r t a h. (Preceded-frame DeletesAllocation H c r t a h.0, fm c r t tt h.1))
      (has_cloud_nlbs-Confirmed pool)
      λ cloud. Meets-bind _ _ (Meets-exit_if cloud.1 _ λ t h. h.0) λ _.
        Meets-weaken (λ t h. ((h.0.0.0, k t h.0.0.1 (h.0.1 h.1)), h.0.0.1))
          (cleared_with DeletesAllocation H M fh fm (
            search
              (
                only_rules, request_rules, delete_port_allocations-Only, has_port_allocations-Only,
                has_child_resources-Only, tail-Anything,
              )
              depth 14))

-- Phases 2 and 3 delete an allocation only after the cloud has answered for each load balancer that the
-- pool's status records that it does not exist.
pub finish_deletion-ConfirmsFirst :
    (pool : NlbPool)
    → Keeps
        (Preceded DeletesAllocation λ t. All (Absent t) pool.status.cloud_nlb_ids)
        (finish_deletion pool)
finish_deletion-ConfirmsFirst pool = record {
  at = λ env t h.
      ((finish_deletion-Guards pool _ (λ _. Unit) (All-Absent pool.status.cloud_nlb_ids)
          (λ c r t a h. tt) (λ t m h. h)).at
        env t (h, tt)).0;
}

abbrev SomeChildless : Trace → Type 0
SomeChildless t = (p : NlbPool) × Childless p t
