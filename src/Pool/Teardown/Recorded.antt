-- ===== src/Pool/Teardown/Recorded.antt =====
-- deleteInfrastructure with hasCloudNLBs and deletePortAllocations: the load balancers whose absence is
-- confirmed before an allocation is deleted.
use alibaba_cloud_nlb_pool_o.Base.{
  String, Bool, true, false, List, [], ◌∷◌, All, ◌≡◌, refl, sym, ap, ◌∙◌, inl, inr, select,
  is_empty, not, arith, if◌then◌else◌,
}
use mathlib.Core.Path.{subst}
use alibaba_cloud_nlb_pool_o.Types.{ObjectMeta, NlbPool, Nlb}
use alibaba_cloud_nlb_pool_o.World.{
  Kind, list_nlbs, update_pool_status, Exchange, exchange, Trace, Env, Result, ok, err,
  retry_after_failure, Flow, next, exit, panic, running, continue, ◌>>=◌, pure, finish, asks,
  on_err,
}
use alibaba_cloud_nlb_pool_o.World.Keeps.{Once}
use alibaba_cloud_nlb_pool_o.World.Only.{Frame}
use alibaba_cloud_nlb_pool_o.World.Meets.{After, Meets-Keeps, Meets-nothing, Preceded}
use alibaba_cloud_nlb_pool_o.World.Within.{
  Within, Within-Meets, Within-pure, Within-if, Within-request, Within-bind, Within-on_err,
  Within-on_none, Within-weaken, KeepsIn,
}
use alibaba_cloud_nlb_pool_o.Pool.Confirmation.{Absent, All-Absent}
use alibaba_cloud_nlb_pool_o.Pool.Deletion.{
  pool_selector, controlled, owned_by, cloud_ids, record_cloud_ids, delete_nlbs,
  delete_infrastructure, with_cloud_ids,
}
use alibaba_cloud_nlb_pool_o.Pool.Reconcile.{finish_deletion, tear_down}
use alibaba_cloud_nlb_pool_o.Pool.Teardown.Calls.{
  delete_controlled-Only, ForInfrastructure, delete_infrastructure-Only,
}
use alibaba_cloud_nlb_pool_o.Pool.Teardown.Order.{
  DeletesAllocation, Avoids, Preceded-frame, finish_deletion-Guards,
}

-- an update of the pool's status keeps the ids that it writes
abbrev pub EchoesIds : Env → Type 0
EchoesIds env =
    (t : Trace) (p p' : NlbPool)
    → env.respond t (update_pool_status p) ≡ ok p'
    → p'.status.cloud_nlb_ids ≡ p.status.cloud_nlb_ids

-- The load balancers that have to be gone: those that the status records, or else those of the listed
-- objects that the pool controls.
abbrev pub required : Env → NlbPool → List Nlb → List String
required env pool items =
    if not (is_empty pool.status.cloud_nlb_ids)
    then pool.status.cloud_nlb_ids
    else cloud_ids (select (λ nlb. env.is_controlled_by nlb.metadata pool.metadata) items)

-- the pool's load balancer objects were listed as `items`
abbrev pub Lists : NlbPool → List Nlb → Exchange → Type 0
Lists pool items (exchange (list_nlbs ns sel) r) =
    (ns ≡ pool.metadata.namespace) × (sel ≡ pool_selector pool) × (r ≡ ok items)
Lists pool items _ = ⊥

owned_by_lem :
    (env : Env) {A : Type 0} (pool : NlbPool) (metadata : A → ObjectMeta) (xs : List A) (t : Trace)
    → owned_by pool metadata xs env t
      ≡ (next (select (λ x. env.is_controlled_by (metadata x) pool.metadata) xs), t)
unfolding owned_by controlled ◌>>=◌ asks pure
owned_by_lem env pool metadata [] t = refl
owned_by_lem env {A} pool metadata (x ∷ xs) t =
    ap
      (λ s.
        continue {A = List A} s.0
          (λ rest.
            pure (if env.is_controlled_by (metadata x) pool.metadata then x ∷ rest else rest))
          env s.1)
      (owned_by_lem env pool metadata xs t)

owned_by-Within :
    (env : Env) {A : Type 0} (R : Trace → Type 0) (pool : NlbPool) (metadata : A → ObjectMeta)
    (xs : List A)
    → Within env R
        (owned_by pool metadata xs)
        (λ ys t. R t × (ys ≡ select (λ x. env.is_controlled_by (metadata x) pool.metadata) xs))
owned_by-Within env {A} R pool metadata xs = record {
  at = λ t h.
      subst
        (λ (s : Flow (List A) × Trace).
          After
            (λ ys t. R t × (ys ≡ select (λ x. env.is_controlled_by (metadata x) pool.metadata) xs))
            (λ _. Unit) s.0 s.1)
        (sym (owned_by_lem env pool metadata xs t)) (h, refl);
}

-- the pool that a step leaves has the ids `ids`
abbrev HasIds : (Trace → Type 0) → List String → Result NlbPool → Trace → Type 0
HasIds R ids (ok p) t = R t × (p.status.cloud_nlb_ids ≡ ids)
HasIds R ids (err e) t = Unit

abbrev mine_of : Env → NlbPool → List Nlb → List Nlb
mine_of env pool items = select (λ nlb. env.is_controlled_by nlb.metadata pool.metadata) items

same_choice : {A : Type 0} (b : Bool) (x y : A) → b ≡ true → x ≡ (if b then x else y)
same_choice b x y e = ap (λ c. if c then x else y) (sym e)

other_choice : {A : Type 0} (b : Bool) (x y : A) → b ≡ false → y ≡ (if b then x else y)
other_choice b x y e = ap (λ c. if c then x else y) (sym e)

both_empty :
    {A : Type 0} (xs ys : List A) → not (is_empty xs) ≡ false → is_empty ys ≡ true → xs ≡ ys
both_empty [] [] e f = refl
both_empty [] (y ∷ ys) e f = ground arith
both_empty (x ∷ xs) ys e f = ground arith

record_cloud_ids-Within :
    (env : Env) (R : Trace → Type 0)
    → EchoesIds env
    → Frame (λ _. Unit) R
    → (pool : NlbPool) (items : List Nlb)
    → Within env R (record_cloud_ids pool items) (HasIds R (required env pool items))
unfolding record_cloud_ids
record_cloud_ids-Within env R echo frame pool items =
    let ids = pool.status.cloud_nlb_ids in
    let found = cloud_ids (mine_of env pool items) in
    Within-if (not (is_empty ids)) _ _
      (λ e. Within-pure (ok pool) λ t h. (h, same_choice (not (is_empty ids)) ids found e))
      λ e. Within-bind _ _ (owned_by-Within env R pool _ items) λ mine.
        Within-if (is_empty (cloud_ids mine)) _ _
          (λ f. Within-pure (ok pool) λ t h. (
            h.0,
            both_empty ids (cloud_ids mine) e f
                ∙ ap cloud_ids h.1
                ∙ other_choice (not (is_empty ids)) ids found e,
          ))
          λ f.
            Within-bind _ _
              (Within-request (update_pool_status (with_cloud_ids (cloud_ids mine) pool))
                {Q = λ r t.
                  (R t × (mine ≡ mine_of env pool items))
                  × ((p : NlbPool) → r ≡ ok p → p.status.cloud_nlb_ids ≡ cloud_ids mine)}
                λ t h. ((frame _ _ t tt h.0, h.1), λ p g. echo t _ p g))
              λ written.
                Within-on_err written _ _ (λ x g. Within-pure _ λ t h. tt)
                  λ p g. Within-pure (ok p) λ t h. (
                    h.0.0,
                    h.1 p g ∙ ap cloud_ids h.0.1 ∙ other_choice (not (is_empty ids)) ids found e,
                  )

-- the listing that the deletion of the load balancers goes by, and the ids that it leaves
abbrev Settled : Env → NlbPool → Result NlbPool → Trace → Type 0
Settled env pool (ok p) t =
    (items : List Nlb) × Once (Lists pool items) t
    × (p.status.cloud_nlb_ids ≡ required env pool items)
Settled env pool (err e) t = Unit

listed_as :
    (pool : NlbPool) (r : Result (List Nlb)) (t : Trace) (items : List Nlb)
    → r ≡ ok items
    → Once
        (Lists pool items)
        (exchange (list_nlbs pool.metadata.namespace (pool_selector pool)) r ∷ t)
listed_as pool r t items e = inl (refl, refl, e)

Settled-monotone :
    (env : Env) (pool : NlbPool) (r : Result NlbPool) → Frame (λ _. Unit) (Settled env pool r)
Settled-monotone env pool (ok p) c r t k (items, l, e) = (items, inr l, e)
Settled-monotone env pool (err e) c r t k h = tt

settle :
    (env : Env) (pool : NlbPool) (items : List Nlb) (r : Result NlbPool) (t : Trace)
    → HasIds (Once (Lists pool items)) (required env pool items) r t
    → Settled env pool r t
settle env pool items (ok p) t h = (items, h.0, h.1)
settle env pool items (err e) t h = tt

delete_nlbs-Settled :
    (env : Env)
    → EchoesIds env
    → (pool : NlbPool) → Within env (λ _. Unit) (delete_nlbs pool) (Settled env pool)
unfolding delete_nlbs
delete_nlbs-Settled env echo pool =
    Within-bind _ _
      (Within-request (list_nlbs pool.metadata.namespace (pool_selector pool))
        {Q = λ r t. (items : List Nlb) → r ≡ ok items → Once (Lists pool items) t}
        λ t h items e. listed_as pool _ t items e)
      λ listed.
        Within-on_err listed _ _ (λ x e. Within-pure _ λ t h. tt)
          λ items e.
            Within-bind _ _
              (Within-weaken (λ t h. h items e)
                (record_cloud_ids-Within env (Once (Lists pool items)) echo (λ c r t k h. inr h)
                  pool items))
              λ recorded.
                Within-on_err recorded _ _ (λ x f. Within-pure _ λ t h. tt)
                  λ p f.
                    Within-bind _ _
                      (Within-weaken
                        (λ t h.
                          subst (λ r. Settled env pool r t) f (settle env pool items recorded t h))
                        (Within-Meets (
                          Meets-Keeps (λ t h. tt)
                            ((delete_controlled-Only (λ _. Unit) p Kind.nlbs "NLB" _
                                (λ key. tt)).keeps
                              _ (Settled-monotone env pool (ok p))))))
                      λ failure.
                        Within-on_none failure _ _ (λ g. Within-pure (ok p) λ t h. h)
                          λ x g. Within-pure _ λ t h. tt

delete_infrastructure-Settled :
    (env : Env)
    → EchoesIds env
    → (pool : NlbPool) → Within env (λ _. Unit) (delete_infrastructure pool) (Settled env pool)
unfolding delete_infrastructure
delete_infrastructure-Settled env echo pool =
    Within-bind _ _ (Within-Meets (Meets-nothing _)) λ failure.
      Within-on_none failure _ _
        (λ e. Within-bind _ _ (Within-Meets (Meets-nothing _)) λ failure.
          Within-on_none failure _ _
            (λ e. Within-bind _ _ (Within-Meets (Meets-nothing _)) λ failure.
              Within-on_none failure _ _ (λ e. delete_nlbs-Settled env echo pool)
                λ x e. Within-pure _ λ t h. tt)
            λ x e. Within-pure _ λ t h. tt)
        λ x e. Within-pure _ λ t h. tt

-- The pool's load balancers were listed, and the cloud has answered for each that has to be gone that it
-- does not exist.
abbrev pub Confirmed : Env → NlbPool → Trace → Type 0
Confirmed env pool t =
    (items : List Nlb) × Once (Lists pool items) t × All (Absent t) (required env pool items)

pub Confirmed-monotone : (env : Env) (pool : NlbPool) → Frame (λ _. Unit) (Confirmed env pool)
Confirmed-monotone env pool c r t k (items, l, h) =
    (items, inr l, All-Absent (required env pool items) c r t tt h)

-- `H` held before each deletion of an allocation, and `M` holds
abbrev pub GuardedWith : (Trace → Type 0) → (Trace → Type 0) → Trace → Type 0
GuardedWith H M t = Preceded DeletesAllocation H t × M t

continue-Confirmed :
    (env : Env) (pool : NlbPool) (H M : Trace → Type 0) (r : Flow (Result NlbPool)) (t : Trace)
    → Frame (λ _. Unit) H
    → Frame (λ _. Unit) M
    → ((t : Trace) → M t → Confirmed env pool t → H t)
    → After (Settled env pool) (λ _. Unit) r t
    → GuardedWith H M t
    → GuardedWith H M
        (continue r
          (λ left. on_err left (λ e. finish (retry_after_failure 5 e)) finish_deletion)
          env
          t).1
unfolding on_err finish
continue-Confirmed env pool H M (next (ok p)) t fh fm give (items, l, e) k =
    let kept =
      (finish_deletion-Guards p H (λ t. Once (Lists pool items) t × M t) fh
          (λ c r t a h. (inr h.0, fm c r t a h.1))
          (λ t m h. give t m.1 (items, m.0, subst (λ ids. All (Absent t) ids) e h))).at
        env t (k.0, (l, k.1)) in
    (kept.0, kept.1.1)
continue-Confirmed env pool H M (next (err e)) t fh fm give h k = k
continue-Confirmed env pool H M (exit r) t fh fm give h k = k
continue-Confirmed env pool H M panic t fh fm give h k = k
continue-Confirmed env pool H M running t fh fm give h k = k

infrastructure-Avoids : ForInfrastructure (Avoids DeletesAllocation)
infrastructure-Avoids = record {
  lists_nlbs = λ ns sel r d. d;
  lists_groups = λ ns sel r d. d;
  lists_listeners = λ ns sel r d. d;
  lists_eips = λ ns sel r d. d;
  deletes_nlb = λ key r d. d;
  deletes_eip = λ key r d. d;
  deletes_group = λ key r d. d;
  deletes_listener = λ key r d. d;
  writes_status = λ p r d. d;
}

-- What the confirmation gives, with a fact `M` that goes on to hold, holds before each deletion of an
-- allocation.
pub tear_down-Guards :
    (env : Env) (pool : NlbPool) (H M : Trace → Type 0)
    → EchoesIds env
    → Frame (λ _. Unit) H
    → Frame (λ _. Unit) M
    → ((t : Trace) → M t → Confirmed env pool t → H t)
    → KeepsIn env (GuardedWith H M) (tear_down pool)
unfolding tear_down ◌>>=◌
tear_down-Guards env pool H M echo fh fm give = record {
  at = λ t k.
      let ran = delete_infrastructure pool env t in
      continue-Confirmed env pool H M ran.0 ran.1 fh fm give
        ((delete_infrastructure-Settled env echo pool).at t tt)
        (((delete_infrastructure-Only (Avoids DeletesAllocation) pool infrastructure-Avoids).keeps
            (GuardedWith H M)
            λ c r t a h. (Preceded-frame DeletesAllocation H c r t a h.0, fm c r t tt h.1)).at
          env t k);
}

-- Where status updates of the pool keep the ids that they write, the deletion of a pool deletes an
-- allocation only after the pool's load balancers were listed and the cloud has answered that each of
-- these does not exist: those that the status records, or else those of the listed objects that the pool
-- controls.
pub tear_down-ConfirmsOwned :
    (env : Env) (pool : NlbPool) (t : Trace)
    → EchoesIds env
    → Preceded DeletesAllocation (Confirmed env pool) t
    → Preceded DeletesAllocation (Confirmed env pool) (tear_down pool env t).1
tear_down-ConfirmsOwned env pool t echo k =
    ((tear_down-Guards env pool (Confirmed env pool) (λ _. Unit) echo (Confirmed-monotone env pool)
        (λ c r t a h. tt) (λ t m h. h)).at
      t (k, tt)).0
