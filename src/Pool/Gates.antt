-- ===== src/Pool/Gates.antt =====
-- The safety gates of a pool's deletion: deletion protection and the dry run.
use alibaba_cloud_nlb_pool_o.Base.{
  String, Bool, true, false, List, [], ◌∷◌, ◌≡◌, sym, ◌∙◌, ap, inl, inr, ◌⊎◌, ◌==◌, not,
  if◌then◌else◌, arith,
}
use mathlib.Core.Path.{subst}
use alibaba_cloud_nlb_pool_o.Types.{
  Key, ObjectMeta, lookup, annotation_deletion_protection, annotation_deletion_dry_run,
  finalizer_pool, NlbPool,
}
use alibaba_cloud_nlb_pool_o.World.{
  Call, get_pool, Exchange, exchange, Trace, Env, GoError, ok, done, retry_after, exit, Proc, ◌>>=◌,
  request, asks, on_err,
}
use alibaba_cloud_nlb_pool_o.World.Keeps.{Each}
use alibaba_cloud_nlb_pool_o.World.Only.{Only, Only-pure, Only-bind, Only-asks, only_rules}
use alibaba_cloud_nlb_pool_o.World.Requests.{request_rules}
use alibaba_cloud_nlb_pool_o.World.Returns.{
  Returns, Returns-pure, Returns-bind, Returns-asks, Returns-eventf, Ends, Ends-bind, Ends-finish,
  bind_exit, past_exit, returns_rules,
}
use alibaba_cloud_nlb_pool_o.Pool.Deletion.{controlled, owned_by, build_deletion_plan}
use alibaba_cloud_nlb_pool_o.Pool.Reconcile.{
  report_plan, safety_gates, delete_pool, maintain_pool, reconcile_pool,
}

-- the calls that read from the API server, or record an event
abbrev pub IsRead : Call → Type 0
IsRead (Call.get_pool k) = Unit
IsRead (Call.list_pas ns sel) = Unit
IsRead (Call.list_nlbs ns sel) = Unit
IsRead (Call.list_eips ns sel) = Unit
IsRead (Call.list_server_groups ns sel) = Unit
IsRead (Call.list_listeners ns sel) = Unit
IsRead (Call.record_event k event_type reason) = Unit
IsRead _ = ⊥

abbrev pub Reads : Exchange → Type 0
Reads (exchange c r) = IsRead c

-- the pool is protected, or its deletion is a dry run
abbrev pub IsGated : NlbPool → Type 0
IsGated pool =
    (lookup annotation_deletion_protection pool.metadata.annotations ≡ "true")
    ⊎ (lookup annotation_deletion_dry_run pool.metadata.annotations ≡ "true")

owned_by-IsRead :
    {A : Type 0} (pool : NlbPool) (metadata : A → ObjectMeta) (xs : List A)
    → Only IsRead (owned_by pool metadata xs)
unfolding owned_by controlled
owned_by-IsRead pool metadata [] = Only-pure []
owned_by-IsRead pool metadata (x ∷ xs) =
    Only-bind _ _ (Only-asks _)
      λ mine. Only-bind _ _ (owned_by-IsRead pool metadata xs) λ rest. Only-pure _

owned_by-Returns :
    {A : Type 0} (pool : NlbPool) (metadata : A → ObjectMeta) (xs : List A)
    → Returns (owned_by pool metadata xs)
unfolding owned_by controlled
owned_by-Returns pool metadata [] = Returns-pure []
owned_by-Returns pool metadata (x ∷ xs) =
    Returns-bind _ _ (Returns-asks _)
      λ mine. Returns-bind _ _ (owned_by-Returns pool metadata xs) λ rest. Returns-pure _

build_deletion_plan-IsRead : (pool : NlbPool) → Only IsRead (build_deletion_plan pool)
unfolding build_deletion_plan
build_deletion_plan-IsRead pool = search (only_rules, request_rules, owned_by-IsRead) depth 20

build_deletion_plan-Returns : (pool : NlbPool) → Returns (build_deletion_plan pool)
unfolding build_deletion_plan
build_deletion_plan-Returns pool = search (returns_rules, owned_by-Returns) depth 20

report_plan-IsRead :
    (pool : NlbPool) (event_type reason : String) → Only IsRead (report_plan pool event_type reason)
unfolding report_plan
report_plan-IsRead pool event_type reason = search (only_rules, build_deletion_plan-IsRead) depth 8

report_plan-Ends :
    (pool : NlbPool) (event_type reason : String)
    → Ends (retry_after 30) (report_plan pool event_type reason)
unfolding report_plan
report_plan-Ends pool event_type reason =
    Ends-bind _ _ (build_deletion_plan-Returns pool)
      λ plan. Ends-bind _ _ (Returns-eventf pool.metadata event_type reason) λ _. Ends-finish _

-- What a gate does: it ends the reconcile, and only reads.
record Gate {A : Type 0} (m : Proc A) : Type 1 where
  reads : Only IsRead m
  ends : Ends (retry_after 30) m

two_gates :
    {A : Type 0} (a b : Bool) (m n rest : Proc A)
    → Gate m
    → Gate n
    → (a ≡ true) ⊎ (b ≡ true)
    → Gate (if a then m else if b then n else rest)
two_gates true b m n rest gm gn h = gm
two_gates false true m n rest gm gn h = gn
two_gates false false m n rest gm gn h = ground arith

report_plan-Gate :
    (pool : NlbPool) (event_type reason : String) → Gate (report_plan pool event_type reason)
report_plan-Gate pool event_type reason = record {
  reads = report_plan-IsRead pool event_type reason;
  ends = report_plan-Ends pool event_type reason;
}

IsGated-test :
    (pool : NlbPool)
    → IsGated pool
    → ((lookup annotation_deletion_protection pool.metadata.annotations == "true") ≡ true)
      ⊎ ((lookup annotation_deletion_dry_run pool.metadata.annotations == "true") ≡ true)
IsGated-test pool (inl e) = inl (ap (λ s. s == "true") e)
IsGated-test pool (inr e) = inr (ap (λ s. s == "true") e)

safety_gates-Gate : (pool : NlbPool) → IsGated pool → Gate (safety_gates pool)
unfolding safety_gates
safety_gates-Gate pool h =
    two_gates (lookup annotation_deletion_protection pool.metadata.annotations == "true")
      (lookup annotation_deletion_dry_run pool.metadata.annotations == "true") _ _ _
      (report_plan-Gate pool "Warning" "DeletionBlocked")
      (report_plan-Gate pool "Normal" "DeletionDryRun") (IsGated-test pool h)

delete_pool_gated :
    (pool : NlbPool)
    → IsGated pool
    → (env : Env) (t : Trace) → env.contains_finalizer pool.metadata finalizer_pool ≡ true
    → delete_pool pool env t ≡ (exit (retry_after 30), (safety_gates pool env t).1)
unfolding delete_pool ◌>>=◌ asks
delete_pool_gated pool h env t e =
    past_exit (not (env.contains_finalizer pool.metadata finalizer_pool)) done _ env t (ap not e)
    ∙ bind_exit (safety_gates pool) _ env t (retry_after 30)
        ((safety_gates-Gate pool h).ends.at env t)

pub read_ok :
    {A : Type 0} (key : Key) (f : GoError → Proc A) (g : NlbPool → Proc A) (env : Env) (t : Trace)
    (pool : NlbPool)
    → env.respond t (get_pool key) ≡ ok pool
    → (request (get_pool key) >>= λ got. on_err got f g) env t
      ≡ g pool env (exchange (get_pool key) (ok pool) ∷ t)
unfolding ◌>>=◌ request on_err
read_ok key f g env t pool e = ap (λ r. on_err r f g env (exchange (get_pool key) r ∷ t)) e

pub reconcile_pool_deleting :
    (env : Env) (key : Key) (t : Trace) (pool : NlbPool)
    → env.respond t (get_pool key) ≡ ok pool
    → pool.metadata.deleting ≡ true
    → reconcile_pool key env t ≡ delete_pool pool env (exchange (get_pool key) (ok pool) ∷ t)
unfolding reconcile_pool
reconcile_pool_deleting env key t pool e d =
    read_ok key _ _ env t pool e
    ∙ ap
        (λ b.
          (if b then delete_pool pool else maintain_pool pool) env
            (exchange (get_pool key) (ok pool) ∷ t))
        d

-- Where the pool that is read is being deleted with the controller's finalizer, and its annotations ask
-- for deletion protection or for a dry run, the reconcile makes no call but reads and events, and asks
-- for another round in 30 seconds.
pub reconcile_pool-Gated :
    (env : Env) (key : Key) (pool : NlbPool)
    → env.respond [] (get_pool key) ≡ ok pool
    → pool.metadata.deleting ≡ true
    → env.contains_finalizer pool.metadata finalizer_pool ≡ true
    → IsGated pool
    → Each Reads (reconcile_pool key env []).1
      × ((reconcile_pool key env []).0 ≡ exit (retry_after 30))
reconcile_pool-Gated env key pool e d f h =
    let t = exchange (get_pool key) (ok pool) ∷ [] in
    let ran = reconcile_pool_deleting env key [] pool e d ∙ delete_pool_gated pool h env t f in
    let read =
      ((safety_gates-Gate pool h).reads.keeps (Each Reads) (λ c r t k h. (k, h))).at env t
        (tt, tt) in
    (subst (λ s. Each Reads s.1) (sym ran) read, ap (λ s. s.0) ran)
