-- ===== src/Pool/Confirmation.antt =====
-- hasCloudNLBs: the gate between the deletion of a pool's load balancers and of its allocations.
use alibaba_cloud_nlb_pool_o.Base.{
  String, Bool, true, false, List, [], ◌∷◌, All, is_empty, ◌≡◌, refl, inl, inr, if◌then◌else◌,
  arith,
}
use alibaba_cloud_nlb_pool_o.Types.{NlbPool}
use alibaba_cloud_nlb_pool_o.World.{
  load_balancer_exists, update_pool_status, Exchange, exchange, Trace, Result, ok, err, Proc, ◌>>=◌,
  pure, request, on_err, or_keep,
}
use alibaba_cloud_nlb_pool_o.World.Keeps.{Once}
use alibaba_cloud_nlb_pool_o.World.Only.{
  Only, Frame, Only-bind, Only-on_err, Only-if, Only-request, Only-pure,
}
use alibaba_cloud_nlb_pool_o.World.Meets.{
  Meets, Meets-pure, Meets-bind, Meets-if, Meets-weaken, Meets-map, Meets-also, Meets-Keeps,
}

-- the loop: a load balancer exists, or a call failed
unfoldable pub any_exists : List String → Proc Bool
any_exists [] = pure false
any_exists (id ∷ ids) = do
  resp ← request (load_balancer_exists id)
  on_err resp (λ e. pure true) λ exists. if exists then pure true else any_exists ids

abbrev pub without_cloud_ids : NlbPool → NlbPool
without_cloud_ids pool = record pool { status = record pool.status { cloud_nlb_ids = [] } }

-- hasCloudNLBs, with the pool that it leaves in memory
unfoldable pub has_cloud_nlbs : NlbPool → Proc (NlbPool × Bool)
unfolding any_exists
has_cloud_nlbs pool = if is_empty pool.status.cloud_nlb_ids then pure (pool, false) else do
  found ← any_exists pool.status.cloud_nlb_ids
  if found then pure (pool, true) else do
    written ← request (update_pool_status (without_cloud_ids pool))
    pure (or_keep (without_cloud_ids pool) written, false)

-- the cloud has answered that the load balancer `id` does not exist
abbrev pub SaysAbsent : String → Exchange → Type 0
SaysAbsent id (exchange (load_balancer_exists id') (ok false)) = id' ≡ id
SaysAbsent id _ = ⊥

abbrev pub Absent : Trace → String → Type 0
Absent t id = Once (SaysAbsent id) t

Absent-monotone : (id : String) → Frame (λ _. Unit) (λ t. Absent t id)
Absent-monotone id c r t k h = inr h

pub All-Absent : (ids : List String) → Frame (λ _. Unit) (λ t. All (Absent t) ids)
All-Absent [] c r t k h = tt
All-Absent (id ∷ ids) c r t k (h, hs) = (inr h, All-Absent ids c r t k hs)

any_exists-Anything : (ids : List String) → Only (λ _. Unit) (any_exists ids)
unfolding any_exists
any_exists-Anything [] = Only-pure false
any_exists-Anything (id ∷ ids) = Only-bind _ _ (Only-request (load_balancer_exists id) tt) λ resp.
    Only-on_err resp _ _ (λ e. Only-pure true)
      λ exists. Only-if exists _ _ (Only-pure true) (any_exists-Anything ids)

abbrev Answered : String → Result Bool → Trace → Type 0
Answered id (ok false) t = Absent t id
Answered id _ t = Unit

answered :
    (id : String) (r : Result Bool) (t : Trace)
    → Answered id r (exchange (load_balancer_exists id) r ∷ t)
answered id (ok false) t = inl refl
answered id (ok true) t = tt
answered id (err e) t = tt

ask :
    (id : String) → Meets (λ _. Unit) (request (load_balancer_exists id)) (Answered id) (λ _. Unit)
unfolding request
ask id = record { at = λ env t h. answered id (env.respond t (load_balancer_exists id)) t }

abbrev AllAbsent : List String → Bool → Trace → Type 0
AllAbsent ids b t = b ≡ false → All (Absent t) ids

decided :
    (id : String) (ids : List String) (exists : Bool)
    → Meets (λ _. Unit) (any_exists ids) (AllAbsent ids) (λ _. Unit)
    → Meets
        (Answered id (ok exists))
        (if exists then pure true else any_exists ids)
        (AllAbsent (id ∷ ids))
        (λ _. Unit)
decided id ids true k = Meets-pure true λ t h e. ground arith
decided id ids false k =
    Meets-map (λ b t h e. (h.1, h.0 e))
      (Meets-weaken (λ t h. (tt, h))
        (Meets-also k ((any_exists-Anything ids).keeps _ (Absent-monotone id))))

by_answer :
    (id : String) (ids : List String) (resp : Result Bool)
    → Meets (λ _. Unit) (any_exists ids) (AllAbsent ids) (λ _. Unit)
    → Meets
        (Answered id resp)
        (on_err resp (λ e. pure true) λ exists. if exists then pure true else any_exists ids)
        (AllAbsent (id ∷ ids))
        (λ _. Unit)
unfolding on_err
by_answer id ids (ok exists) k = decided id ids exists k
by_answer id ids (err e) k = Meets-pure true λ t h e. ground arith

any_exists-Absent :
    (ids : List String) → Meets (λ _. Unit) (any_exists ids) (AllAbsent ids) (λ _. Unit)
unfolding any_exists
any_exists-Absent [] = Meets-pure false λ t h e. tt
any_exists-Absent (id ∷ ids) =
    Meets-bind _ _ (ask id) λ resp. by_answer id ids resp (any_exists-Absent ids)

nothing_recorded : (ids : List String) (t : Trace) → is_empty ids ≡ true → All (Absent t) ids
nothing_recorded [] t e = tt
nothing_recorded (id ∷ ids) t e = ground arith

-- hasCloudNLBs answers no only when the cloud has answered for each load balancer recorded in the pool's
-- status that it does not exist; a failed call counts as a load balancer that exists.
pub has_cloud_nlbs-Confirmed :
    (pool : NlbPool)
    → Meets
        (λ _. Unit)
        (has_cloud_nlbs pool)
        (λ s t. s.1 ≡ false → All (λ id. Once (SaysAbsent id) t) pool.status.cloud_nlb_ids)
        (λ _. Unit)
unfolding has_cloud_nlbs
has_cloud_nlbs-Confirmed pool =
    Meets-if (is_empty pool.status.cloud_nlb_ids) _ _
      (λ e. Meets-pure _ λ t h f. nothing_recorded pool.status.cloud_nlb_ids t e)
      λ _. Meets-bind _ _ (any_exists-Absent pool.status.cloud_nlb_ids) λ found.
        Meets-if found _ _ (λ _. Meets-pure _ λ t h f. ground arith)
          λ e.
            Meets-weaken (λ t h. h e)
              (Meets-bind _ _
                (Meets-Keeps (λ t h. tt)
                  ((Only-request (update_pool_status (without_cloud_ids pool)) tt).keeps _
                    (All-Absent pool.status.cloud_nlb_ids)))
                λ written. Meets-pure _ λ t h f. h)
