-- ===== src/Pool/Counting.antt =====
-- syncPoolStatus: the counters, and the size that computeDesiredNLBs takes from them.
use alibaba_cloud_nlb_pool_o.Base.{
  ℕ, suc, Bool, true, false, List, [], ◌∷◌, some, ℤ, pos, add32, add32_pos, wrap32_pos, length,
  refl, sym, inl, inr, ◌⊎◌, count, ◌≡◌, ap, ◌∙◌, ◌+◌, ◌*◌, ◌/◌, ◌^◌, ◌<◌, ◌≤◌, arith, if◌then◌else◌,
}
use alibaba_cloud_nlb_pool_o.Types.{
  NlbPool, PoolStatus, PortAllocation, PaPhase, is_available, is_bound,
}
use mathlib.Core.Path.{subst}
use alibaba_cloud_nlb_pool_o.World.{
  list_pas, get_pool, update_pool_status, Exchange, exchange, Trace, Env, GoError, Result, ok, err,
  Flow, next, Proc, ◌>>=◌, pure, request, on_err, or_keep,
}
use alibaba_cloud_nlb_pool_o.World.Keeps.{Once, Each}
use alibaba_cloud_nlb_pool_o.Pool.Deletion.{pool_selector}
use alibaba_cloud_nlb_pool_o.Allocation.Slots.{int32_of}
use alibaba_cloud_nlb_pool_o.Pool.Infrastructure.{in_namespace}
use alibaba_cloud_nlb_pool_o.Pool.Sizing.{compute_desired_nlbs, IsDesired, compute_desired_nlbs_lem}
use alibaba_cloud_nlb_pool_o.Pool.Status.{tally, synced, sync_pool_status}

-- the allocations in a phase
abbrev pub available_in : List PortAllocation → ℕ
available_in pas = count (λ pa. is_available pa.status.phase) pas

abbrev pub bound_in : List PortAllocation → ℕ
bound_in pas = count (λ pa. is_bound pa.status.phase) pas

one_more :
    (b : Bool) (n : ℕ)
    → n + 1 < 2 ^ 31
    → (if b then add32 (pos n) (pos 1) else pos n) ≡ pos ((if b then 1 else 0) + n)
one_more true n h = add32_pos n 1 h ∙ ap pos (omega arith)
one_more false n h = ap pos (omega arith)

at_most_one : (b : Bool) → (if b then 1 else 0) ≤ 1
at_most_one b = ground arith

paired : {x x' y y' : ℤ} → x ≡ x' → y ≡ y' → ◌≡◌ {A = ℤ × ℤ} (x, y) (x', y')
paired p q = cc

tally_lem :
    (pas : List PortAllocation) (a b : ℕ)
    → a + length pas < 2 ^ 31
    → b + length pas < 2 ^ 31
    → tally pas (pos a, pos b) ≡ (pos (available_in pas + a), pos (bound_in pas + b))
unfolding tally
tally_lem [] a b ha hb = paired (ap pos (omega arith)) (ap pos (omega arith))
tally_lem (pa ∷ pas) a b ha hb =
    let x = is_available pa.status.phase in
    let y = is_bound pa.status.phase in
    ap (tally pas) (paired (one_more x a (omega arith)) (one_more y b (omega arith)))
    ∙ tally_lem pas ((if x then 1 else 0) + a) ((if y then 1 else 0) + b)
        (omega (arith, at_most_one x)) (omega (arith, at_most_one y))
    ∙ paired (ap pos (omega arith)) (ap pos (omega arith))

exclusive :
    (phase : PaPhase)
    → (if is_available phase then 1 else 0) + (if is_bound phase then 1 else 0) ≤ 1
exclusive phase = ground arith

pub disjoint : (pas : List PortAllocation) → available_in pas + bound_in pas ≤ length pas
disjoint [] = omega arith
disjoint (pa ∷ pas) = omega (arith, disjoint pas, exclusive pa.status.phase)

-- an update of the pool's status answers with the status that it was sent
abbrev pub KeepsStatus : Env → Type 0
KeepsStatus env =
    (t : Trace) (p p' : NlbPool)
    → env.respond t (update_pool_status p) ≡ ok p'
    → p'.status ≡ p.status

-- the read of the allocations or of the pool has failed
abbrev pub ReadFails : Exchange → Type 0
ReadFails (exchange (list_pas ns sel) r) = (e : GoError) × (r ≡ err e)
ReadFails (exchange (get_pool key) r) = (e : GoError) × (r ≡ err e)
ReadFails _ = ⊥

-- a call that writes nothing
abbrev pub Unwritten : Exchange → Type 0
Unwritten (exchange (list_pas ns sel) r) = Unit
Unwritten (exchange (get_pool key) r) = Unit
Unwritten _ = ⊥

-- the allocations of the pool were listed as `pas`
abbrev pub ListsAllocations : NlbPool → List PortAllocation → Exchange → Type 0
ListsAllocations pool pas (exchange (list_pas ns sel) r) =
    (ns ≡ pool.metadata.namespace) × ((sel ≡ pool_selector pool) × (r ≡ ok pas))
ListsAllocations pool pas _ = ⊥

-- a status is sent with the counts of `pas`
abbrev pub WritesCounts : List PortAllocation → Exchange → Type 0
WritesCounts pas (exchange (update_pool_status p) r) =
    (p.status.total_slots ≡ pos (length pas))
    × ((p.status.available_slots ≡ pos (available_in pas))
        × (p.status.bound_slots ≡ pos (bound_in pas)))
WritesCounts pas _ = ⊥

-- computeDesiredNLBs answers for `p` what is desired for the counts of `pas`
abbrev pub Desired : List PortAllocation → ℕ → ℕ → NlbPool → Type 0
Desired pas k m p =
    (d : ℕ) × (compute_desired_nlbs p ≡ some (pos d))
    × IsDesired (suc k) (suc k * m) (length pas / suc k) (available_in pas) (bound_in pas) d

-- what syncPoolStatus comes to
abbrev pub Outcome : NlbPool → ℕ → ℕ → Flow NlbPool × Trace → Type 0
Outcome pool k m s =
    (p : NlbPool) × ((s.0 ≡ next p)
      × (((p ≡ pool) × (Once ReadFails s.1 × Each Unwritten s.1))
          ⊎ ((pas : List PortAllocation) × (Once (ListsAllocations pool pas) s.1
                × (Once (WritesCounts pas) s.1 × Desired pas k m p)))))

-- The status that syncPoolStatus writes counts the allocations that were listed, fewer than 2^31: all of
-- them, the available ones and the bound ones, of which no allocation is both.
pub synced_lem :
    (pool : NlbPool) (pas : List PortAllocation) (status : PoolStatus)
    → length pas < 2 ^ 31
    → ((synced pool pas status).total_slots ≡ pos (length pas))
      × ((synced pool pas status).available_slots ≡ pos (available_in pas))
      × ((synced pool pas status).bound_slots ≡ pos (bound_in pas))
      × (available_in pas + bound_in pas ≤ length pas)
unfolding synced int32_of
synced_lem pool pas status h =
    let counted = tally_lem pas 0 0 (omega arith) (omega arith) in
    (
      wrap32_pos (length pas) h,
      ap (λ s. s.0) counted ∙ ap pos (omega arith),
      ap (λ s. s.1) counted ∙ ap pos (omega arith),
      disjoint pas,
    )

synced-IsDesired :
    (pool : NlbPool) (pas : List PortAllocation) (old new : PoolStatus) (k m : ℕ)
    → new ≡ synced pool pas old
    → pool.spec.slots_per_nlb ≡ pos (suc k)
    → pool.spec.min_available_nlbs ≡ pos m
    → length pas + suc k * m + suc k < 2 ^ 31
    → Desired pas k m (record pool { status = new })
synced-IsDesired pool pas old new k m e es em h =
    let (t, a, b, le) = synced_lem pool pas old (omega arith) in
    subst (λ status. Desired pas k m (record pool { status = status })) (sym e)
      (compute_desired_nlbs_lem (record pool { status = synced pool pas old }) k m (length pas)
        (available_in pas) (bound_in pas) es em t a b (omega arith) (omega arith))

-- the case of an answer, with what it is
by_answer :
    {A B : Type 0} (P : Flow B × Trace → Type 0) (r : Result A) (f : GoError → Proc B)
    (g : A → Proc B) (env : Env) (t : Trace)
    → ((e : GoError) → r ≡ err e → P (f e env t))
    → ((a : A) → r ≡ ok a → P (g a env t))
    → P (on_err r f g env t)
unfolding on_err
by_answer P (ok a) f g env t kf kg = kg a refl
by_answer P (err e) f g env t kf kg = kf e refl

kept_status :
    (counted : NlbPool) (r : Result NlbPool)
    → ((p : NlbPool) → r ≡ ok p → p.status ≡ counted.status)
    → (or_keep counted r).status ≡ counted.status
kept_status counted (ok p) k = k p refl
kept_status counted (err e) k = refl

-- From an empty trace, syncPoolStatus returns, and in one of two ways. Either one of its reads has failed: then
-- the pool in memory is as it was, and nothing was written. Or the allocations of the pool were listed: then a
-- status was written that counts all, the available and the bound ones, and computeDesiredNLBs takes from the
-- pool in memory a number of load balancers for each lane that is desired for these counts. This is for an
-- environment that keeps the status that it is sent, slots of a load balancer that are not zero, and numbers
-- that fit; the write itself may fail.
pub sync_pool_status-Outcome :
    (env : Env) (pool : NlbPool) (k m : ℕ)
    → KeepsStatus env
    → pool.spec.slots_per_nlb ≡ pos (suc k)
    → pool.spec.min_available_nlbs ≡ pos m
    → ((pas : List PortAllocation)
        → env.respond [] (list_pas pool.metadata.namespace (pool_selector pool)) ≡ ok pas
        → length pas + suc k * m + suc k < 2 ^ 31)
    → Outcome pool k m (sync_pool_status pool env [])
unfolding sync_pool_status ◌>>=◌ request pure
sync_pool_status-Outcome env pool k m keeps es em fits =
    by_answer (Outcome pool k m)
      (env.respond [] (list_pas pool.metadata.namespace (pool_selector pool))) _ _ env _
      (λ e p. (pool, (refl, inl (refl, (inl (e, p), (tt, tt))))))
      λ pas p.
        by_answer (Outcome pool k m) _ _ _ env _
          (λ e q. (pool, (refl, inl (refl, (inl (e, q), (tt, (tt, tt)))))))
          λ fresh q.
            let small = fits pas p in
            let (total, avail, bound, le) =
              synced_lem pool pas fresh.status (omega (arith, small)) in
            (
              _,
              (
                refl,
                inr (
                  pas,
                  (
                    inr (inr (inl (refl, (refl, p)))),
                    (
                      inl (total, (avail, bound)),
                      synced-IsDesired pool pas fresh.status _ k m
                          (kept_status (record fresh { status = synced pool pas fresh.status })
                            (env.respond read_both (
                              update_pool_status
                                (record fresh { status = synced pool pas fresh.status })))
                            (keeps read_both
                              (record fresh { status = synced pool pas fresh.status })))
                          es em small,
                    ),
                  ),
                ),
              ),
            )
  where
    read_pas : Trace
    read_pas =
        let c = list_pas pool.metadata.namespace (pool_selector pool) in
        exchange c (env.respond [] c) ∷ []

    read_both : Trace
    read_both =
        let c = get_pool (in_namespace pool pool.metadata.name) in
        exchange c (env.respond read_pas c) ∷ read_pas
