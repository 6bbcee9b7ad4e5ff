-- ===== src/Pool/Health/Groups.antt =====
-- ensureNLBsAndEIPs: what the answer of its loops says of the load balancers.
use alibaba_cloud_nlb_pool_o.Base.{
  ℕ, zero, suc, Bool, true, List, [], ◌∷◌, ℤ, pos, pos_part, All, ◌≡◌, ◌<◌, sym, inl, inr, ◌⊎◌,
  ◌&&◌, ◌+◌, arith,
}
use mathlib.Core.Path.{subst}
use alibaba_cloud_nlb_pool_o.Types.{NlbPool, LaneConfig}
use alibaba_cloud_nlb_pool_o.World.{Trace, Proc, pure, for_each, ◌>>=◌}
use alibaba_cloud_nlb_pool_o.World.Only.{Only, Frame}
use alibaba_cloud_nlb_pool_o.World.Meets.{
  Meets, Meets-pure, Meets-bind, Meets-weaken, Meets-also, Meets-map,
}
use alibaba_cloud_nlb_pool_o.Pool.Infrastructure.{
  ensure_lane, ensure_infrastructure, ensure_nlbs_and_eips,
}
use alibaba_cloud_nlb_pool_o.Pool.Health.{
  SaysActive, Somewhere, nlb_key, ensure_lane-Only, ensure_lane-Active,
}

abbrev pub AllActive : NlbPool → ℕ → Trace → Type 0
AllActive pool count t =
    (group : ℕ)
    → group < count
    → All (λ lane. Somewhere (SaysActive (nlb_key pool group lane)) t) pool.spec.lanes

-- a predicate that no call makes false
abbrev Stable : (Trace → Type 0) → Type 0
Stable = Frame (λ _. Unit)

All-Stable :
    {A : Type 0} (P : A → Trace → Type 0) (xs : List A)
    → ((x : A) → Stable (P x))
    → Stable (λ t. All (λ x. P x t) xs)
All-Stable P [] k c r t u h = tt
All-Stable P (x ∷ xs) k c r t u h = (k x c r t u h.0, All-Stable P xs k c r t u h.1)

-- The body of a loop adds its own fact to `H`, and the loop keeps the fact of each element.
each_lane :
    (F : LaneConfig → Trace → Type 0) (body : LaneConfig → Proc Bool)
    → ((l : LaneConfig) → Stable (F l))
    → ((l : LaneConfig) → Only (λ _. Unit) (body l))
    → ((l : LaneConfig) → Meets (λ _. Unit) (body l) (λ b t. b ≡ true → F l t) (λ _. Unit))
    → (ls : List LaneConfig) (s : Bool) (H : Trace → Type 0) → Stable H
    → Meets
        (λ t. s ≡ true → H t)
        (for_each ls s λ l s. do ready ← body l; pure (ready && s))
        (λ b t. b ≡ true → H t × All (λ l. F l t) ls)
        (λ _. Unit)
unfolding for_each
each_lane F body stable only meets [] s H k = Meets-pure s λ t h e. (h e, tt)
each_lane F body stable only meets (l ∷ ls) s H k =
    Meets-bind _ _
      (Meets-bind _ _
        (Meets-weaken (λ t h. (tt, h))
          (Meets-also (meets l)
            ((only l).keeps (λ t. s ≡ true → H t) λ c r t u h e. k c r t u (h e))))
        λ ready.
          Meets-pure {Q = λ b t. b ≡ true → H t × F l t} (ready && s)
            λ t h e. (h.1 (right ready s e), h.0 (left ready s e)))
      λ s'.
        Meets-map (λ b t h e. ((h e).0.0, ((h e).0.1, (h e).1)))
          (each_lane F body stable only meets ls s' (λ t. H t × F l t)
            λ c r t u h. (k c r t u h.0, stable l c r t u h.1))
  where
    left : (b c : Bool) → b && c ≡ true → b ≡ true
    left b c e = ground arith

    right : (b c : Bool) → b && c ≡ true → c ≡ true
    right b c e = ground arith

one_more :
    (pool : NlbPool) (count : ℕ) (t : Trace)
    → AllActive pool count t
    → All (λ lane. Somewhere (SaysActive (nlb_key pool count lane)) t) pool.spec.lanes
    → AllActive pool (suc count) t
one_more pool count t h k group below = elim (last group count below) [
  | inl e ↦ h group e
  | inr e ↦
      subst (λ n. All (λ lane. Somewhere (SaysActive (nlb_key pool n lane)) t) pool.spec.lanes)
        (sym e) k
]
  where
    last : (group count : ℕ) → group < suc count → (group < count) ⊎ (group ≡ count)
    last group count below = ground arith

AllActive-Stable : (pool : NlbPool) (count : ℕ) → Stable (AllActive pool count)
AllActive-Stable pool count c r t u h g b =
    All-Stable (λ lane. Somewhere (SaysActive (nlb_key pool g lane))) pool.spec.lanes
      (λ l c r t u h. inr h) c r t u (h g b)

ensure_infrastructure-Active :
    (pool : NlbPool) (n count group : ℕ) (all_ready : Bool)
    → n ≡ count + group
    → Meets
        (λ t. all_ready ≡ true → AllActive pool group t)
        (ensure_infrastructure pool count group all_ready)
        (λ b t. b ≡ true → AllActive pool n t)
        (λ _. Unit)
unfolding ensure_infrastructure
ensure_infrastructure-Active pool n zero group all_ready e =
    Meets-pure all_ready λ t h b. subst (λ n. AllActive pool n t) (omega arith) (h b)
ensure_infrastructure-Active pool n (suc count) group all_ready e =
    Meets-bind _ _
      (each_lane (λ lane. Somewhere (SaysActive (nlb_key pool group lane)))
        (ensure_lane pool (pos group)) (λ l c r t u h. inr h) (ensure_lane-Only pool (pos group))
        (ensure_lane-Active pool group) pool.spec.lanes all_ready (AllActive pool group)
        (AllActive-Stable pool group))
      λ ready.
        Meets-weaken (λ t h e. one_more pool group t (h e).0 (h e).1)
          (ensure_infrastructure-Active pool n count (suc group) ready (omega arith))

-- Where ensureNLBsAndEIPs answers that all is ready, the server has said of the load balancer of each lane in
-- each desired group that it is Active: when it was read, or in the answer to the correction of the load
-- balancer that was read.
pub ensure_nlbs_and_eips-AllActive :
    (pool : NlbPool) (desired : ℤ)
    → Meets
        (λ _. Unit)
        (ensure_nlbs_and_eips pool desired)
        (λ b t. b ≡ true → AllActive pool (pos_part desired) t)
        (λ _. Unit)
unfolding ensure_nlbs_and_eips
ensure_nlbs_and_eips-AllActive pool desired =
    Meets-weaken (λ t h e g b. none_below g b)
      (ensure_infrastructure-Active pool (pos_part desired) (pos_part desired) 0 true (omega arith))
  where
    lt_zero : (g : ℕ) → g < 0 → ⊥
    lt_zero g b = omega arith

    none_below : {A : Type 0} (g : ℕ) → g < 0 → A
    none_below g b = elim (lt_zero g b) [ ]
