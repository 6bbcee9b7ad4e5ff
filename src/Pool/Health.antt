-- ===== src/Pool/Health.antt =====
-- ensure_lane: what its answer says of a load balancer. Groups has the loops over the lanes and groups.
pub mod Groups
use alibaba_cloud_nlb_pool_o.Base.{
  ℕ, zero, suc, String, Bool, true, false, List, [], ◌∷◌, ℤ, pos, pos_part, All, ◌≡◌, ◌<◌, refl,
  sym, inl, inr, ◌⊎◌, not, ◌==◌, ◌&&◌, ◌+◌, arith,
}
use mathlib.Core.Path.{subst}
use alibaba_cloud_nlb_pool_o.Types.{Key, NlbPool, LaneConfig, Nlb}
use alibaba_cloud_nlb_pool_o.World.{
  get_nlb, update_nlb, Exchange, exchange, Trace, is_not_found, ok, Proc, pure, eventf, for_each,
  ◌>>=◌,
}
use alibaba_cloud_nlb_pool_o.World.Keeps.{Once}
use alibaba_cloud_nlb_pool_o.World.Only.{Only, Frame, Only-bind, only_rules}
use alibaba_cloud_nlb_pool_o.World.Requests.{request_rules}
use alibaba_cloud_nlb_pool_o.World.Meets.{
  Meets, Meets-pure, Meets-bind, Meets-if, Meets-on_err, Meets-weaken, Meets-also, Meets-request,
  Meets-Keeps, Meets-finish, Meets-map, Meets-nothing,
}
use alibaba_cloud_nlb_pool_o.Allocation.Slots.{nlb_name_for_group}
use alibaba_cloud_nlb_pool_o.Pool.Infrastructure.{
  need_update, realigned, in_namespace, own, accept_existing, create_missing_nlb, correct_drift,
  ensure_nlb, ensure_lane, ensure_infrastructure, ensure_nlbs_and_eips,
}
use alibaba_cloud_nlb_pool_o.Pool.Readiness.{ensure_eips-Only}

abbrev pub IsActive : Nlb → Type 0
IsActive nlb = (nlb.status.load_balancer_status == "Active") ≡ true

-- the load balancer `nlb` was read under the key `key`
abbrev pub ReadsNlb : Key → Nlb → Exchange → Type 0
ReadsNlb key nlb (exchange (get_nlb k) r) = (k ≡ key) × (r ≡ ok nlb)
ReadsNlb key nlb _ = ⊥

-- the server says that the load balancer under `key` is Active: it is read so, or it was read, and is so in
-- the answer to its correction
abbrev pub SaysActive : Key → Exchange → Trace → Type 0
SaysActive key (exchange (get_nlb k) r) t =
    (k ≡ key) × ((nlb : Nlb) × ((r ≡ ok nlb) × IsActive nlb))
SaysActive key (exchange (update_nlb x) r) t =
    ((old : Nlb) × ((x.metadata ≡ old.metadata) × Once (ReadsNlb key old) t))
    × ((nlb : Nlb) × ((r ≡ ok nlb) × IsActive nlb))
SaysActive key _ t = ⊥

-- `J` holds of some exchange and the trace before it
abbrev pub Somewhere : (Exchange → Trace → Type 0) → Trace → Type 0
Somewhere J [] = ⊥
Somewhere J (x ∷ t) = J x t ⊎ Somewhere J t

-- the key of a lane's load balancer in a group
abbrev pub nlb_key : NlbPool → ℕ → LaneConfig → Key
nlb_key pool group lane = in_namespace pool (nlb_name_for_group pool.metadata lane (pos group))

says_active :
    (key : Key) (nlb : Nlb) (x : Exchange) (t : Trace)
    → ReadsNlb key nlb x
    → IsActive nlb
    → SaysActive key x t
says_active key nlb (exchange (get_nlb k) r) t h a = (h.0, (nlb, (h.1, a)))
says_active key nlb _ t h a = elim h [ ]

read_active :
    (key : Key) (nlb : Nlb) (t : Trace)
    → Once (ReadsNlb key nlb) t
    → IsActive nlb
    → Somewhere (SaysActive key) t
read_active key nlb [] h a = elim h [ ]
read_active key nlb (x ∷ t) (inr h) a = inr (read_active key nlb t h a)
read_active key nlb (x ∷ t) (inl h) a = inl (says_active key nlb x t h a)

correct_drift-Active :
    (pool : NlbPool) (nlb : Nlb) (ids : List String) (key : Key)
    → Meets
        (Once (ReadsNlb key nlb))
        (correct_drift pool nlb ids)
        (λ n t. IsActive n → Somewhere (SaysActive key) t)
        (λ _. Unit)
unfolding correct_drift
correct_drift-Active pool nlb ids key =
    Meets-if (not (need_update nlb.spec.zone_mappings ids)) _ _
      (λ e. Meets-pure nlb λ t h a. read_active key nlb t h a)
      λ e.
        Meets-bind _ _
          (Meets-request
            (update_nlb (record nlb {
              spec = record nlb.spec { zone_mappings = realigned nlb.spec.zone_mappings ids };
            }))
            {Q = λ r t. (n : Nlb) → r ≡ ok n → IsActive n → Somewhere (SaysActive key) t}
            λ r t h n p a. inl ((nlb, (refl, h)), (n, (p, a))))
          λ updated.
            Meets-on_err updated _ _ (λ e p. Meets-finish _ λ t h. tt)
              λ n p.
                Meets-weaken (λ t h. h n p)
                  (Meets-bind _ _ (Meets-Keeps (λ t h. tt) (event.keeps _ λ c r t k h a. inr (h a)))
                    λ _. Meets-pure n λ t h. h)
  where
    event : Only (λ _. Unit) (eventf pool.metadata "Normal" "NLBUpdated")
    event = search (only_rules, request_rules) depth 4

create_missing_nlb-Only :
    (pool : NlbPool) (lane : LaneConfig) (nlb_name : String) (ids : List String)
    → Only (λ _. Unit) (create_missing_nlb pool lane nlb_name ids)
unfolding create_missing_nlb own accept_existing
create_missing_nlb-Only pool lane nlb_name ids = search (only_rules, request_rules) depth 14

ensure_nlb-Only :
    (pool : NlbPool) (lane : LaneConfig) (group : ℤ) (ids : List String)
    → Only (λ _. Unit) (ensure_nlb pool lane group ids)
unfolding ensure_nlb correct_drift
ensure_nlb-Only pool lane group ids =
    search (only_rules, request_rules, create_missing_nlb-Only) depth 16

pub ensure_lane-Only :
    (pool : NlbPool) (group : ℤ) (lane : LaneConfig)
    → Only (λ _. Unit) (ensure_lane pool group lane)
unfolding ensure_lane
ensure_lane-Only pool group lane =
    Only-bind _ _
      (ensure_eips-Only _ pool lane group 0 pool.spec.zone_maps (λ k. tt) (λ e. tt) λ k e r. tt)
      λ zones. search (only_rules, ensure_nlb-Only) depth 6

ensure_nlb-Active :
    (pool : NlbPool) (lane : LaneConfig) (group : ℕ) (ids : List String)
    → Meets
        (λ _. Unit)
        (ensure_nlb pool lane (pos group) ids)
        (λ b t. b ≡ true → Somewhere (SaysActive (nlb_key pool group lane)) t)
        (λ _. Unit)
unfolding ensure_nlb
ensure_nlb-Active pool lane group ids =
    let key = nlb_key pool group lane in
    Meets-bind _ _
      (Meets-request (get_nlb key) {Q = λ r t. (n : Nlb) → r ≡ ok n → Once (ReadsNlb key n) t}
        λ r t h n p. inl (refl, p))
      λ got.
        Meets-on_err got _ _
          (λ e p.
            Meets-if (is_not_found e) _ _
              (λ n. Meets-bind _ _ (Meets-nothing _) λ _. Meets-pure false λ t h b. ground arith)
              λ n. Meets-finish _ λ t h. tt)
          λ n p.
            Meets-weaken (λ t h. h n p)
              (Meets-bind _ _ (correct_drift-Active pool n ids key) λ n. Meets-pure _ λ t h a. h a)

pub ensure_lane-Active :
    (pool : NlbPool) (group : ℕ) (lane : LaneConfig)
    → Meets
        (λ _. Unit)
        (ensure_lane pool (pos group) lane)
        (λ b t. b ≡ true → Somewhere (SaysActive (nlb_key pool group lane)) t)
        (λ _. Unit)
unfolding ensure_lane
ensure_lane-Active pool group lane = Meets-bind _ _ (Meets-nothing _) λ zones.
    Meets-if (not zones.1) _ _ (λ e. Meets-pure false λ t h b. ground arith)
      λ e. ensure_nlb-Active pool lane group zones.0
