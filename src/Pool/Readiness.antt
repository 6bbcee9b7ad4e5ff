-- ===== src/Pool/Readiness.antt =====
-- ensureNLBsAndEIPs: the allocation ids that it has read when it creates a load balancer. Creation has the rest.
pub mod Creation
use alibaba_cloud_nlb_pool_o.Base.{
  ℕ, zero, suc, String, Bool, true, false, List, [], ◌∷◌, ℤ, pos, pos_part, All, length, get_elem?,
  ◌≡◌, ◌≤◌, ◌<◌, refl, ap, inl, inr, not, ◌==◌, ◌&&◌, arith, ◌+◌,
}
use alibaba_cloud_nlb_pool_o.Types.{
  Key, ObjectMeta, NlbPool, LaneConfig, ZoneMapEntry, ZoneMapping, Nlb, Eip, or_blank,
}
use alibaba_cloud_nlb_pool_o.World.{
  Call, Response, get_eip, create_nlb, Exchange, exchange, Trace, is_not_found, Result, ok, err,
  Proc, request,
}
use alibaba_cloud_nlb_pool_o.World.Keeps.{
  Keeps, Keeps-bind, Keeps-for_each, Keeps-on_err, Keeps-if, Keeps-pure, Keeps-finish, Once,
}
use alibaba_cloud_nlb_pool_o.World.Only.{Only, Frame, Only-pure, Only-bind, only_rules}
use alibaba_cloud_nlb_pool_o.World.Requests.{request_rules}
use alibaba_cloud_nlb_pool_o.World.Meets.{
  Meets, Meets-pure, Meets-bind, Meets-if, Meets-on_err, Meets-weaken, Meets-also, Meets-request,
  Meets-Keeps, Meets-finish, Keeps-then, Meets-end,
}
use mathlib.Core.Path.{subst}
use alibaba_cloud_nlb_pool_o.Allocation.Slots.{nlb_name_for_group}
use alibaba_cloud_nlb_pool_o.Pool.Builders.{eip_name_for_group, zone_mappings_of, build_nlb}
use alibaba_cloud_nlb_pool_o.Pool.Infrastructure.{
  in_namespace, own, accept_existing, create_missing_eip, ensure_eip, ensure_eips,
  create_missing_nlb, correct_drift, ensure_nlb, ensure_lane, ensure_infrastructure,
  ensure_nlbs_and_eips,
}

-- the key of the EIP of a lane's zone in a group
abbrev pub zone_key : NlbPool → LaneConfig → ℤ → ℕ → Key
zone_key pool lane group i = in_namespace pool (eip_name_for_group pool.metadata lane group i)

-- the EIP under `key` was read with the allocation id `id`
abbrev pub ReadsId : Key → String → Exchange → Type 0
ReadsId key id (exchange (get_eip k) (ok eip)) = (k ≡ key) × (eip.allocation_id ≡ id)
ReadsId key id _ = ⊥

-- an allocation id that is not blank, of the EIP under `key`, which was read
abbrev pub Allocated : Key → String → Trace → Type 0
Allocated key id t = ((id == "") ≡ false) × Once (ReadsId key id) t

-- one mapping for each zone, in order: with the zone's name and VSwitch, and the allocation id of the EIP that
-- is this zone's
abbrev pub MatchesZones :
    NlbPool → LaneConfig → ℤ → ℕ → List ZoneMapEntry → List ZoneMapping → Trace → Type 0
MatchesZones pool lane group i [] [] t = Unit
MatchesZones pool lane group i (z ∷ zones) (zm ∷ zms) t =
    (zm.zone_id ≡ z.zone)
    × ((zm.vswitch_id ≡ z.vswitch_id)
        × (Allocated (zone_key pool lane group i) zm.allocation_id t
            × MatchesZones pool lane group (suc i) zones zms t))
MatchesZones pool lane group i _ _ t = ⊥

-- the load balancer of some lane and group is created, with a mapping for each zone of the pool
abbrev pub CreatesReady : NlbPool → Exchange → Trace → Type 0
CreatesReady pool (exchange (create_nlb nlb) r) t =
    (lane : LaneConfig) × ((group : ℤ) × ((nlb.spec.load_balancer_name
          ≡ nlb_name_for_group pool.metadata lane group)
        × MatchesZones pool lane group 0 pool.spec.zone_maps nlb.spec.zone_mappings t))
CreatesReady pool _ t = Unit

-- `Justified J t`: `J` holds of each exchange and the trace before it.
abbrev pub Justified : (Exchange → Trace → Type 0) → Trace → Type 0
Justified J [] = Unit
Justified J (x ∷ t) = J x t × Justified J t

-- a call that creates no load balancer
abbrev pub Free : NlbPool → Call → Type 0
Free pool c = (r : Response c) (t : Trace) → CreatesReady pool (exchange c r) t

-- the ids from index `i` on are those of the EIPs of the zones
abbrev pub AllAllocated : NlbPool → LaneConfig → ℤ → ℕ → List String → Trace → Type 0
AllAllocated pool lane group i [] t = Unit
AllAllocated pool lane group i (id ∷ ids) t =
    Allocated (zone_key pool lane group i) id t × AllAllocated pool lane group (suc i) ids t

pub AllAllocated-monotone :
    (pool : NlbPool) (lane : LaneConfig) (group : ℤ) (i : ℕ) (ids : List String)
    → Frame (λ _. Unit) (AllAllocated pool lane group i ids)
AllAllocated-monotone pool lane group i [] c r t k h = tt
AllAllocated-monotone pool lane group i (id ∷ ids) c r t k ((n, o), hs) =
    ((n, inr o), AllAllocated-monotone pool lane group (suc i) ids c r t k hs)

create_missing_eip-Only :
    (K : Call → Type 0) (pool : NlbPool) (lane : LaneConfig) (eip_name : String)
    → ((eip : Eip) → K (Call.create_eip eip))
    → ((k : Key) (event_type reason : String) → K (Call.record_event k event_type reason))
    → Only K (create_missing_eip pool lane eip_name)
unfolding create_missing_eip own accept_existing
create_missing_eip-Only K pool lane eip_name k l = search (only_rules, request_rules) depth 14

ensure_eip-Only :
    (K : Call → Type 0) (pool : NlbPool) (lane : LaneConfig) (group_idx : ℤ) (i : ℕ)
    → ((k : Key) → K (get_eip k))
    → ((eip : Eip) → K (Call.create_eip eip))
    → ((k : Key) (event_type reason : String) → K (Call.record_event k event_type reason))
    → Only K (ensure_eip pool lane group_idx i)
unfolding ensure_eip
ensure_eip-Only K pool lane group_idx i g k l =
    search (only_rules, request_rules, create_missing_eip-Only) depth 14

pub ensure_eips-Only :
    (K : Call → Type 0) (pool : NlbPool) (lane : LaneConfig) (group_idx : ℤ) (i : ℕ)
    (zones : List ZoneMapEntry)
    → ((k : Key) → K (get_eip k))
    → ((eip : Eip) → K (Call.create_eip eip))
    → ((k : Key) (event_type reason : String) → K (Call.record_event k event_type reason))
    → Only K (ensure_eips pool lane group_idx i zones)
unfolding ensure_eips
ensure_eips-Only K pool lane group_idx i [] g k l = Only-pure _
ensure_eips-Only K pool lane group_idx i (zone ∷ zones) g k l =
    Only-bind _ _ (ensure_eip-Only K pool lane group_idx i g k l) λ id.
      Only-bind _ _ (ensure_eips-Only K pool lane group_idx (suc i) zones g k l) λ rest. Only-pure _

abbrev id_of : Result Eip → String
id_of (ok eip) = eip.allocation_id
id_of (err e) = ""

read_id :
    (k : Key) (r : Result Eip) (t : Trace) (eip : Eip)
    → r ≡ ok eip
    → Once (ReadsId k eip.allocation_id) (exchange (get_eip k) r ∷ t)
read_id k (ok e) t eip p = inl (refl, ap id_of p)
read_id k (err e) t eip p = ground arith

ensure_eip-Allocated :
    (pool : NlbPool) (lane : LaneConfig) (group_idx : ℤ) (i : ℕ)
    → Meets
        (λ _. Unit)
        (ensure_eip pool lane group_idx i)
        (λ id t. (id == "") ≡ false → Allocated (zone_key pool lane group_idx i) id t)
        (λ _. Unit)
unfolding ensure_eip
ensure_eip-Allocated pool lane group_idx i =
    Meets-bind _ _
      (Meets-request (get_eip _)
        {Q = λ r t.
          (eip : Eip)
          → r ≡ ok eip
          → Once (ReadsId (zone_key pool lane group_idx i) eip.allocation_id) t}
        λ r t h eip e.
          read_id (in_namespace pool (eip_name_for_group pool.metadata lane group_idx i)) r t eip e)
      λ got.
        Meets-on_err got _ _
          (λ e p.
            Meets-if (is_not_found e) _ _
              (λ n.
                Meets-weaken {R = λ _. Unit} (λ t h. tt)
                  (Meets-bind _ _
                    (Meets-Keeps (λ t h. tt) (anything.keeps (λ _. Unit) λ c r t k h. tt))
                    λ _. Meets-pure "" λ t h b. ground arith))
              λ n. Meets-finish _ λ t h. tt)
          λ eip p. Meets-pure eip.allocation_id λ t h b. (b, h eip p)
  where
    anything :
        Only
          (λ _. Unit)
          (create_missing_eip pool lane (eip_name_for_group pool.metadata lane group_idx i))
    anything = create_missing_eip-Only _ pool lane _ (λ eip. tt) (λ k e r. tt)

-- the ids of the zones, one for each, and allocated where all are ready
abbrev pub ZoneIds :
    NlbPool → LaneConfig → ℤ → ℕ → List ZoneMapEntry → List String × Bool → Trace → Type 0
ZoneIds pool lane group i zones s t =
    (length s.0 ≡ length zones) × (s.1 ≡ true → AllAllocated pool lane group i s.0 t)

zone_ids :
    (pool : NlbPool) (lane : LaneConfig) (group : ℤ) (i : ℕ) (zone : ZoneMapEntry)
    (zones : List ZoneMapEntry) (id : String) (s : List String × Bool) (t : Trace)
    → ZoneIds pool lane group (suc i) zones s t
    → ((id == "") ≡ false → Allocated (zone_key pool lane group i) id t)
    → ZoneIds pool lane group i (zone ∷ zones) (id ∷ s.0, not (id == "") && s.1) t
zone_ids pool lane group i zone zones id s t h k =
    (ap suc h.0, λ e. (k (left (id == "") s.1 e), h.1 (right (id == "") s.1 e)))
  where
    left : (b c : Bool) → not b && c ≡ true → b ≡ false
    left b c e = ground arith

    right : (b c : Bool) → not b && c ≡ true → c ≡ true
    right b c e = ground arith

pub ensure_eips-Allocated :
    (pool : NlbPool) (lane : LaneConfig) (group_idx : ℤ) (i : ℕ) (zones : List ZoneMapEntry)
    → Meets
        (λ _. Unit)
        (ensure_eips pool lane group_idx i zones)
        (ZoneIds pool lane group_idx i zones)
        (λ _. Unit)
unfolding ensure_eips
ensure_eips-Allocated pool lane group_idx i [] = Meets-pure _ λ t h. (refl, λ e. tt)
ensure_eips-Allocated pool lane group_idx i (zone ∷ zones) =
    Meets-bind _ _ (ensure_eip-Allocated pool lane group_idx i) λ id.
      Meets-bind _ _
        (Meets-weaken (λ t h. (tt, h))
          (Meets-also (ensure_eips-Allocated pool lane group_idx (suc i) zones) (
            (ensure_eips-Only (λ _. Unit) pool lane group_idx (suc i) zones (λ k. tt) (λ e. tt)
                (λ k e r. tt)).keeps
              (λ t. (id == "") ≡ false → Allocated (zone_key pool lane group_idx i) id t)
              λ c r t k h e. ((h e).0, inr (h e).1))))
        λ rest. Meets-pure _ λ t h. zone_ids pool lane group_idx i zone zones id rest t h.0 h.1
