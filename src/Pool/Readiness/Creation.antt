-- ===== src/Pool/Readiness/Creation.antt =====
-- The creation of a load balancer by ensureNLBsAndEIPs: the zone mappings that it gets.
use alibaba_cloud_nlb_pool_o.Base.{
  ℕ, zero, suc, String, Bool, true, false, List, [], ◌∷◌, ℤ, pos, pos_part, length, get_elem?, ◌≡◌,
  ◌≤◌, ◌<◌, refl, not, arith, ◌+◌,
}
use alibaba_cloud_nlb_pool_o.Types.{
  Key, ObjectMeta, NlbPool, LaneConfig, ZoneMapEntry, Nlb, or_blank,
}
use alibaba_cloud_nlb_pool_o.World.{Call, create_nlb, Trace, is_not_found, Proc, request}
use alibaba_cloud_nlb_pool_o.World.Keeps.{
  Keeps, Keeps-bind, Keeps-for_each, Keeps-on_err, Keeps-if, Keeps-pure, Keeps-finish,
}
use alibaba_cloud_nlb_pool_o.World.Only.{Only, only_rules}
use alibaba_cloud_nlb_pool_o.World.Requests.{request_rules}
use alibaba_cloud_nlb_pool_o.World.Meets.{Meets-pure, Meets-if, Keeps-then, Meets-end}
use mathlib.Core.Path.{subst}
use alibaba_cloud_nlb_pool_o.Allocation.Slots.{nlb_name_for_group}
use alibaba_cloud_nlb_pool_o.Pool.Builders.{zone_mappings_of, build_nlb}
use alibaba_cloud_nlb_pool_o.Pool.Infrastructure.{
  own, accept_existing, create_missing_nlb, correct_drift, ensure_nlb, ensure_lane,
  ensure_infrastructure, ensure_nlbs_and_eips,
}
use alibaba_cloud_nlb_pool_o.Pool.Readiness.{
  zone_key, Allocated, MatchesZones, CreatesReady, Justified, Free, AllAllocated,
  AllAllocated-monotone, ensure_eips-Only, ensure_eips-Allocated,
}

module _ (pool : NlbPool) (lane : LaneConfig) (group : ℤ) (t : Trace) where
  get_elem?-Allocated :
      (ids : List String) (from i n : ℕ)
      → n ≡ from + i
      → AllAllocated pool lane group from ids t
      → i < length ids
      → Allocated (zone_key pool lane group n) (or_blank (get_elem? ids i)) t
  get_elem?-Allocated [] from i n e h k = elim k [ ]
  get_elem?-Allocated (id ∷ ids) from zero n e h k =
      subst (λ m. Allocated (zone_key pool lane group m) id t) (omega arith) h.0
  get_elem?-Allocated (id ∷ ids) from (suc i) n e h k =
      get_elem?-Allocated ids (suc from) i n (omega arith) h.1 (omega arith)

  zone_mappings_of-MatchesZones :
      (zones : List ZoneMapEntry) (ids : List String) (i : ℕ)
      → AllAllocated pool lane group 0 ids t
      → i + length zones ≤ length ids
      → MatchesZones pool lane group i zones (zone_mappings_of i zones ids) t
  unfolding zone_mappings_of
  zone_mappings_of-MatchesZones [] ids i h k = tt
  zone_mappings_of-MatchesZones (z ∷ zones) ids i h k = (
    refl,
    (
      refl,
      (
        get_elem?-Allocated ids 0 i i (omega arith) h (omega arith),
        zone_mappings_of-MatchesZones zones ids (suc i) h (omega arith),
      ),
    ),
  )

-- every load balancer was created with a mapping for each zone
abbrev Ready : NlbPool → Trace → Type 0
Ready pool = Justified (CreatesReady pool)

record_event-Free :
    (pool : NlbPool) (k : Key) (event_type reason : String)
    → Free pool (Call.record_event k event_type reason)
record_event-Free pool k event_type reason r t = tt

get_nlb-Free : (pool : NlbPool) (k : Key) → Free pool (Call.get_nlb k)
get_nlb-Free pool k r t = tt

update_nlb-Free : (pool : NlbPool) (nlb : Nlb) → Free pool (Call.update_nlb nlb)
update_nlb-Free pool nlb r t = tt

module _ (pool : NlbPool) (lane : LaneConfig) (group : ℤ) (ids : List String) where
  -- the load balancers so far, with the ids of the zones
  abbrev Supplied : Trace → Type 0
  Supplied t = Ready pool t × AllAllocated pool lane group 0 ids t

  Free-Keeps : {A : Type 0} {m : Proc A} → Only (Free pool) m → Keeps Supplied m
  Free-Keeps o =
      o.keeps _
        λ c r t k h. ((k r t, h.0), AllAllocated-monotone pool lane group 0 ids c r t tt h.1)

  module _ (enough : length ids ≡ length pool.spec.zone_maps) where
    create-Ready :
        (metadata : ObjectMeta)
        → Keeps Supplied (
            request (
              create_nlb
                (record (build_nlb pool lane (nlb_name_for_group pool.metadata lane group) ids) {
                  metadata = metadata;
                })))
    unfolding request build_nlb
    create-Ready metadata = record {
      at = λ env t h.
          let c =
            create_nlb
              (record (build_nlb pool lane (nlb_name_for_group pool.metadata lane group) ids) {
                metadata = metadata;
              }) in
          (
            (
              (
                lane,
                (
                  group,
                  (
                    refl,
                    zone_mappings_of-MatchesZones pool lane group t pool.spec.zone_maps ids 0 h.1
                        (omega arith),
                  ),
                ),
              ),
              h.0,
            ),
            AllAllocated-monotone pool lane group 0 ids c (env.respond t c) t tt h.1,
          );
    }

    create_missing_nlb-Ready :
        Keeps Supplied
          (create_missing_nlb pool lane (nlb_name_for_group pool.metadata lane group) ids)
    unfolding create_missing_nlb own accept_existing
    create_missing_nlb-Ready = Keeps-bind _ _ (Free-Keeps (search (only_rules) depth 8)) λ metadata.
        Keeps-bind _ _ (create-Ready metadata)
          λ created. Free-Keeps (search (only_rules, record_event-Free) depth 12)

    ensure_nlb-Ready : Keeps Supplied (ensure_nlb pool lane group ids)
    unfolding ensure_nlb correct_drift
    ensure_nlb-Ready =
        Keeps-bind _ _ (Free-Keeps (search (request_rules, get_nlb-Free) depth 4)) λ got.
          Keeps-on_err got _ _
            (λ x p.
              Keeps-if (is_not_found x) _ _
                (λ n. Keeps-bind _ _ create_missing_nlb-Ready λ _. Keeps-pure false)
                λ n. Keeps-finish _)
            λ nlb p.
              Free-Keeps
                (search (only_rules, request_rules, record_event-Free, update_nlb-Free) depth 14)

ensure_lane-Ready :
    (pool : NlbPool) (group_idx : ℤ) (lane : LaneConfig)
    → Keeps (Ready pool) (ensure_lane pool group_idx lane)
unfolding ensure_lane
ensure_lane-Ready pool group_idx lane =
    Keeps-then _ _
      ((ensure_eips-Only (Free pool) pool lane group_idx 0 pool.spec.zone_maps (λ k r t. tt)
          (λ eip r t. tt) (λ k e x r t. tt)).keeps
        _ λ c r t k h. (k r t, h))
      (ensure_eips-Allocated pool lane group_idx 0 pool.spec.zone_maps)
      λ s.
        Meets-if (not s.1) _ _ (λ e. Meets-pure false λ t h. h.0)
          λ e. Meets-end λ env t h.
            ((ensure_nlb-Ready pool lane group_idx s.0 h.1.0).at env t (h.0, h.1.1 (up s.1 e))).0
  where
    up : (b : Bool) → not b ≡ false → b ≡ true
    up b e = ground arith

-- A load balancer that is created is that of a lane and a group, by its name, and its zone mappings are those
-- of the pool's zones, one for each and in order: with the zone's name and VSwitch, and with an allocation id
-- that is not blank and that the EIP of that lane, group and zone was read with before.
pub ensure_nlbs_and_eips-Ready :
    (pool : NlbPool) (desired : ℤ)
    → Keeps (Justified (CreatesReady pool)) (ensure_nlbs_and_eips pool desired)
unfolding ensure_nlbs_and_eips ensure_infrastructure
ensure_nlbs_and_eips-Ready pool desired = loop (pos_part desired) 0 true
  where
    loop :
        (count group : ℕ) (all_ready : Bool)
        → Keeps (Ready pool) (ensure_infrastructure pool count group all_ready)
    loop zero group all_ready = Keeps-pure all_ready
    loop (suc count) group all_ready =
        Keeps-bind _ _
          (Keeps-for_each pool.spec.lanes all_ready _ λ lane ready.
            Keeps-bind _ _ (ensure_lane-Ready pool (pos group) lane) λ r. Keeps-pure _)
          λ ready. loop count (suc group) ready
