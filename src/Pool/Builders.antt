-- ===== src/Pool/Builders.antt =====
-- The builders of a pool's child objects, with their names, and paToNLBPool.
use alibaba_cloud_nlb_pool_o.Base.{
  ℕ, suc, String, Bool, true, false, List, [], ◌∷◌, none, ℤ, pos, get_elem?, show_ℤ, show_ℕ, ◌<>◌,
  ◌==◌, ◌&&◌, if◌then◌else◌,
}
use alibaba_cloud_nlb_pool_o.Types.{
  Dict, lookup, or_blank, Key, ObjectMeta, label_pool, label_slot, label_lane, label_phase, NlbPool,
  LaneConfig, ZoneMapEntry, PortAllocation, PaPhase, pa_phase_name, provisioning, ZoneMapping, Nlb,
  Eip,
}

-- eipNameForGroup
unfoldable pub eip_name_for_group : ObjectMeta → LaneConfig → ℤ → ℕ → String
eip_name_for_group pool lane group_idx zone_idx =
    pool.name <> "-" <> lane.name <> "-" <> show_ℤ group_idx <> "-z" <> show_ℕ zone_idx

-- the name of the allocation of a slot
unfoldable pub slot_name : ObjectMeta → ℤ → String
slot_name pool slot_idx = pool.name <> "-s" <> show_ℤ slot_idx

-- the metadata of an object that the server has not seen yet
abbrev pub new_meta : String → String → Dict → ObjectMeta
new_meta name namespace labels = record {
  name = name;
  namespace = namespace;
  uid = "";
  resource_version = "";
  labels = labels;
  annotations = [];
  finalizers = [];
  deleting = false;
  owner = none;
}

-- the loop of buildNLBCR over the zones, from index `i` on; an allocation id that is missing or blank
-- is left blank
unfoldable pub zone_mappings_of : ℕ → List ZoneMapEntry → List String → List ZoneMapping
zone_mappings_of i [] ids = []
zone_mappings_of i (z ∷ zones) ids =
    record {
      zone_id = z.zone;
      vswitch_id = z.vswitch_id;
      allocation_id = or_blank (get_elem? ids i);
    }
    ∷ zone_mappings_of (suc i) zones ids

-- buildNLBCR
unfoldable pub build_nlb : NlbPool → LaneConfig → String → List String → Nlb
unfolding zone_mappings_of
build_nlb pool lane nlb_name ids = record {
  metadata =
      new_meta nlb_name pool.metadata.namespace
        ((label_pool, pool.metadata.name) ∷ (label_lane, lane.name) ∷ []);
  spec = record {
    load_balancer_name = nlb_name;
    address_type = "Internet";
    vpc_id = pool.spec.vpc_id;
    bandwidth_package_id = lane.bandwidth_package_id;
    zone_mappings = zone_mappings_of 0 pool.spec.zone_maps ids;
  };
  status = record { load_balancer_id = ""; load_balancer_status = ""; dns_name = "" };
}

-- validateLaneConfig
unfoldable pub validate_lane_config : List LaneConfig → String
validate_lane_config lanes = ""

abbrev member : String → List String → Bool
member s [] = false
member s (t ∷ ts) = if s == t then true else member s ts

-- isSingleISP
unfoldable pub is_single_isp : String → Bool
is_single_isp isp_type = member isp_type (
    "ChinaTelecom" ∷ "ChinaUnicom" ∷ "ChinaMobile" ∷ "ChinaTelecom_L2" ∷ "ChinaUnicom_L2"
    ∷ "ChinaMobile_L2" ∷ [])

-- buildEIPCR
unfoldable pub build_eip : NlbPool → LaneConfig → String → Eip
unfolding is_single_isp
build_eip pool lane eip_name = record {
  metadata =
      new_meta eip_name pool.metadata.namespace
        ((label_pool, pool.metadata.name) ∷ (label_lane, lane.name) ∷ []);
  spec = record {
    name = eip_name;
    isp = lane.isp_type;
    internet_charge_type = if is_single_isp lane.isp_type then "PayByBandwidth" else "PayByTraffic";
    bandwidth =
        if is_single_isp lane.isp_type && lane.bandwidth == "" then "200" else lane.bandwidth;
    security_protection_types = lane.security_protection_types;
  };
  allocation_id = "";
}

-- buildPortAllocationCR
unfoldable pub build_port_allocation : NlbPool → ℤ → String → PortAllocation
build_port_allocation pool slot_idx pa_name = record {
  metadata = new_meta pa_name pool.metadata.namespace (
      (label_pool, pool.metadata.name)
      ∷ (label_slot, show_ℤ slot_idx)
      ∷ (label_phase, pa_phase_name provisioning)
      ∷ []);
  spec = record { bound_pod = ""; bound_pod_ip = ""; server_groups = []; endpoints = [] };
  status = record {
    phase = PaPhase.unset;
    external_addresses = [];
    message = "";
    server_groups = [];
    listeners = [];
    sgs_ready = pos 0;
    sgs_total = pos 0;
    listeners_ready = pos 0;
    listeners_total = pos 0;
  };
}

-- paToNLBPool, for an object that is an allocation
unfoldable pub pa_to_nlb_pool : PortAllocation → List Key
pa_to_nlb_pool pa =
    let pool_name = lookup label_pool pa.metadata.labels in
    if pool_name == ""
    then []
    else record { namespace = pa.metadata.namespace; name = pool_name } ∷ []
