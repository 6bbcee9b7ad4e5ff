-- ===== src/Tests/World.antt =====
-- The objects and the environment of the tests: writes are echoed, the cloud knows no listener and no
-- server, and other reads fail with a not-found error.
use alibaba_cloud_nlb_pool_o.Base.{
  ℕ, List, length, ap, ◌+◌, ◌*◌, ◌^◌, ◌<◌, arith, String, true, false, [], ◌∷◌, ◌≡◌, refl, none,
  pos,
}
use alibaba_cloud_nlb_pool_o.Types.{
  ObjectMeta, Nlb, LaneConfig, PoolSpec, NlbPool, PortAllocation, PaPhase, bound, pool_provisioning,
  sg_active, server_bound, lsn_running, label_pool, label_slot, finalizer_allocation,
}
use alibaba_cloud_nlb_pool_o.World.{Call, Response, GoError, not_found, Result, ok, err, Env}
use alibaba_cloud_nlb_pool_o.Allocation.Erasure.{Echoes}
use alibaba_cloud_nlb_pool_o.Pool.Deletion.{pool_selector}
use alibaba_cloud_nlb_pool_o.Pool.Counting.{KeepsStatus}
use alibaba_cloud_nlb_pool_o.Pool.Teardown.Recorded.{EchoesIds}
use alibaba_cloud_nlb_pool_o.Pool.Teardown.Progress.{IsGone}

abbrev pub missing : GoError
missing = record { message = "ResourceNotFound"; reason = not_found }

abbrev pub meta : String → ObjectMeta
meta name = record {
  name = name;
  namespace = "default";
  uid = "1";
  resource_version = "7";
  labels = (label_pool, "pool") ∷ (label_slot, "3") ∷ [];
  annotations = [];
  finalizers = finalizer_allocation ∷ [];
  deleting = false;
  owner = none;
}

abbrev pub lane : String → LaneConfig
lane name = record {
  name = name;
  isp_type = "BGP";
  bandwidth = "5";
  bandwidth_package_id = "";
  security_protection_types = [];
}

-- two ports, two lanes, three slots on a load balancer, listener ports from 10000 on
abbrev pub pool_spec : PoolSpec
pool_spec = record {
  region = "cn-hangzhou";
  vpc_id = "vpc-1";
  zone_maps = [];
  lanes = lane "bgp" ∷ lane "unicom" ∷ [];
  ports =
      record { name = "http"; protocol = "TCP"; container_port = pos 8080 }
      ∷ record { name = "game"; protocol = "UDP"; container_port = pos 9000 }
      ∷ [];
  port_range = record { min = pos 10000; max = pos 20000 };
  slots_per_nlb = pos 3;
  min_available_nlbs = pos 1;
}

-- six slots, of which four are bound and two are free
abbrev pub pool : NlbPool
pool = record {
  metadata = meta "pool";
  spec = pool_spec;
  status = record {
    phase = pool_provisioning;
    nlbs_per_lane = pos 2;
    total_slots = pos 6;
    available_slots = pos 2;
    bound_slots = pos 4;
    message = "";
    cloud_nlb_ids = [];
  };
}

abbrev pub allocation : PaPhase → PortAllocation
allocation phase = record {
  metadata = meta "pool-3";
  spec = record {
    bound_pod = "pod";
    bound_pod_ip = "10.0.0.1";
    server_groups = [];
    endpoints = [];
  };
  status = record {
    phase = phase;
    external_addresses = [];
    message = "";
    server_groups =
        record {
          name = "http";
          server_group_id = "sg-1";
          phase = sg_active;
          server_status = server_bound;
        }
        ∷ [];
    listeners =
        record {
          port_name = "http";
          lane_name = "bgp";
          listener_id = "lsn-1";
          listener_port = pos 10000;
          phase = lsn_running;
        }
        ∷ [];
    sgs_ready = pos 1;
    sgs_total = pos 1;
    listeners_ready = pos 1;
    listeners_total = pos 1;
  };
}

-- the answer of a healthy cluster that holds `pa`
abbrev pub answer : PortAllocation → (c : Call) → Response c
answer pa (Call.get_pa k) = ok pa
answer pa (Call.get_pool k) = ok pool
answer pa (Call.get_pod k) = err missing
answer pa (Call.get_nlb k) = err missing
answer pa (Call.get_eip k) = err missing
answer pa (Call.list_pas ns sel) = ok []
answer pa (Call.list_nlbs ns sel) = ok []
answer pa (Call.list_eips ns sel) = ok []
answer pa (Call.list_server_groups ns sel) = ok []
answer pa (Call.list_listeners ns sel) = ok []
answer pa (Call.list_pods ns) = ok []
answer pa (Call.create_pa x) = ok x
answer pa (Call.create_nlb x) = ok x
answer pa (Call.create_eip x) = ok x
answer pa (Call.update_pa x) = ok x
answer pa (Call.update_pa_status x) = ok x
answer pa (Call.patch_pa x) = ok x
answer pa (Call.patch_pa_status x patch) = ok x
answer pa (Call.update_pod x) = ok x
answer pa (Call.patch_pod x) = ok x
answer pa (Call.update_pool x) = ok x
answer pa (Call.update_pool_status x) = ok x
answer pa (Call.update_nlb x) = ok x
answer pa (Call.delete kind k) = none
answer pa (Call.record_event k type_text reason) = tt
answer pa (Call.create_server_group req) = ok (record { server_group_id = "sg-9"; job_id = "job" })
answer pa (Call.create_listener req) = ok (record { listener_id = "lsn-9"; job_id = "job" })
answer pa (Call.add_servers req) = ok (record { job_id = "job" })
answer pa (Call.remove_servers req) = ok (record { job_id = "job" })
answer pa (Call.list_server_group_servers id) = ok []
answer pa (Call.get_server_group_attribute id) = ok none
answer pa (Call.delete_server_group id) = none
answer pa (Call.get_listener_attribute id) = err missing
answer pa (Call.delete_listener id) = none
answer pa (Call.list_listeners_by_port id p) = ok ""
answer pa (Call.load_balancer_exists id) = ok false
answer pa Call.now = pos 0

abbrev pub cluster : PortAllocation → Env
cluster pa = record {
  respond = λ t c. answer pa c;
  md5_hex = λ s. s;
  parse_time = λ s. none;
  format_time = λ n. "1970-01-01T00:00:00Z";
  contains_finalizer = λ m f. true;
  add_finalizer = λ m f. m;
  remove_finalizer = λ m f. record m { finalizers = [] };
  is_controlled_by = λ m owner. true;
  set_controller_reference = λ owner m. ok m;
}

cluster-status_written :
    (x : PortAllocation) (r : Result PortAllocation)
    → r ≡ ok x
    → (pa' : PortAllocation) → r ≡ ok pa'
    → pa'.status ≡ x.status
cluster-status_written x r e pa' e' = cc

pub cluster-Echoes : (pa : PortAllocation) → Echoes (cluster pa)
cluster-Echoes pa t x pa' e = cluster-status_written x (ok x) refl pa' e

-- a load balancer object of the pool, which the cloud has created
abbrev pub load_balancer : Nlb
load_balancer = record {
  metadata = meta "pool-bgp-0";
  spec = record {
    load_balancer_name = "pool-bgp-0";
    address_type = "Internet";
    vpc_id = "vpc-1";
    bandwidth_package_id = "";
    zone_mappings = [];
  };
  status = record {
    load_balancer_id = "nlb-1";
    load_balancer_status = "Active";
    dns_name = "nlb-1.example";
  };
}

-- the answer of the cluster where it holds the pool `p`, an allocation and a load balancer
abbrev pub pool_answer : NlbPool → (c : Call) → Response c
pool_answer p (Call.get_pool k) = ok p
pool_answer p (Call.list_pas ns sel) = ok (allocation bound ∷ [])
pool_answer p (Call.list_nlbs ns sel) = ok (load_balancer ∷ [])
pool_answer p c = answer (allocation bound) c

abbrev pub pool_cluster : NlbPool → Env
pool_cluster p = record (cluster (allocation bound)) { respond = λ t c. pool_answer p c }

cluster-ids_written :
    (x : NlbPool) (r : Result NlbPool)
    → r ≡ ok x
    → (p : NlbPool) → r ≡ ok p
    → p.status.cloud_nlb_ids ≡ x.status.cloud_nlb_ids
cluster-ids_written x r e p e' = cc

pub cluster-EchoesIds : (p : NlbPool) → EchoesIds (pool_cluster p)
cluster-EchoesIds p t x p' e = cluster-ids_written x (ok x) refl p' e

cluster-pool_written :
    (x : NlbPool) (r : Result NlbPool) → r ≡ ok x → (p : NlbPool) → r ≡ ok p → p.status ≡ x.status
cluster-pool_written x r e p e' = cc

pub cluster-KeepsStatus : (p : NlbPool) → KeepsStatus (pool_cluster p)
cluster-KeepsStatus p t x p' e = cluster-pool_written x (ok x) refl p' e

one_listed :
    (xs : List PortAllocation) (r : Result (List PortAllocation))
    → r ≡ ok (allocation bound ∷ [])
    → r ≡ ok xs
    → xs ≡ allocation bound ∷ []
one_listed xs r e e' = cc

one_is_few : (n : ℕ) → n ≡ 1 → n + 3 * 1 + 3 < 2 ^ 31
one_is_few n e = omega arith

pub cluster-few :
    (p : NlbPool) (pas : List PortAllocation)
    → (pool_cluster p).respond [] (Call.list_pas p.metadata.namespace (pool_selector p)) ≡ ok pas
    → length pas + 3 * 1 + 3 < 2 ^ 31
cluster-few p pas e = one_is_few (length pas) (ap length (one_listed pas _ refl e))

-- the answer of the cluster where nothing but the pool `p` is left
abbrev pub last_answer : NlbPool → (c : Call) → Response c
last_answer p (Call.get_pool k) = ok p
last_answer p c = answer (allocation bound) c

abbrev pub last_cluster : NlbPool → Env
last_cluster p = record (cluster (allocation bound)) { respond = λ t c. last_answer p c }

pub last_cluster-IsGone : (p : NlbPool) → IsGone (last_cluster p)
last_cluster-IsGone p = record {
  no_allocations = λ ns sel t. refl;
  no_nlbs = λ ns sel t. refl;
  no_eips = λ ns sel t. refl;
  no_groups = λ ns sel t. refl;
  no_listeners = λ ns sel t. refl;
  no_cloud = λ id t. refl;
  takes_status = λ p t. refl;
  takes_pool = λ p t. refl;
}
