-- ===== src/Provider/RateLimiter.antt =====
-- pkg/provider/rate_limiter.go. The limiters are of golang.org/x/time/rate: `allow` is the Allow method
-- of the limiter `L`, whose tokens are part of the world's state.
use alibaba_cloud_nlb_pool_o.Base.{Bool, Option, none, some, not, if◌then◌else◌}
use alibaba_cloud_nlb_pool_o.World.{GoError, err}
use alibaba_cloud_nlb_pool_o.Provider.Errors.{err_local_rate_limited}
use alibaba_cloud_nlb_pool_o.Provider.Client.{Act, NlbApiClient}

pub record RateLimitedClient (L S : Type 0) : Type 0 where
  pub client : NlbApiClient S
  pub add_servers_limiter : Option L
  pub remove_servers_limiter : Option L
  pub create_sg_limiter : Option L
  pub create_listener_limiter : Option L
  pub list_sg_limiter : Option L
  pub get_job_limiter : Option L
  pub list_listeners_limiter : Option L
  pub get_eip_limiter : Option L
  pub get_sg_attr_limiter : Option L
  pub delete_sg_limiter : Option L
  pub get_listener_limiter : Option L
  pub delete_listener_limiter : Option L
  pub list_listeners_by_port_limiter : Option L

-- NewRateLimitedClient
unfoldable pub new_rate_limited_client : {L S : Type 0} → NlbApiClient S → RateLimitedClient L S
new_rate_limited_client client = record {
  client = client;
  add_servers_limiter = none;
  remove_servers_limiter = none;
  create_sg_limiter = none;
  create_listener_limiter = none;
  list_sg_limiter = none;
  get_job_limiter = none;
  list_listeners_limiter = none;
  get_eip_limiter = none;
  get_sg_attr_limiter = none;
  delete_sg_limiter = none;
  get_listener_limiter = none;
  delete_listener_limiter = none;
  list_listeners_by_port_limiter = none;
}

module _ {L S : Type 0} (allow : L → S → Bool × S) where
  -- checkLimit
  unfoldable pub check_limit : Option L → S → Option GoError × S
  check_limit none s = (none, s)
  check_limit (some limiter) s =
      let (allowed, s) = allow limiter s in
      if not allowed then (some err_local_rate_limited, s) else (none, s)

  -- the body of a method: the limiter, then the call of the client
  unfoldable pub limited : {A : Type 0} → Option L → Act S A → Act S A
  unfolding check_limit
  limited limiter act s =
      let (e, s) = check_limit limiter s in elim e [ none ↦ act s | some e ↦ some (err e, s) ]

  -- the methods of RateLimitedClient
  unfoldable pub rate_limited : RateLimitedClient L S → NlbApiClient S
  unfolding limited
  rate_limited r = record {
    create_server_group = λ req. limited r.create_sg_limiter (r.client.create_server_group req);
    create_listener = λ req. limited r.create_listener_limiter (r.client.create_listener req);
    add_servers_to_server_group =
        λ req. limited r.add_servers_limiter (r.client.add_servers_to_server_group req);
    remove_servers_from_server_group =
        λ req. limited r.remove_servers_limiter (r.client.remove_servers_from_server_group req);
    get_job_status = λ id. limited r.get_job_limiter (r.client.get_job_status id);
    list_server_groups = λ req. limited r.list_sg_limiter (r.client.list_server_groups req);
    list_listeners = λ req. limited r.list_listeners_limiter (r.client.list_listeners req);
    list_server_group_servers =
        λ id. limited r.list_sg_limiter (r.client.list_server_group_servers id);
    get_server_group_attribute =
        λ id. limited r.get_sg_attr_limiter (r.client.get_server_group_attribute id);
    delete_server_group = λ id. limited r.delete_sg_limiter (r.client.delete_server_group id);
    get_listener_attribute =
        λ id. limited r.get_listener_limiter (r.client.get_listener_attribute id);
    delete_listener = λ id. limited r.delete_listener_limiter (r.client.delete_listener id);
    list_server_groups_by_name =
        λ vpc_id name. limited r.list_sg_limiter (r.client.list_server_groups_by_name vpc_id name);
    list_listeners_by_port = λ id port.
        limited r.list_listeners_by_port_limiter (r.client.list_listeners_by_port id port);
    get_load_balancer_eip = λ id. limited r.get_eip_limiter (r.client.get_load_balancer_eip id);
    load_balancer_exists = λ id. limited r.get_eip_limiter (r.client.load_balancer_exists id);
  }
