-- ===== src/Tests/Provider.antt =====
-- The theorems on the clients at a small cloud: it counts the calls, lists the server groups on two pages,
-- and knows no load balancer.
use alibaba_cloud_nlb_pool_o.Base.{
  ℕ, suc, String, Bool, true, false, List, [], ◌∷◌, Option, none, some, pos, ◌≡◌, refl, arith, ltb,
  contains,
}
use alibaba_cloud_nlb_pool_o.World.{GoError, Result, ok, err}
use alibaba_cloud_nlb_pool_o.Provider.Sessions.{Cloud}
use alibaba_cloud_nlb_pool_o.Provider.Client.{ApiCall, NlbApiClient}
use alibaba_cloud_nlb_pool_o.Provider.RateLimiter.{
  RateLimitedClient, new_rate_limited_client, check_limit, limited,
}
use alibaba_cloud_nlb_pool_o.Provider.Sdk.{
  SdkServerGroup, SdkListener, SdkListServerGroups, SdkListListeners, Page, SdkAct, Sdk,
}
use alibaba_cloud_nlb_pool_o.Provider.Cloud.{
  present, first, is_group_named, is_listener_at, list_server_groups_by_name,
  list_listeners_by_port, load_balancer_exists, alibaba_nlb_client, existence,
}
use alibaba_cloud_nlb_pool_o.Provider.Pages.{
  concat, id_or_blank, list_server_groups_by_name_lem, list_listeners_by_port_lem,
}
use alibaba_cloud_nlb_pool_o.Provider.Absence.{says_unknown, load_balancer_exists-Unknown}
use alibaba_cloud_nlb_pool_o.Tests.World.{missing}

abbrev unsupported : {A : Type 0} → ℕ → Result (Option A) × ℕ
unsupported s = (err missing, suc s)

abbrev group : String → SdkServerGroup
group id = record {
  server_group_id = id;
  server_group_name = "pool-s3-http";
  server_group_status = "Available";
  vpc_id = "vpc-1";
}

abbrev first_page : List (Option SdkServerGroup)
first_page = none ∷ []

abbrev last_page : List (Option SdkServerGroup)
last_page = some (group "sg-1") ∷ some (group "sg-2") ∷ []

abbrev list_pages : SdkListServerGroups → String → SdkAct ℕ (Page SdkServerGroup)
list_pages request region s = elim request.next_token [
  | none ↦ (ok (some (record { items = first_page; next_token = "2" })), suc s)
  | some token ↦ (ok (some (record { items = last_page; next_token = "" })), suc s)
]

abbrev listener : SdkListener
listener = record {
  listener_id = "lsn-1";
  listener_status = "Running";
  listener_port = pos 10000;
  listener_protocol = "TCP";
  load_balancer_id = "nlb-1";
  server_group_id = "sg-1";
}

abbrev list_listener_page : SdkListListeners → String → SdkAct ℕ (Page SdkListener)
list_listener_page request region s =
    (ok (some (record { items = some listener ∷ []; next_token = "" })), suc s)

abbrev small_cloud : Sdk ℕ
small_cloud = record {
  create_server_group = λ req region s. unsupported s;
  create_listener = λ req region s. unsupported s;
  add_servers = λ req region s. unsupported s;
  remove_servers = λ req region s. unsupported s;
  list_servers = λ id most region s. unsupported s;
  get_job_status = λ id s. unsupported s;
  list_server_groups = list_pages;
  list_listeners = list_listener_page;
  delete_server_group = λ id region s. unsupported s;
  get_listener_attribute = λ id s. unsupported s;
  delete_listener = λ id s. unsupported s;
  get_load_balancer_attribute = λ id region s. unsupported s;
}

-- a limiter that lets calls pass while fewer than `most` were made
abbrev allow : ℕ → ℕ → Bool × ℕ
allow most s = (ltb s most, s)

list_server_groups_by_name_lem_example :
    (s : ℕ) × (list_server_groups_by_name small_cloud "cn-hangzhou" 2 "vpc-1" "pool-s3-http" 0
      ≡ some (
        ok (
            id_or_blank
              (λ (sg : SdkServerGroup). sg.server_group_id)
              (first
                (is_group_named "vpc-1" "pool-s3-http")
                (present (concat (first_page ∷ last_page ∷ []))))),
        s,
      ))
list_server_groups_by_name_lem_example =
    list_server_groups_by_name_lem small_cloud "cn-hangzhou" 2 "vpc-1" "pool-s3-http" 0
      (first_page ∷ last_page ∷ []) refl
      (
        record { items = first_page; next_token = "2" },
        refl,
        refl,
        refl,
        (record { items = last_page; next_token = "" }, refl, refl, refl),
      )
      (omega arith)

list_listeners_by_port_lem_example :
    (s : ℕ) × (list_listeners_by_port small_cloud "cn-hangzhou" 1 "nlb-1" (pos 10000) 0
      ≡ some (
        ok (
            id_or_blank
              (λ (l : SdkListener). l.listener_id)
              (first
                (is_listener_at "nlb-1" (pos 10000))
                (present (concat ((some listener ∷ []) ∷ []))))),
        s,
      ))
list_listeners_by_port_lem_example =
    list_listeners_by_port_lem small_cloud "cn-hangzhou" 1 "nlb-1" (pos 10000) 0
      ((some listener ∷ []) ∷ []) refl
      (record { items = some listener ∷ []; next_token = "" }, refl, refl, refl) (omega arith)

abbrev client : NlbApiClient ℕ
client = alibaba_nlb_client small_cloud "cn-hangzhou" 2

abbrev guarded : RateLimitedClient ℕ ℕ
guarded = record (new_rate_limited_client client) { get_eip_limiter = some 3 }

answers_no :
    limited allow (some 3) (load_balancer_exists small_cloud "cn-hangzhou" "nlb-1") 0
    ≡ some (ok false, 1)
unfolding limited check_limit load_balancer_exists existence contains
answers_no = refl

load_balancer_exists-Unknown_example :
    (s : ℕ) × (e : GoError) × ((small_cloud.get_load_balancer_attribute "nlb-1" "cn-hangzhou" s).0
      ≡ err e)
    × (says_unknown e ≡ true)
load_balancer_exists-Unknown_example =
    load_balancer_exists-Unknown allow (some 3) small_cloud "cn-hangzhou" "nlb-1" 0 1 refl
      answers_no

-- a cloud that counts the calls and answers each with an error, behind a limiter that has no tokens
abbrev counting : Cloud ℕ
counting c w = (err missing, suc w)

abbrev unknown_to : {A : Type 0} → ℕ × ℕ → Option (Result A × (ℕ × ℕ))
unknown_to s = some (err missing, (s.0, suc s.1))

abbrev counting_client : NlbApiClient (ℕ × ℕ)
counting_client = record {
  create_server_group = λ req. unknown_to;
  create_listener = λ req. unknown_to;
  add_servers_to_server_group = λ req. unknown_to;
  remove_servers_from_server_group = λ req. unknown_to;
  get_job_status = λ id. unknown_to;
  list_server_groups = λ req. unknown_to;
  list_listeners = λ req. unknown_to;
  list_server_group_servers = λ id. unknown_to;
  get_server_group_attribute = λ id. unknown_to;
  delete_server_group = λ id. unknown_to;
  get_listener_attribute = λ id. unknown_to;
  delete_listener = λ id. unknown_to;
  list_server_groups_by_name = λ vpc_id name. unknown_to;
  list_listeners_by_port = λ id port. unknown_to;
  get_load_balancer_eip = λ id. unknown_to;
  load_balancer_exists = λ id. unknown_to;
}

-- only the existence check and the address have a limiter
abbrev throttled : RateLimitedClient ℕ (ℕ × ℕ)
throttled = record (new_rate_limited_client counting_client) { get_eip_limiter = some 3 }

-- the first call is past the limiter, the second is not, the third has none
abbrev three_calls : List ApiCall
three_calls =
    ApiCall.load_balancer_exists "nlb-1"
    ∷ ApiCall.get_load_balancer_eip "nlb-1"
    ∷ ApiCall.delete_listener "lsn-1"
    ∷ []

abbrev spend : ℕ → ℕ → Bool × ℕ
spend most s = (ltb s most, suc s)
