-- ===== src/Provider/Cloud.antt =====
-- pkg/provider/alibaba_nlb_client.go: AlibabaNLBClient over the SDK. The two lookups page through a listing
-- while the answer has a next token: they are on fuel.
use alibaba_cloud_nlb_pool_o.Base.{
  ℕ, zero, suc, String, Bool, true, false, List, [], ◌∷◌, Option, none, some, ℤ, pos, eq_ℤ, map,
  not, contains, show_ℤ, ◌<>◌, ◌==◌, ◌&&◌, ◌||◌, if◌then◌else◌,
}
use alibaba_cloud_nlb_pool_o.Types.{
  CreateServerGroupRequest, CreateServerGroupResponse, CreateListenerRequest,
  CreateListenerResponse, BackendServer, ServersRequest, JobResponse, ServerGroupAttribute,
  ListenerAttribute,
}
use alibaba_cloud_nlb_pool_o.World.{GoError, unclassified, wrapped, Result, ok, err}
use alibaba_cloud_nlb_pool_o.Provider.Errors.{is_not_found_error}
use alibaba_cloud_nlb_pool_o.Provider.Client.{
  Act, ListServerGroupsRequest, ServerGroupSummary, ListListenersRequest, ListenerSummary,
  NlbApiClient,
}
use alibaba_cloud_nlb_pool_o.Provider.Sdk.{
  SdkServer, SdkServersRequest, SdkListServerGroups, SdkListListeners, SdkServerGroup, SdkListener,
  Page, SdkLoadBalancer, SdkAct, Sdk,
}

-- `fmt.Errorf("…: nil response body")`
abbrev pub nil_body : String → GoError
nil_body name = record { message = name <> ": nil response body"; reason = unclassified }

-- `if err != nil { … }`, then `if resp == nil || resp.Body == nil { … }`
abbrev pub checked : {A B : Type 0} → String → String → (A → B) → Result (Option A) → Result B
checked name context f (err e) = err (wrapped (name <> " API error" <> context) e)
checked name context f (ok none) = err (nil_body name)
checked name context f (ok (some body)) = ok (f body)

-- the answer with the state of the world
abbrev pub answered : {S A B : Type 0} → (A → Result B) → A × S → Option (Result B × S)
answered f (r, s) = some (f r, s)

-- the elements that are not nil
unfoldable pub present : {A : Type 0} → List (Option A) → List A
present [] = []
present (none ∷ xs) = present xs
present (some x ∷ xs) = x ∷ present xs

-- the first element that passes a test
unfoldable pub first : {A : Type 0} → (A → Bool) → List A → Option A
first p [] = none
first p (x ∷ xs) = if p x then some x else first p xs

abbrev pub with_weight : BackendServer → SdkServer
with_weight s = record {
  server_type = s.server_type;
  server_id = s.server_id;
  server_ip = s.server_ip;
  port = s.port;
  weight = some s.weight;
}

abbrev pub without_weight : BackendServer → SdkServer
without_weight s = record {
  server_type = s.server_type;
  server_id = s.server_id;
  server_ip = s.server_ip;
  port = s.port;
  weight = none;
}

abbrev pub backend_of : SdkServer → BackendServer
backend_of s = record {
  server_type = s.server_type;
  server_id = s.server_id;
  server_ip = s.server_ip;
  port = s.port;
  weight = pos 0;
}

abbrev pub optional : String → Option String
optional s = if not (s == "") then some s else none

abbrev pub attribute_of : SdkServerGroup → ServerGroupAttribute
attribute_of sg = record {
  server_group_id = sg.server_group_id;
  server_group_name = sg.server_group_name;
  server_group_status = sg.server_group_status;
  vpc_id = sg.vpc_id;
}

abbrev pub listener_attribute_of : SdkListener → ListenerAttribute
listener_attribute_of l = record {
  listener_id = l.listener_id;
  listener_status = l.listener_status;
  listener_port = l.listener_port;
  listener_protocol = l.listener_protocol;
  load_balancer_id = l.load_balancer_id;
  server_group_id = l.server_group_id;
}

-- an answer in which a missing object is no error
abbrev pub tolerant :
    {A B : Type 0} → B → (Result (Option A) → Result B) → Result (Option A) → Result B
tolerant missing f (err e) = if is_not_found_error (some e) then ok missing else f (err e)
tolerant missing f (ok body) = f (ok body)

-- a lookup whose listing failed: a missing object is no error
abbrev pub page_failure : String → String → GoError → Result String
page_failure name context e =
    if is_not_found_error (some e) then ok "" else err (wrapped (name <> " API error" <> context) e)

-- an answer whose body is not read
abbrev pub ignored : {A : Type 0} → String → Result (Option A) → Result {0} Unit
ignored context (err e) = err (wrapped context e)
ignored context (ok body) = ok tt

-- LoadBalancerExists: what the answer of the SDK means
unfoldable pub existence : {A : Type 0} → Result (Option A) → Result Bool
existence (ok body) = ok true
existence (err e) =
    if contains e.message "ResourceNotFound" || contains e.message "InvalidResourceId"
    then ok false
    else err (wrapped "GetLoadBalancerAttribute API error" e)

-- the first address that is not blank
abbrev pub or_blank_address : Option String → String
or_blank_address none = ""
or_blank_address (some ip) = ip

unfoldable pub first_address : List (Option (List (Option String))) → String
unfolding present first
first_address [] = ""
first_address (none ∷ zms) = first_address zms
first_address (some addresses ∷ zms) =
    let rest = first_address zms in
    elim (first (λ ip. not (ip == "")) (present addresses)) [ none ↦ rest | some ip ↦ ip ]

-- the requests of the two lookups, the setting of their next token, and what they look for
abbrev pub groups_named : String → String → SdkListServerGroups
groups_named vpc_id name = record {
  server_group_ids = [];
  server_group_names = name ∷ [];
  vpc_id = optional vpc_id;
  next_token = none;
}

abbrev pub next_groups : String → SdkListServerGroups → SdkListServerGroups
next_groups token request = record request { next_token = some token }

abbrev pub is_group_named : String → String → SdkServerGroup → Bool
is_group_named vpc_id name sg =
    sg.server_group_name == name && (vpc_id == "" || sg.vpc_id == vpc_id)

abbrev pub listeners_of : String → SdkListListeners
listeners_of id = record {
  load_balancer_ids = id ∷ [];
  listener_protocol = none;
  next_token = none;
}

abbrev pub next_listeners : String → SdkListListeners → SdkListListeners
next_listeners token request = record request { next_token = some token }

abbrev pub is_listener_at : String → ℤ → SdkListener → Bool
is_listener_at id port l = l.load_balancer_id == id && eq_ℤ l.listener_port port

module _ {S A : Type 0} where
  -- what a page settles: the element that was found, or the end of the listing, or the next page
  unfoldable pub in_page : (A → String) → Option A → String → (String → Act S String) → Act S String
  in_page id_of none token more s = if token == "" then some (ok "", s) else more token s
  in_page id_of (some x) token more s = some (ok (id_of x), s)

  -- the body of the loop, for the answer of the SDK; `more` goes on with the next page
  unfoldable pub after_page :
      String
      → String
      → (A → Bool)
      → (A → String)
      → (String → Act S String)
      → Result (Option (Page A)) × S
      → Option (Result String × S)
  unfolding in_page present first
  after_page name context matches id_of more (err e, s) = some (page_failure name context e, s)
  after_page name context matches id_of more (ok none, s) = some (err (nil_body name), s)
  after_page name context matches id_of more (ok (some body), s) =
      in_page id_of (first matches (present body.items)) body.next_token more s

module _ {S : Type 0} (sdk : Sdk S) (region : String) where
  -- CreateServerGroup
  unfoldable pub create_server_group : CreateServerGroupRequest → Act S CreateServerGroupResponse
  create_server_group req s =
      answered (checked "CreateServerGroup" "" (λ body. body))
        (sdk.create_server_group req region s)

  -- CreateListener
  unfoldable pub create_listener : CreateListenerRequest → Act S CreateListenerResponse
  create_listener req s =
      answered (checked "CreateListener" "" (λ body. body)) (sdk.create_listener req region s)

  -- AddServersToServerGroup
  unfoldable pub add_servers_to_server_group : ServersRequest → Act S JobResponse
  add_servers_to_server_group req s =
      let request : SdkServersRequest = record {
        server_group_id = req.server_group_id;
        servers = map with_weight req.servers;
        client_token = req.client_token;
      } in
      answered (checked "AddServersToServerGroup" "" (λ body. body))
        (sdk.add_servers request region s)

  -- RemoveServersFromServerGroup
  unfoldable pub remove_servers_from_server_group : ServersRequest → Act S JobResponse
  remove_servers_from_server_group req s =
      let request : SdkServersRequest = record {
        server_group_id = req.server_group_id;
        servers = map without_weight req.servers;
        client_token = req.client_token;
      } in
      answered (checked "RemoveServersFromServerGroup" "" (λ body. body))
        (sdk.remove_servers request region s)

  -- ListServerGroupServers
  unfoldable pub list_server_group_servers : String → Act S (List BackendServer)
  list_server_group_servers id s =
      answered (checked "ListServerGroupServers" "" (map backend_of))
        (sdk.list_servers id (pos 100) region s)

  -- GetJobStatus
  unfoldable pub get_job_status : String → Act S String
  get_job_status id s =
      answered (checked "GetJobStatus" "" (λ body. body)) (sdk.get_job_status id s)

  -- ListServerGroups
  unfoldable pub list_server_groups : ListServerGroupsRequest → Act S (List ServerGroupSummary)
  unfolding present
  list_server_groups req s =
      let request : SdkListServerGroups = record {
        server_group_ids = [];
        server_group_names = req.server_group_names;
        vpc_id = optional req.vpc_id;
        next_token = none;
      } in
      answered
        (checked "ListServerGroups" "" λ (body : Page SdkServerGroup).
          map
            (λ (sg : SdkServerGroup). record {
              server_group_id = sg.server_group_id;
              server_group_name = sg.server_group_name;
            })
            (present body.items))
        (sdk.list_server_groups request region s)

  -- ListListeners
  unfoldable pub list_listeners : ListListenersRequest → Act S (List ListenerSummary)
  unfolding present
  list_listeners req s =
      let request : SdkListListeners = record {
        load_balancer_ids =
            if not (req.load_balancer_id == "") then req.load_balancer_id ∷ [] else [];
        listener_protocol = optional req.listener_protocol;
        next_token = none;
      } in
      answered
        (checked "ListListeners" "" λ (body : Page SdkListener).
          map
            (λ (l : SdkListener). record {
              listener_id = l.listener_id;
              listener_port = l.listener_port;
              listener_protocol = l.listener_protocol;
              load_balancer_id = l.load_balancer_id;
            })
            (present body.items))
        (sdk.list_listeners request region s)

  -- GetServerGroupAttribute
  unfoldable pub get_server_group_attribute : String → Act S (Option ServerGroupAttribute)
  unfolding present first
  get_server_group_attribute id s =
      if id == ""
      then some (ok none, s)
      else let request : SdkListServerGroups = record {
        server_group_ids = id ∷ [];
        server_group_names = [];
        vpc_id = none;
        next_token = none;
      } in
        answered
          (λ resp.
            tolerant none
              (checked "GetServerGroupAttribute" (" (id=" <> id <> ")")
                λ (body : Page SdkServerGroup).
                  elim (first (λ (sg : SdkServerGroup). sg.server_group_id == id)
                    (present body.items)) [ none ↦ none | some sg ↦ some (attribute_of sg) ])
              resp)
          (sdk.list_server_groups request region s)

  -- DeleteServerGroup
  unfoldable pub delete_server_group : String → Act S Unit
  delete_server_group id s =
      if id == ""
      then some (ok tt, s)
      else answered (tolerant tt (ignored ("DeleteServerGroup API error (id=" <> id <> ")")))
          (sdk.delete_server_group id region s)

  -- GetListenerAttribute
  unfoldable pub get_listener_attribute : String → Act S (Option ListenerAttribute)
  get_listener_attribute id s =
      if id == ""
      then some (ok none, s)
      else answered
          (tolerant none (
            checked "GetListenerAttribute" (" (id=" <> id <> ")")
              λ body. some (listener_attribute_of body)))
          (sdk.get_listener_attribute id s)

  -- DeleteListener
  unfoldable pub delete_listener : String → Act S Unit
  delete_listener id s =
      if id == ""
      then some (ok tt, s)
      else answered (tolerant tt (ignored ("DeleteListener API error (id=" <> id <> ")")))
          (sdk.delete_listener id s)

  -- GetLoadBalancerEIP
  unfoldable pub get_load_balancer_eip : String → Act S String
  unfolding first_address
  get_load_balancer_eip id s =
      if id == ""
      then some (
        err (record {
          message = "GetLoadBalancerEIP: loadBalancerId is empty";
          reason = unclassified;
        }),
        s,
      )
      else answered
          (checked "GetLoadBalancerAttribute" ""
            λ (body : SdkLoadBalancer). first_address body.zone_mappings)
          (sdk.get_load_balancer_attribute id region s)

  -- LoadBalancerExists
  unfoldable pub load_balancer_exists : String → Act S Bool
  unfolding existence
  load_balancer_exists id s =
      if id == ""
      then some (ok false, s)
      else answered existence (sdk.get_load_balancer_attribute id region s)

  -- the loop of a lookup, over the pages from `request` on; `next` sets the token of the next page
  unfoldable pub find_in_pages :
      {R A : Type 0}
      → (R → String → SdkAct S (Page A))
      → (String → R → R)
      → String
      → String
      → (A → Bool)
      → (A → String)
      → ℕ
      → R
      → Act S String
  unfolding after_page
  find_in_pages list next name context matches id_of zero request s = none
  find_in_pages list next name context matches id_of (suc fuel) request s =
      after_page name context matches id_of
        (λ token. find_in_pages list next name context matches id_of fuel (next token request))
        (list request region s)

  -- ListServerGroupsByName
  unfoldable pub list_server_groups_by_name : ℕ → String → String → Act S String
  unfolding find_in_pages
  list_server_groups_by_name fuel vpc_id name s =
      if name == ""
      then some (ok "", s)
      else find_in_pages sdk.list_server_groups next_groups "ListServerGroupsByName"
          (" (name=" <> name <> ")") (is_group_named vpc_id name) (λ sg. sg.server_group_id) fuel
          (groups_named vpc_id name) s

  -- ListListenersByPort
  unfoldable pub list_listeners_by_port : ℕ → String → ℤ → Act S String
  unfolding find_in_pages
  list_listeners_by_port fuel id port s =
      if id == ""
      then some (ok "", s)
      else find_in_pages sdk.list_listeners next_listeners "ListListenersByPort"
          (" (nlb=" <> id <> ", port=" <> show_ℤ port <> ")") (is_listener_at id port)
          (λ l. l.listener_id) fuel (listeners_of id) s

  -- AlibabaNLBClient as a client; `fuel` bounds the pages of a lookup
  unfoldable pub alibaba_nlb_client : ℕ → NlbApiClient S
  unfolding create_server_group create_listener add_servers_to_server_group
      remove_servers_from_server_group get_job_status list_server_groups list_listeners
      list_server_group_servers get_server_group_attribute delete_server_group
      get_listener_attribute delete_listener list_server_groups_by_name list_listeners_by_port
      get_load_balancer_eip load_balancer_exists
  alibaba_nlb_client fuel = record {
    create_server_group = create_server_group;
    create_listener = create_listener;
    add_servers_to_server_group = add_servers_to_server_group;
    remove_servers_from_server_group = remove_servers_from_server_group;
    get_job_status = get_job_status;
    list_server_groups = list_server_groups;
    list_listeners = list_listeners;
    list_server_group_servers = list_server_group_servers;
    get_server_group_attribute = get_server_group_attribute;
    delete_server_group = delete_server_group;
    get_listener_attribute = get_listener_attribute;
    delete_listener = delete_listener;
    list_server_groups_by_name = list_server_groups_by_name fuel;
    list_listeners_by_port = list_listeners_by_port fuel;
    get_load_balancer_eip = get_load_balancer_eip;
    load_balancer_exists = load_balancer_exists;
  }
