-- ===== src/Allocation/Calls/Servers.antt =====
-- The calls of the loops over server groups, and of the choice of a pod.
use alibaba_cloud_nlb_pool_o.Base.{ℕ, String, Bool, List, [], ◌∷◌, Option, some, none}
use alibaba_cloud_nlb_pool_o.Types.{
  PortAllocation, Pod, ServerGroupCloudStatus, ServerStatus, ServerGroupRef, BackendServer, adding,
  removing,
}
use alibaba_cloud_nlb_pool_o.World.{GoError, Proc}
use alibaba_cloud_nlb_pool_o.World.Only.{Only, IsQuiet, only_rules}
use alibaba_cloud_nlb_pool_o.World.Requests.{request_rules}
use alibaba_cloud_nlb_pool_o.Allocation.Helpers.{
  patch_server_status, generate_client_token, clear_pod_claim, remove_servers_round,
  remove_all_servers, is_server_in_sg,
}
use alibaba_cloud_nlb_pool_o.Allocation.Available.{consider, find_candidate}
use alibaba_cloud_nlb_pool_o.Allocation.Binding.{
  mark_server, confirm_added, add_server, bind_by_status, bind_group,
}
use alibaba_cloud_nlb_pool_o.Allocation.Bound.{
  confirm_removed, remove_server, disable_by_status, disable_group,
}
use alibaba_cloud_nlb_pool_o.Allocation.Releasing.{
  Release, releasing_since, remove_listed, release_group,
}

ruleset rules = (only_rules, request_rules)

pub clear_pod_claim-IsQuiet : (pa : PortAllocation) → Only IsQuiet (clear_pod_claim pa)
unfolding clear_pod_claim
clear_pod_claim-IsQuiet pa = search rules depth 8

remove_servers_round-IsQuiet :
    (pa : PortAllocation) (sg : ServerGroupRef) (s : Bool × Option GoError)
    → Only IsQuiet (remove_servers_round pa sg s)
unfolding remove_servers_round generate_client_token
remove_servers_round-IsQuiet pa sg (b, some e) = search rules
remove_servers_round-IsQuiet pa sg (b, none) = search rules depth 9

pub remove_all_servers-IsQuiet : (pa : PortAllocation) → Only IsQuiet (remove_all_servers pa)
unfolding remove_all_servers
remove_all_servers-IsQuiet pa = search (rules, remove_servers_round-IsQuiet) depth 8

consider-IsQuiet :
    (pa : PortAllocation) (p : Pod) (rest : Proc (Option Pod))
    → Only IsQuiet rest
    → Only IsQuiet (consider pa p rest)
unfolding consider
consider-IsQuiet pa p rest k = search rules depth 8

pub find_candidate-IsQuiet :
    (pa : PortAllocation) (pods : List Pod) → Only IsQuiet (find_candidate pa pods)
unfolding find_candidate
find_candidate-IsQuiet pa [] = search rules
find_candidate-IsQuiet pa (p ∷ pods) =
    search (rules, consider-IsQuiet, find_candidate-IsQuiet pa pods)

module _ (pa : PortAllocation) (i : ℕ) where
  pub mark_server-IsQuiet : (status : ServerStatus) → Only IsQuiet (mark_server pa i status)
  unfolding mark_server patch_server_status
  mark_server-IsQuiet status = search rules depth 8

  is_server_in_sg-IsQuiet : (id ip : String) → Only IsQuiet (is_server_in_sg id ip)
  unfolding is_server_in_sg
  is_server_in_sg-IsQuiet id ip = search rules depth 8

  module _ (sg : ServerGroupCloudStatus) where
    confirm_added-IsQuiet : Only IsQuiet (confirm_added pa i sg)
    unfolding confirm_added
    confirm_added-IsQuiet = search (rules, is_server_in_sg-IsQuiet, mark_server-IsQuiet) depth 9

    add_server-IsQuiet : Only IsQuiet (add_server pa i sg)
    unfolding add_server generate_client_token
    add_server-IsQuiet = search (rules, mark_server-IsQuiet) depth 11

    bind_by_status-IsQuiet : (status : ServerStatus) → Only IsQuiet (bind_by_status pa i sg status)
    unfolding bind_by_status
    bind_by_status-IsQuiet adding = confirm_added-IsQuiet
    bind_by_status-IsQuiet _ = search (rules, add_server-IsQuiet)

    confirm_removed-IsQuiet : Only IsQuiet (confirm_removed pa i sg)
    unfolding confirm_removed
    confirm_removed-IsQuiet = search (rules, is_server_in_sg-IsQuiet, mark_server-IsQuiet) depth 9

    remove_server-IsQuiet : Only IsQuiet (remove_server pa i sg)
    unfolding remove_server generate_client_token
    remove_server-IsQuiet = search (rules, mark_server-IsQuiet) depth 11

    disable_by_status-IsQuiet :
        (status : ServerStatus) → Only IsQuiet (disable_by_status pa i sg status)
    unfolding disable_by_status
    disable_by_status-IsQuiet removing = confirm_removed-IsQuiet
    disable_by_status-IsQuiet _ = search (rules, remove_server-IsQuiet)

pub bind_group-IsQuiet :
    (i : ℕ) (sg : ServerGroupCloudStatus) (s : PortAllocation × Bool)
    → Only IsQuiet (bind_group i sg s)
unfolding bind_group
bind_group-IsQuiet i sg (pa, b) = search (rules, bind_by_status-IsQuiet) depth 8

pub disable_group-IsQuiet :
    (i : ℕ) (sg : ServerGroupCloudStatus) (s : PortAllocation × Bool)
    → Only IsQuiet (disable_group i sg s)
unfolding disable_group
disable_group-IsQuiet i sg (pa, b) = search (rules, disable_by_status-IsQuiet) depth 8

pub releasing_since-IsQuiet : (pa : PortAllocation) → Only IsQuiet (releasing_since pa)
unfolding releasing_since
releasing_since-IsQuiet pa = search rules depth 9

remove_listed-IsQuiet :
    (pa : PortAllocation) (id : String) (servers : List BackendServer) (b : Bool)
    → Only IsQuiet (remove_listed pa id servers b)
unfolding remove_listed generate_client_token
remove_listed-IsQuiet pa id [] b = search rules
remove_listed-IsQuiet pa id (s ∷ servers) b =
    search (rules, remove_listed-IsQuiet pa id servers) depth 11

pub release_group-IsQuiet :
    (i : ℕ) (sg : ServerGroupCloudStatus) (st : Release) → Only IsQuiet (release_group i sg st)
unfolding release_group
release_group-IsQuiet i sg st = search (rules, mark_server-IsQuiet, remove_listed-IsQuiet) depth 10
