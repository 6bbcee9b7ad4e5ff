-- ===== src/Provider/Errors.antt =====
-- The error predicates of pkg/provider/nlb_api_client.go, pkg/provider/rate_limiter.go and
-- pkg/controller/portallocation_controller.go. A nil error is `none`.
use alibaba_cloud_nlb_pool_o.Base.{Bool, true, false, ◌||◌, Option, none, some, contains}
use alibaba_cloud_nlb_pool_o.World.{GoError, local_rate_limited}

-- ErrLocalRateLimited
abbrev pub err_local_rate_limited : GoError
err_local_rate_limited = record { message = "local rate limited"; reason = local_rate_limited }

-- IsLocalRateLimited
unfoldable pub is_local_rate_limited : Option GoError → Bool
is_local_rate_limited none = false
is_local_rate_limited (some e) = elim e.reason [ local_rate_limited ↦ true | _ ↦ false ]

-- IsNotFoundError
unfoldable pub is_not_found_error : Option GoError → Bool
is_not_found_error none = false
is_not_found_error (some e) =
    contains e.message "ResourceNotFound"
    || contains e.message "ServerNotFound"
    || contains e.message "InvalidListenerId.NotFound"
    || contains e.message "InvalidServerGroupId.NotFound"
    || contains e.message "NotFound"

-- isThrottlingError
unfoldable pub is_throttling_error : Option GoError → Bool
is_throttling_error none = false
is_throttling_error (some e) =
    contains e.message "Throttling"
    || contains e.message "RequestLimitExceeded"
    || contains e.message "ServiceUnavailable"

-- isIncorrectStatusError
unfoldable pub is_incorrect_status_error : Option GoError → Bool
is_incorrect_status_error none = false
is_incorrect_status_error (some e) = contains e.message "IncorrectStatus"

-- isConflictPortError
unfoldable pub is_conflict_port_error : Option GoError → Bool
is_conflict_port_error none = false
is_conflict_port_error (some e) = contains e.message "Conflict.Port"

-- isDuplicatedServerError
unfoldable pub is_duplicated_server_error : Option GoError → Bool
is_duplicated_server_error none = false
is_duplicated_server_error (some e) =
    contains e.message "DuplicatedParam.Server" || contains e.message "ResourceAlreadyExist.Server"

-- isServerNotFoundError
unfoldable pub is_server_not_found_error : Option GoError → Bool
is_server_not_found_error none = false
is_server_not_found_error (some e) =
    contains e.message "ServerNotFound"
    || contains e.message "InvalidParam.Server"
    || contains e.message "ResourceNotFound.Server"
    || contains e.message "ResourceNotFound.BackendServer"

-- isIncorrectStatusBackendServerError
unfoldable pub is_incorrect_status_backend_server_error : Option GoError → Bool
is_incorrect_status_backend_server_error none = false
is_incorrect_status_backend_server_error (some e) =
    contains e.message "IncorrectStatus.BackendServer"

-- `provider.IsLocalRateLimited(err) || isThrottlingError(err)`
abbrev pub is_limited : GoError → Bool
is_limited e = is_local_rate_limited (some e) || is_throttling_error (some e)
