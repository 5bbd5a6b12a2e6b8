-- ===== src/Api/Router.antt =====
-- sync-engine/cmd/sync-engine/main.go: which handler a request reaches, and behind which check. The
-- paths are clean, so http.ServeMux redirects none of them; a pattern that ends in a slash stands
-- for its subtree, any other for itself alone; a path that lacks only that slash is redirected by
-- ServeMux, which counts as not found here.
pub mod Reachable
use Prim.Native.String.{[], ◌∷◌}
use posduif.Common.{String, Bool, true, false, not, ◌&&◌, ◌||◌, ◌==◌, if◌then◌else◌}
use posduif.Api.Enrollments.{has_prefix}

pub data Handler : Type 0 where
  health login create_enrollment get_enrollment complete_enrollment : Handler
  list_messages create_message get_message mark_as_read get_unread_count : Handler
  list_users get_user sync_incoming sync_outgoing sync_status : Handler
  not_found method_not_allowed : Handler

-- Behind the bearer token, or not.
pub data Access : Type 0 where
  bearer unchecked : Access

-- strings.HasSuffix
unfoldable pub has_suffix : String → String → Bool
has_suffix suffix [] = suffix == ""
has_suffix suffix (c ∷ s) = (c ∷ s == suffix) || has_suffix suffix s

-- mux
unfoldable pub public_handler : String → Handler
public_handler path =
    if path == "/health"
    then health
    else if path == "/api/auth/login"
    then login
    else if has_prefix "/api/enrollment/" path
    then (if has_suffix "/complete" path then complete_enrollment else get_enrollment)
    else not_found

abbrev by_method : String → Handler
by_method method =
    if method == "GET"
    then list_messages
    else if method == "POST"
    then create_message
    else method_not_allowed

abbrev by_suffix : String → Handler
by_suffix path = if has_suffix "/read" path then mark_as_read else get_message

-- protectedMux
unfoldable pub protected_handler : String → String → Handler
protected_handler method path =
    if path == "/api/enrollment/create"
    then create_enrollment
    else if path == "/api/messages"
    then by_method method
    else if has_prefix "/api/messages/" path
    then by_suffix path
    else if path == "/api/users"
    then list_users
    else if has_prefix "/api/users/" path
    then get_user
    else not_found

-- deviceMux
unfoldable pub device_handler : String → Handler
device_handler path =
    if path == "/api/sync/incoming"
    then sync_incoming
    else if path == "/api/sync/outgoing"
    then sync_outgoing
    else if path == "/api/sync/status"
    then sync_status
    else if path == "/api/users"
    then list_users
    else if has_prefix "/api/users/" path
    then get_user
    else not_found

-- The function inside corsMiddleware, given the method, the path and the header X-Device-ID.
unfoldable pub route : String → String → String → Access × Handler
route method path device =
    if has_prefix "/api/enrollment/create" path || has_prefix "/api/messages" path
    then (bearer, protected_handler method path)
    else if has_prefix "/api/sync/" path || (has_prefix "/api/users" path && not (device == ""))
    then (unchecked, device_handler path)
    else if has_prefix "/api/users" path
    then (bearer, protected_handler method path)
    else (unchecked, public_handler path)
