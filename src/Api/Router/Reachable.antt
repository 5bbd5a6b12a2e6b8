-- ===== src/Api/Router/Reachable.antt =====
-- main.go: what is reached without a token, and what is not reached at all.
use posduif.Common.{String, Bool, true, false, ◌≡◌, ◌≢◌, arith}
use posduif.Api.Router.{
  Handler, bearer, route, public_handler, protected_handler, device_handler, list_messages,
  create_message, get_message, mark_as_read, get_unread_count, create_enrollment,
}

-- The handlers that act for a web user.
abbrev pub is_private : Handler → Bool
is_private list_messages = true
is_private create_message = true
is_private get_message = true
is_private mark_as_read = true
is_private create_enrollment = true
is_private _ = false

public_not_private : (path : String) → is_private (public_handler path) ≡ false
unfolding public_handler
public_not_private path = ground arith

device_not_private : (path : String) → is_private (device_handler path) ≡ false
unfolding device_handler
device_not_private path = ground arith

-- Whatever the method, the path and the device header of a request, it reaches the handlers for
-- messages and the creation of enrollments only behind the bearer token.
pub private_needs_bearer :
    (method path device : String)
    → is_private (route method path device).1 ≡ true
    → (route method path device).0 ≡ bearer
unfolding route
private_needs_bearer method path device h =
    ground (arith, public_not_private path, device_not_private path)

abbrev is_unread_count : Handler → Bool
is_unread_count get_unread_count = true
is_unread_count _ = false

never_counts : (method path device : String) → is_unread_count (route method path device).1 ≡ false
unfolding route public_handler device_handler protected_handler
never_counts method path device = ground arith

-- No request reaches GetUnreadCount, by any method or path.
pub unread_count_unreachable :
    (method path device : String) → (route method path device).1 ≢ get_unread_count
unread_count_unreachable method path device e = ground (arith, never_counts method path device)
