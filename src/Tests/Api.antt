-- ===== src/Tests/Api.antt =====
-- The theorems on the handlers, on the sample tenant.
use posduif.Common.{not, ◌||◌, String, ◌==◌, ◌≡◌, refl, none, some, [], ◌∷◌, if◌then◌else◌}
use posduif.Database.{World}
use posduif.Enrollment.{CompleteEnrollmentRequest}
use posduif.Api.{Request}
use posduif.Api.Auth.{Jwt, LoginRequest, middleware}
use posduif.Api.Auth.Bearer.{Guards, middleware-Guards}
use posduif.Api.Cors.{CorsMiddleware, is_allowed, cors_headers}
use posduif.Api.Cors.Origins.{names, origin_named_iff}
use posduif.Api.Enrollments.{has_prefix}
use posduif.Api.Messages.{CreateMessageRequest, get_message, handle_create_message}
use posduif.Api.Messages.Posting.{Posts, handle_create_message-Posts}
use posduif.Api.Router.{bearer, has_suffix, protected_handler, route}
use posduif.Api.Router.Reachable.{private_needs_bearer}
use posduif.Tests.{env, token, world}

-- A request from alice's phone.
abbrev request : String → String → Request
request method path = record {
  method = method;
  path = path;
  header = λ name.
      if name == "X-Device-ID"
      then "phone-a"
      else if name == "Authorization"
      then "Bearer abc"
      else "";
  parameter = λ name. "";
  user = some "alice";
}

abbrev letter : CreateMessageRequest
letter = record { recipient_id = "bob"; content = "good morning" }

handle_create_message-Posts_example :
    Posts
      (request "POST" "/api/messages")
      (some letter)
      world
      (handle_create_message env (request "POST" "/api/messages") (some letter) world)
handle_create_message-Posts_example =
    handle_create_message-Posts env (request "POST" "/api/messages") (some letter) world

abbrev put_read : Request
put_read = request "PUT" "/api/messages/m1/read"

-- A library that knows one token.
abbrev jwt : Jwt
jwt = record {
  parse = λ secret t. if t == "abc" then some (some "alice") else none;
  sign = λ secret user exp. some "abc";
}

middleware-Guards_example :
    Guards jwt "key"
      (get_message env)
      (request "GET" "/api/messages/m1")
      world
      (middleware jwt "key" (get_message env) (request "GET" "/api/messages/m1") world)
middleware-Guards_example =
    middleware-Guards jwt "key" (get_message env) (request "GET" "/api/messages/m1") world

abbrev right : LoginRequest
right = record { username = "alice"; password = "right" }

abbrev wrong : LoginRequest
wrong = record { username = "alice"; password = "wrong" }

-- The token was used before.
abbrev late : World
late = record world {
  tables = record world.tables { tokens = record token { used_at = some 2 } ∷ [] };
}

abbrev eve : CompleteEnrollmentRequest
eve = record { token = "secret"; device_id = "phone-e"; username = "eve" }

private_needs_bearer_example : (route "PUT" "/api/messages/m1/read" "").0 ≡ bearer
unfolding route has_prefix has_suffix protected_handler
private_needs_bearer_example = private_needs_bearer "PUT" "/api/messages/m1/read" "" refl

abbrev cors : CorsMiddleware
cors = record {
  allowed_origins = "https://app" ∷ [];
  allowed_methods = "GET" ∷ [];
  allowed_headers = "Authorization" ∷ [];
}

abbrev from_app : Request
from_app = record (request "GET" "/api/messages") {
  header = λ name. if name == "Origin" then "https://app" else "";
}

abbrev forwarded : Request
forwarded = record (request "GET" "/api/messages") {
  header = λ name.
      if name == "Origin"
      then "https://other"
      else if name == "X-Forwarded-Host"
      then "any"
      else "";
}

origin_named_iff_example : names (cors_headers cors forwarded).allow_origin "https://other" ≡ (
    not (forwarded.header "X-Forwarded-Host" == "")
    || is_allowed cors.allowed_origins "https://other")
origin_named_iff_example = origin_named_iff cors forwarded refl
