-- ===== src/WebApi/Routes.antt =====
-- web-api/cmd/web-api/main.go and internal/api/middleware/cors.go: which handler a request
-- reaches, inside the CORS middleware.
use posduif.Common.{String, ◌==◌, if◌then◌else◌}

pub data Handler : Type 0 where
  available_users login list_users list_messages create_message : Handler
  preflight method_not_allowed not_found : Handler

abbrev by_method : String → Handler
by_method method =
    if method == "GET"
    then list_messages
    else if method == "POST"
    then create_message
    else method_not_allowed

-- The functions registered at mux; each answers OPTIONS with an empty 200.
unfoldable pub mux : String → String → Handler
mux method path =
    if path == "/api/auth/available-users"
    then (if method == "OPTIONS" then preflight else available_users)
    else if path == "/api/auth/login"
    then (if method == "OPTIONS" then preflight else login)
    else if path == "/api/users"
    then (if method == "OPTIONS" then preflight else list_users)
    else if path == "/api/messages"
    then (if method == "OPTIONS" then preflight else by_method method)
    else not_found

-- The headers that CORS sets on every answer.
pub record CorsHeaders : Type 0 where
  pub allow_origin : String
  pub allow_methods : String
  pub allow_headers : String
  pub max_age : String

abbrev pub cors_headers : CorsHeaders
cors_headers = record {
  allow_origin = "*";
  allow_methods = "GET, POST, PUT, DELETE, OPTIONS";
  allow_headers = "Content-Type, Authorization, X-User-ID";
  max_age = "3600";
}

-- CORS around mux
unfoldable pub serve : String → String → CorsHeaders × Handler
serve method path = (cors_headers, if method == "OPTIONS" then preflight else mux method path)
