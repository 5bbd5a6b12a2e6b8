-- ===== src/Api/Cors.antt =====
-- sync-engine/internal/api/middleware/cors.go.
pub mod Origins
use Prim.Native.String.{◌++◌ as append}
use posduif.Common.{
  String, Bool, true, false, not, ◌&&◌, ◌||◌, ◌==◌, Option, none, some, List, [], ◌∷◌, any,
  if◌then◌else◌,
}
use posduif.Database.{World}
use posduif.Errors.{Result}
use posduif.Database.{M}
use posduif.Api.{Request, Response, refuse}

-- CORSMiddleware
pub record CorsMiddleware : Type 0 where
  pub allowed_origins : List String
  pub allowed_methods : List String
  pub allowed_headers : List String

-- The headers that the middleware sets; Access-Control-Allow-Credentials is always "true" and
-- Access-Control-Max-Age "3600".
pub record CorsHeaders : Type 0 where
  pub allow_origin : Option String
  pub allow_methods : String
  pub allow_headers : String

abbrev pub is_allowed : List String → String → Bool
is_allowed origins origin = any (λ a. (origin == a) || (a == "*")) origins

abbrev starts_with_star : List String → Bool
starts_with_star [] = false
starts_with_star (o ∷ os) = o == "*"

-- joinStrings
unfoldable pub join_rest : String → String → List String → String
join_rest result sep [] = result
join_rest result sep (s ∷ strs) = join_rest (append result (append sep s)) sep strs

unfoldable pub join_strings : List String → String → String
unfolding join_rest
join_strings [] sep = ""
join_strings (s ∷ strs) sep = join_rest s sep strs

-- Access-Control-Allow-Origin for the headers Origin and X-Forwarded-Host
unfoldable pub allow_origin_of : List String → String → String → Option String
allow_origin_of origins origin forwarded_host =
    if not (forwarded_host == "")
    then (if not (origin == "") then some origin else some "*")
    else if is_allowed origins origin && not (origin == "")
    then some origin
    else if starts_with_star origins
    then some "*"
    else none

abbrev pub cors_headers : CorsMiddleware → Request → CorsHeaders
cors_headers m r = record {
  allow_origin =
      allow_origin_of m.allowed_origins (r.header "Origin") (r.header "X-Forwarded-Host");
  allow_methods = join_strings m.allowed_methods ", ";
  allow_headers = join_strings m.allowed_headers ", ";
}

-- CORSMiddleware.Middleware in front of a handler: the headers, and what is answered. A preflight
-- has the status 204 and no body.
unfoldable pub cors :
    {A : Type 0}
    → CorsMiddleware
    → (Request → M (Response A))
    → Request
    → World
    → CorsHeaders × (Result (Response A) × World)
cors m next r w = (cors_headers m r, if r.method == "OPTIONS" then refuse 204 "" w else next r w)
