-- ===== src/Api/Cors/Origins.antt =====
-- cors.go: which origins are named in the answer.
use posduif.Common.{
  String, Bool, Option, none, not, true, false, ◌||◌, ◌==◌, ◌≡◌, arith, some, List, [], ◌∷◌, eq_iff,
  eq_refl,
}
use posduif.Api.{Request}
use posduif.Api.Cors.{CorsMiddleware, is_allowed, allow_origin_of, cors_headers}

allow_listed :
    (origins : List String) (origin forwarded o : String)
    → (forwarded == "") ≡ true
    → allow_origin_of origins origin forwarded ≡ some o
    → (is_allowed origins origin ≡ true) × (((o == origin) || (o == "*")) ≡ true)
unfolding allow_origin_of
allow_listed [] origin forwarded o h e = absurd (ground arith)
allow_listed (a ∷ more) origin forwarded o h e =
    (ground arith, ground (arith, eq_refl origin, eq_iff o origin, eq_iff o "*"))

-- Without an X-Forwarded-Host, an origin that is named in the answer is the request's, or "*", and
-- the list of the configuration has that origin or "*" in it.
pub listed_origins_only :
    (m : CorsMiddleware) (r : Request) (o : String)
    → (r.header "X-Forwarded-Host" == "") ≡ true
    → (cors_headers m r).allow_origin ≡ some o
    → (is_allowed m.allowed_origins (r.header "Origin") ≡ true)
      × (((o == r.header "Origin") || (o == "*")) ≡ true)
listed_origins_only m r o h e =
    allow_listed m.allowed_origins (r.header "Origin") (r.header "X-Forwarded-Host") o h e

abbrev pub names : Option String → String → Bool
names none origin = false
names (some o) origin = o == origin

named_iff :
    (origins : List String) (origin forwarded : String)
    → (origin == "") ≡ false
    → names (allow_origin_of origins origin forwarded) origin
      ≡ (not (forwarded == "") || is_allowed origins origin)
unfolding allow_origin_of
named_iff [] origin forwarded k = ground (arith, eq_refl origin)
named_iff (a ∷ more) origin forwarded k = ground (arith, eq_refl origin)

-- The answer to a request with an origin names that origin in exactly two cases: the list of the
-- configuration has it, or "*", or the request has an X-Forwarded-Host, with any list.
pub origin_named_iff :
    (m : CorsMiddleware) (r : Request)
    → (r.header "Origin" == "") ≡ false
    → names (cors_headers m r).allow_origin (r.header "Origin") ≡ (
        not (r.header "X-Forwarded-Host" == "") || is_allowed m.allowed_origins (r.header "Origin"))
origin_named_iff m r k =
    named_iff m.allowed_origins (r.header "Origin") (r.header "X-Forwarded-Host") k
