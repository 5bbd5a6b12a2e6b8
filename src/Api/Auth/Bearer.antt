-- ===== src/Api/Auth/Bearer.antt =====
-- middleware/auth.go: who gets past the middleware; handlers/auth.go: what Login looks at.
use posduif.Common.{
  ℕ, String, ◌==◌, ◌≡◌, refl, ap, Option, none, some, List, [], ◌∷◌, arith, Bool-cases, inl, inr,
  eq_iff,
}
use posduif.Common.Text.{split}
use posduif.Errors.{Result, ok}
use posduif.Database.{Env, M, World}
use posduif.Api.{Request, Response, failure}
use posduif.Api.Auth.{
  Jwt, Verdict, rejected, accepted, of_claims, of_parts, authenticate, continue_with, middleware,
  LoginRequest, login,
}

-- A header of two parts, the scheme and a token that the library accepts for the user.
abbrev pub Bears : Jwt → String → String → String → Type 0
Bears jwt secret header user =
    (token : String) × (split b' ' header ≡ "Bearer" ∷ token ∷ [])
    × (jwt.parse secret token ≡ some (some user))

of_claims-accepted :
    (c : Option (Option String)) (user : String)
    → of_claims c ≡ accepted user
    → c ≡ some (some user)
of_claims-accepted none user e = absurd (ground arith)
of_claims-accepted (some none) user e = absurd (ground arith)
of_claims-accepted (some (some u)) user e = ground arith

of_parts-accepted :
    (jwt : Jwt) (secret user : String) (parts : List String)
    → of_parts jwt secret parts ≡ accepted user
    → (token : String) × (parts ≡ "Bearer" ∷ token ∷ [])
      × (jwt.parse secret token ≡ some (some user))
of_parts-accepted jwt secret user (scheme ∷ token ∷ []) e = elim (Bool-cases (scheme == "Bearer")) [
  | inl p ↦ (
    token,
    ap (λ s. s ∷ token ∷ []) ((eq_iff scheme "Bearer").0 p),
    of_claims-accepted (jwt.parse secret token) user (rw p at e),
  )
  | inr p ↦ absurd (ground arith)
]
of_parts-accepted jwt secret user [] e = absurd (ground arith)
of_parts-accepted jwt secret user (scheme ∷ []) e = absurd (ground arith)
of_parts-accepted jwt secret user (scheme ∷ token ∷ more ∷ rest) e = absurd (ground arith)

authenticate-Bears :
    (jwt : Jwt) (secret header user : String)
    → authenticate jwt secret header ≡ accepted user
    → Bears jwt secret header user
unfolding authenticate
authenticate-Bears jwt secret header user e = elim (Bool-cases (header == "")) [
  | inl p ↦ absurd (ground arith)
  | inr p ↦ of_parts-accepted jwt secret user (split b' ' header) (rw p at e)
]

-- A request gets through as its user, or it is answered with 401 and nothing happens.
pub data Guards {A : Type 0} (jwt : Jwt) (secret : String) (next : Request → M (Response A))
    (r : Request) (w : World) (p : Result (Response A) × World) : Type 0 where
  lets_in :
      (user : String)
      → Bears jwt secret (r.header "Authorization") user
      → p ≡ next (record r { user = some user }) w
      → Guards jwt secret next r w p
  keeps_out : (s : String) → p ≡ (ok (failure 401 s), w) → Guards jwt secret next r w p

guarded :
    {A : Type 0} (jwt : Jwt) (secret : String) (next : Request → M (Response A)) (r : Request)
    (w : World) (v : Verdict)
    → authenticate jwt secret (r.header "Authorization") ≡ v
    → Guards jwt secret next r w (continue_with v next r w)
guarded jwt secret next r w (rejected s) e = keeps_out s refl
guarded jwt secret next r w (accepted user) e =
    lets_in user (authenticate-Bears jwt secret (r.header "Authorization") user e) refl

-- The middleware in front of any handler: the handler runs only for a header of exactly two
-- parts, "Bearer" and a token that the JWT library accepts for a user, and then with that user,
-- whatever user the request named; every other request gets 401, and the handler does not run.
pub middleware-Guards :
    {A : Type 0} (jwt : Jwt) (secret : String) (next : Request → M (Response A)) (r : Request)
    (w : World)
    → Guards jwt secret next r w (middleware jwt secret next r w)
unfolding middleware
middleware-Guards jwt secret next r w = guarded jwt secret next r w _ refl

-- Login does not look at the password: two requests with the same username have the same outcome.
pub login_ignores_password :
    (env : Env) (jwt : Jwt) (secret : String) (expiry : ℕ) (r : Request) (body body' : LoginRequest)
    (w : World)
    → body.username ≡ body'.username
    → login env jwt secret expiry r (some body) w ≡ login env jwt secret expiry r (some body') w
unfolding login
login_ignores_password env jwt secret expiry r body body' w e = rw e refl
