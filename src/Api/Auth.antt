-- ===== src/Api/Auth.antt =====
-- sync-engine/internal/api/middleware/auth.go and sync-engine/internal/api/handlers/auth.go. The
-- JWT library is the parameter Jwt: the check of a token's signature, method and expiry with its
-- claims, and the signed text of new claims.
pub mod Bearer
use posduif.Common.{
  ℕ, ◌+◌, ◌-◌, ◌*◌, ◌/◌, ◌^◌, String, Bool, not, ◌==◌, Option, none, some, List, [], ◌∷◌,
  if◌then◌else◌,
}
use posduif.Common.Text.{split}
use posduif.Models.{User}
use posduif.Errors.{Result, ok, err}
use posduif.Database.{Env, M, attempt, ◌>>=◌, now}
use posduif.Database.Users.{get_user_by_username}
use posduif.Api.{Request, Response, refuse, respond}

-- `parse secret t` is `none` where Parse fails or the token is not valid, and else the user_id
-- of its claims, if that is a text. `sign secret user exp` is the token, or `none` on an error.
pub record Jwt : Type 0 where
  pub parse : String → String → Option (Option String)
  pub sign : String → String → ℕ → Option String

pub data Verdict : Type 0 where
  rejected : String → Verdict
  accepted : String → Verdict

abbrev pub of_claims : Option (Option String) → Verdict
of_claims none = rejected "Invalid token"
of_claims (some none) = rejected "Invalid user ID in token"
of_claims (some (some user)) = accepted user

abbrev pub of_parts : Jwt → String → List String → Verdict
of_parts jwt secret (scheme ∷ token ∷ []) =
    if scheme == "Bearer"
    then of_claims (jwt.parse secret token)
    else rejected "Invalid authorization header format"
of_parts jwt secret _ = rejected "Invalid authorization header format"

-- The decision of AuthMiddleware.Middleware on the Authorization header.
unfoldable pub authenticate : Jwt → String → String → Verdict
authenticate jwt secret header =
    if header == ""
    then rejected "Authorization header required"
    else of_parts jwt secret (split b' ' header)

-- AuthMiddleware.Middleware in front of a handler
abbrev pub continue_with :
    {A : Type 0} → Verdict → (Request → M (Response A)) → Request → M (Response A)
continue_with (rejected s) next r = refuse 401 s
continue_with (accepted user) next r = next (record r { user = some user })

unfoldable pub middleware :
    {A : Type 0} → Jwt → String → (Request → M (Response A)) → Request → M (Response A)
middleware jwt secret next r =
    continue_with (authenticate jwt secret (r.header "Authorization")) next r

pub record LoginRequest : Type 0 where
  pub username : String
  pub password : String

pub record LoginResponse : Type 0 where
  pub token : String
  pub user : User
  pub expires_in : ℕ

abbrev signed : ℕ → User → Option String → M (Response LoginResponse)
signed expiry user none = refuse 500 "Failed to generate token"
signed expiry user (some token) =
    respond 200 (record { token = token; user = user; expires_in = expiry })

-- Unix time in seconds, of a time after 1970
abbrev unix : ℕ → ℕ
unix t = t / 10 ^ 9 - 62135596800

module _ (env : Env) (jwt : Jwt) (secret : String) (expiry : ℕ) where
  unfoldable pub issue : Result User → M (Response LoginResponse)
  issue (err e) = refuse 401 "Invalid credentials"
  issue (ok user) = do
    t ← now env
    signed expiry user (jwt.sign secret user.id (unix (t + expiry * 10 ^ 9)))

  abbrev pub log_in : Option LoginRequest → M (Response LoginResponse)
  log_in none = refuse 400 "Invalid request body"
  log_in (some body) = do user ← attempt (get_user_by_username env body.username); issue user

  -- Login
  unfoldable pub login : Request → Option LoginRequest → M (Response LoginResponse)
  login r body = if not (r.method == "POST") then refuse 405 "Method not allowed" else log_in body
