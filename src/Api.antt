-- ===== src/Api.antt =====
-- sync-engine/internal/api: what the handlers read of a request and what they answer. JSON bodies
-- are decoded by encoding/json, so a handler takes the decoded body, `none` where decoding fails;
-- an answer is a status with a value instead of its encoding. Log output is left out.
pub mod Auth
pub mod Messages
pub mod Enrollments
pub mod Router
pub mod Cors
pub mod Sync
pub mod Sse
pub mod Users
use posduif.Common.{ℕ, String, Bool, Option}
use posduif.Errors.{Result}
use posduif.Database.{M, pure}

-- `header` and `parameter` give "" where there is none, as Header.Get and Query().Get do; `user`
-- is what GetUserID finds in the context.
pub record Request : Type 0 where
  pub method : String
  pub path : String
  pub header : String → String
  pub parameter : String → String
  pub user : Option String

-- http.Error, or a status with an encoded value.
pub data Response (A : Type 0) : Type 0 where
  failure : ℕ → String → Response A
  reply : ℕ → A → Response A

abbrev pub refuse : {A : Type 0} → ℕ → String → M (Response A)
refuse status s = pure (failure status s)

abbrev pub respond : {A : Type 0} → ℕ → A → M (Response A)
respond status a = pure (reply status a)
