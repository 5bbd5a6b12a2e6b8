-- ===== src/WebApi/Handlers.antt =====
-- web-api/internal/api/handlers: auth.go, users.go and messages.go. Log output is left out.
use posduif.Common.{String, Bool, not, ◌||◌, ◌==◌, Option, none, some, List, if◌then◌else◌}
use posduif.Models.{User, Message}
use posduif.Errors.{Error, Result, ok, err}
use posduif.Errors
use posduif.Database.{Env, M, attempt, ◌>>=◌, new_uuid}
use posduif.Api.{Request, Response, refuse, respond}
use posduif.Api.Enrollments.{contains_text}
use posduif.Api.Messages.{CreateMessageRequest, limit_or, atoi, or_zero, draft}
use posduif.WebApi.Queries.{
  get_user_by_username, create_user, get_all_users, get_web_users, create_message, get_messages,
}

-- The test of err.Error() by which the handlers tell a lost database from other errors.
unfoldable pub is_connection_error : String → Bool
unfolding contains_text
is_connection_error s =
    contains_text "connection refused" s || contains_text "dial" s || contains_text "connect" s

pub record LoginResponse : Type 0 where
  pub user_id : String
  pub username : String
  pub user_type : String

abbrev pub login_response : User → LoginResponse
login_response u = record { user_id = u.id; username = u.username; user_type = u.user_type }

abbrev pub listed : {A : Type 0} → String → Result A → M (Response A)
listed s (err e) = refuse 500 s
listed s (ok a) = respond 200 a

-- The draft of CreateMessage, under its own id.
abbrev pub new_message : String → String → CreateMessageRequest → Message
new_message id user body = record (draft user body) { id = id }

abbrev pub posted : Message × Result (Unit {0}) → M (Response Message)
posted (msg, err e) = refuse 500 "Failed to create message"
posted (msg, ok _) = respond 201 msg

module _ (env : Env) where
  unfoldable pub registered : Result User → M (Response LoginResponse)
  registered (ok u) = respond 200 (login_response u)
  registered (err e) =
      if is_connection_error (Errors.text env.violation e)
      then refuse 503 "Database connection unavailable. Please try again later."
      else refuse 500 "Failed to create user account"

  unfoldable pub logged_in : String → Result User → M (Response LoginResponse)
  logged_in name (ok u) = respond 200 (login_response u)
  logged_in name (err e) =
      if is_connection_error (Errors.text env.violation e)
      then refuse 503 "Database connection unavailable. Please try again later."
      else do r ← attempt (create_user env name); registered r

  abbrev pub log_in : Option String → M (Response LoginResponse)
  log_in none = refuse 400 "Invalid request body"
  log_in (some name) = do found ← attempt (get_user_by_username env name); logged_in name found

  -- Login, with the username of the decoded body
  unfoldable pub login : Request → Option String → M (Response LoginResponse)
  login r body = if not (r.method == "POST") then refuse 405 "Method not allowed" else log_in body

  -- ListUsers
  unfoldable pub list_users : Request → M (Response (List User))
  list_users r = if not (r.method == "GET") then refuse 405 "Method not allowed" else do
    users ← attempt (get_all_users env (r.header "X-User-ID"))
    listed "Failed to get users" users

  unfoldable pub available : Result (List User) → M (Response (List User))
  available (ok users) = respond 200 users
  available (err e) =
      if is_connection_error (Errors.text env.violation e)
      then refuse 503 "Database connection unavailable"
      else refuse 500 "Failed to fetch users"

  -- GetAvailableWebUsers
  unfoldable pub get_available_web_users :
      (String → String → Bool) → Request → M (Response (List User))
  get_available_web_users collation r =
      if not (r.method == "GET")
      then refuse 405 "Method not allowed"
      else do users ← attempt (get_web_users env collation); available users

  unfoldable pub post : String → Option CreateMessageRequest → M (Response Message)
  post user none = refuse 400 "Invalid request body"
  post user (some body) = do
    id ← new_uuid env
    r ← create_message env (new_message id user body)
    posted r

  -- CreateMessage of the handler
  unfoldable pub handle_create_message :
      Request → Option CreateMessageRequest → M (Response Message)
  handle_create_message r body =
      if not (r.method == "POST")
      then refuse 405 "Method not allowed"
      else if r.header "X-User-ID" == ""
      then refuse 401 "User ID required"
      else post (r.header "X-User-ID") body

  -- ListMessages
  unfoldable pub list_messages : Request → M (Response (List Message))
  list_messages r =
      if not (r.method == "GET")
      then refuse 405 "Method not allowed"
      else if r.header "X-User-ID" == ""
      then refuse 401 "User ID required"
      else do
        ms ← attempt (
            get_messages env (r.header "X-User-ID") (limit_or 50 (r.parameter "limit"))
              (or_zero (atoi (r.parameter "offset"))))
        listed "Failed to get messages" ms
