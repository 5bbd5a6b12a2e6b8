-- ===== src/System/WebHandlers.antt =====
-- web-api/internal/api/handlers, on the tables.
use posduif.Common.{String, not, ◌==◌, Option, none, some}
use posduif.Models.{User, Message}
use posduif.Errors.{Error, Result, ok, err}
use posduif.Errors
use posduif.Database.{Env}
use posduif.Api.{Request}
use posduif.Api.Messages.{CreateMessageRequest}
use posduif.WebApi.Queries.{get_user_by_username}
use posduif.WebApi.Handlers.{
  is_connection_error, registered, logged_in, log_in, login, posted, post, new_message,
  handle_create_message,
}
use posduif.System.Actions.{
  TableOrder, Within, pure-Within, new_uuid-Within, query-Within, bind-Within, attempt-Within,
  if-Within,
}
use posduif.System.Queries.{Respects}
use posduif.System.WebQueries.{create_user-Within, create_message-Within}

module _ (env : Env) (o : TableOrder) (r : Respects env o) where
  registered-Within : (u : Result User) → Within o (registered env u)
  unfolding registered
  registered-Within (ok u) = pure-Within _
  registered-Within (err e) =
      if-Within (is_connection_error (Errors.text env.violation e)) (pure-Within _) (pure-Within _)

  logged_in-Within : (name : String) (u : Result User) → Within o (logged_in env name u)
  unfolding logged_in
  logged_in-Within name (ok u) = pure-Within _
  logged_in-Within name (err e) =
      if-Within (is_connection_error (Errors.text env.violation e)) (pure-Within _)
        (bind-Within (attempt-Within (create_user-Within env o r name)) λ u. registered-Within u)

  log_in-Within : (body : Option String) → Within o (log_in env body)
  unfolding get_user_by_username
  log_in-Within none = pure-Within _
  log_in-Within (some name) =
      bind-Within (attempt-Within (query-Within env _)) λ u. logged_in-Within name u

  pub login-Within : (q : Request) (body : Option String) → Within o (login env q body)
  unfolding login
  login-Within q body = if-Within (not (q.method == "POST")) (pure-Within _) (log_in-Within body)

  posted-Within : (p : Message × Result (Unit {0})) → Within o (posted p)
  posted-Within (m, ok x) = pure-Within _
  posted-Within (m, err e) = pure-Within _

  post-Within : (user : String) (body : Option CreateMessageRequest) → Within o (post env user body)
  unfolding post
  post-Within user none = pure-Within _
  post-Within user (some body) = bind-Within (new_uuid-Within env) λ id.
      bind-Within (create_message-Within env o r (new_message id user body)) λ p. posted-Within p

  pub handle_create_message-Within :
      (q : Request) (body : Option CreateMessageRequest)
      → Within o (handle_create_message env q body)
  unfolding handle_create_message
  handle_create_message-Within q body = if-Within (not (q.method == "POST")) (pure-Within _) (
      if-Within (q.header "X-User-ID" == "") (pure-Within _)
        (post-Within (q.header "X-User-ID") body))
