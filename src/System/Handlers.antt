-- ===== src/System/Handlers.antt =====
-- sync-engine/internal/api/handlers and sync-engine/internal/enrollment, on the tables.
use posduif.Common.{ℕ, String, not, ◌==◌, Option, none, some, List, [], ◌∷◌}
use posduif.Common.Text.{split}
use posduif.Models.{User, Message, FailedMessage}
use posduif.Errors.{Result, ok, err}
use posduif.Database.{Env, attempt, ◌>>=◌}
use posduif.Database.Users.{get_user_by_id}
use posduif.Database.Messages.{update_message_status}
use posduif.Sync.Manager.{count}
use posduif.Api.{Request, reply, refuse}
use posduif.Api.Messages.{
  CreateMessageRequest, draft, set_last_message, created, send, post, post_for, is_blank,
  handle_create_message, mark_as_read, marked, fourth,
}
use posduif.Api.Sync.{after_upload, upload_from, upload, upload_decoded, upload_outgoing}
use posduif.System.Actions.{
  TableOrder, Within, pure-Within, now-Within, query-Within, bind-Within, attempt-Within, if-Within,
}
use posduif.System.Queries.{
  Respects, update_user-Within, create_message-Within, update_message_status-Within,
}

module _ (env : Env) (o : TableOrder) (r : Respects env o) where
  set_last_message-Within :
      (content : String) (u : Result User) → Within o (set_last_message env content u)
  unfolding set_last_message
  set_last_message-Within content (ok u) =
      bind-Within
        (attempt-Within
          (update_user-Within env o r (record u { last_message_sent = some content })))
        λ e. pure-Within tt
  set_last_message-Within content (err e) = pure-Within tt

  created-Within :
      (user : String) (body : CreateMessageRequest) (m : Message) (e : Result (Unit {0}))
      → Within o (created env user body m e)
  unfolding created get_user_by_id
  created-Within user body m (ok x) =
      bind-Within (attempt-Within (query-Within env _))
        λ u. bind-Within (set_last_message-Within body.content u) λ _. pure-Within (reply 201 m)
  created-Within user body m (err e) = pure-Within _

  send-Within :
      (user : String) (body : CreateMessageRequest) (u : Result User)
      → Within o (send env user body u)
  unfolding send
  send-Within user body (ok u) =
      bind-Within (create_message-Within env o r (draft user body))
        λ p. created-Within user body p.0 p.1
  send-Within user body (err e) = pure-Within _

  post_for-Within :
      (user : Option String) (body : Option CreateMessageRequest)
      → Within o (post_for env user body)
  unfolding post get_user_by_id
  post_for-Within none body = pure-Within _
  post_for-Within (some user) none = pure-Within _
  post_for-Within (some user) (some body) =
      if-Within (is_blank body.content) (pure-Within _)
        (bind-Within (attempt-Within (query-Within env _)) λ u. send-Within user body u)

  pub handle_create_message-Within :
      (q : Request) (body : Option CreateMessageRequest)
      → Within o (handle_create_message env q body)
  unfolding handle_create_message
  handle_create_message-Within q body =
      if-Within (not (q.method == "POST")) (pure-Within _) (post_for-Within q.user body)

  marked-Within : (id : String) (e : Result (Unit {0})) → Within o (marked id e)
  marked-Within id (ok x) = pure-Within _
  marked-Within id (err e) = pure-Within _

  mark_path-Within :
      (part : Option String)
      → Within o (elim part [
        | none ↦ refuse {A = String × String} 400 "Invalid path"
        | some id ↦ do e ← attempt (update_message_status env id "read"); marked id e
      ])
  mark_path-Within none = pure-Within _
  mark_path-Within (some id) =
      bind-Within (attempt-Within (update_message_status-Within env o r id "read"))
        λ e. marked-Within id e

  pub mark_as_read-Within : (q : Request) → Within o (mark_as_read env q)
  unfolding mark_as_read
  mark_as_read-Within q =
      if-Within (not (q.method == "PUT")) (pure-Within _)
        (mark_path-Within (fourth (split b'/' q.path)))

  after_upload-Within : (m : Message) (e : Result (Unit {0})) → Within o (after_upload env m e)
  unfolding after_upload get_user_by_id
  after_upload-Within m (ok x) =
      bind-Within (attempt-Within (query-Within env _)) λ u. set_last_message-Within m.content u
  after_upload-Within m (err e) = pure-Within tt

  upload_from-Within :
      (counts : ℕ × ℕ × List FailedMessage) (ms : List Message)
      → Within o (upload_from env counts ms)
  unfolding upload_from
  upload_from-Within counts [] = pure-Within counts
  upload_from-Within counts (m ∷ ms) = bind-Within (create_message-Within env o r m) λ p.
      bind-Within (after_upload-Within p.0 p.1)
        λ _. upload_from-Within (count env counts (p.0, p.1)) ms

  upload_decoded-Within : (body : Option (List Message)) → Within o (upload_decoded env body)
  unfolding upload
  upload_decoded-Within none = pure-Within _
  upload_decoded-Within (some ms) =
      bind-Within (upload_from-Within (0, 0, []) ms)
        λ p. bind-Within (now-Within env) λ t. record { at = λ w. o.same w.tables }

  pub upload_outgoing-Within :
      (q : Request) (body : Option (List Message)) → Within o (upload_outgoing env q body)
  unfolding upload_outgoing
  upload_outgoing-Within q body =
      if-Within (not (q.method == "POST")) (pure-Within _)
        (if-Within (q.header "X-Device-ID" == "") (pure-Within _) (upload_decoded-Within body))
