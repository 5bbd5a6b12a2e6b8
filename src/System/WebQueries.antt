-- ===== src/System/WebQueries.antt =====
-- web-api/internal/database/queries.go: its two writes of several statements.
use posduif.Common.{String, ◌==◌, some}
use posduif.Models.{User, Message}
use posduif.Errors.{Result, ok, err}
use posduif.Database.{Env}
use posduif.WebApi.Queries.{
  get_user_by_id, update_user, remember_last, after_insert, fill_message, create_message,
  create_user,
}
use posduif.System.Actions.{
  TableOrder, Within, pure-Within, now-Within, new_uuid-Within, query-Within, exec-Within,
  bind-Within, attempt-Within, errorf-Within, if-Within,
}
use posduif.System.Queries.{Respects}

module _ (env : Env) (o : TableOrder) (r : Respects env o) where
  pub create_user-Within : (name : String) → Within o (create_user env name)
  unfolding create_user
  create_user-Within name = bind-Within (new_uuid-Within env) λ id.
      bind-Within (now-Within env) λ t. errorf-Within _ (exec-Within env _ (r.touches id name t))

  remember_last-Within :
      (content : String) (u : Result User) → Within o (remember_last env content u)
  unfolding remember_last update_user
  remember_last-Within content (ok u) =
      bind-Within
        (attempt-Within
          (exec-Within env _ (r.sets_users (record u { last_message_sent = some content }))))
        λ e. pure-Within tt
  remember_last-Within content (err e) = pure-Within tt

  after_insert-Within : (m : Message) (e : Result (Unit {0})) → Within o (after_insert env m e)
  unfolding after_insert get_user_by_id
  after_insert-Within m (ok x) =
      bind-Within (attempt-Within (query-Within env _)) λ u. remember_last-Within m.content u
  after_insert-Within m (err e) = pure-Within tt

  fill_message-Within : (m : Message) → Within o (fill_message env m)
  unfolding fill_message
  fill_message-Within m = bind-Within (now-Within env) λ t.
      bind-Within (if-Within (m.id == "") (new_uuid-Within env) (pure-Within m.id))
        λ id. pure-Within _

  pub create_message-Within : (m : Message) → Within o (create_message env m)
  unfolding create_message
  create_message-Within m = bind-Within (fill_message-Within m) λ filled.
      bind-Within (attempt-Within (exec-Within env _ (r.inserts_message filled)))
        λ e. bind-Within (after_insert-Within filled e) λ _. pure-Within (filled, e)
