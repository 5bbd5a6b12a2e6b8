-- ===== src/System/Queries.antt =====
-- queries.go of both servers: every write of the program moves the tables along a relation that
-- the SQL statements respect.
use posduif.Common.{ℕ, String, ◌==◌}
use posduif.Models.{User, Message, EnrollmentToken, SyncMetadata}
use posduif.Database.{Env}
use posduif.Database.Users.{insert_user, set_users, create_user, update_user}
use posduif.Database.Messages.{
  insert_message, write_status, fill_message, create_message, update_message_status,
}
use posduif.Database.Tokens.{
  insert_token, use_token, re_enroll, insert_or_adopt, create_enrollment_token, complete_enrollment,
}
use posduif.Database.Tokens.Body.{enrollment_body-Inside}
use posduif.Database.Metadata.{upsert, fill, update_sync_metadata}
use posduif.WebApi.Queries.{insert_or_touch}
use posduif.System.Actions.{
  TableOrder, Within, Moves, pure-Within, now-Within, new_uuid-Within, exec-Within, bind-Within,
  attempt-Within, transaction-Within, if-Within,
}

-- The statements that write, of both servers.
pub record Respects (env : Env) (o : TableOrder) : Type 0 where
  pub inserts_user : (u : User) → Moves o (λ now fresh. insert_user env u)
  pub sets_users : (u : User) → Moves o (set_users env u)
  pub inserts_message : (m : Message) → Moves o (insert_message env m)
  pub writes_status : (id status : String) → Moves o (write_status env id status)
  pub inserts_token : (e : EnrollmentToken) → Moves o (insert_token env e)
  pub uses_token : (at : ℕ) (device token : String) → Moves o (use_token env at device token)
  pub re_enrolls :
      (at now : ℕ) (name token id : String) → Moves o (re_enroll env at now name token id)
  pub adopts :
      (at now : ℕ) (id name device token : String)
      → Moves o (insert_or_adopt env at now id name device token)
  pub upserts : (sm : SyncMetadata) → Moves o (upsert sm)
  pub touches : (id name : String) (t : ℕ) → Moves o (insert_or_touch env id name t)

module _ (env : Env) (o : TableOrder) (r : Respects env o) where
  pub update_user-Within : (u : User) → Within o (update_user env u)
  unfolding update_user
  update_user-Within u = exec-Within env _ (r.sets_users u)

  pub create_user-Within : (u : User) → Within o (create_user env u)
  unfolding create_user
  create_user-Within u = bind-Within (now-Within env) λ t.
      bind-Within (if-Within (u.id == "") (new_uuid-Within env) (pure-Within u.id))
        λ id. exec-Within env _ (r.inserts_user _)

  fill_message-Within : (m : Message) → Within o (fill_message env m)
  unfolding fill_message
  fill_message-Within m = bind-Within (now-Within env) λ t.
      bind-Within (if-Within (m.id == "") (new_uuid-Within env) (pure-Within m.id))
        λ id. pure-Within _

  pub create_message-Within : (m : Message) → Within o (create_message env m)
  unfolding create_message
  create_message-Within m = bind-Within (fill_message-Within m) λ filled.
      bind-Within (attempt-Within (exec-Within env _ (r.inserts_message filled)))
        λ e. pure-Within (filled, e)

  pub update_message_status-Within :
      (id status : String) → Within o (update_message_status env id status)
  unfolding update_message_status
  update_message_status-Within id status = exec-Within env _ (r.writes_status id status)

  pub create_enrollment_token-Within :
      (e : EnrollmentToken) → Within o (create_enrollment_token env e)
  unfolding create_enrollment_token
  create_enrollment_token-Within e = bind-Within (now-Within env) λ t.
      bind-Within (if-Within (e.id == "") (new_uuid-Within env) (pure-Within e.id)) λ id.
        bind-Within (if-Within (e.token == "") (new_uuid-Within env) (pure-Within e.token))
          λ text. bind-Within (exec-Within env _ (r.inserts_token _)) λ _. pure-Within _

  pub complete_enrollment-Within :
      (token device name : String) → Within o (complete_enrollment env token device name)
  unfolding complete_enrollment
  complete_enrollment-Within token device name = transaction-Within env _ λ at.
      enrollment_body-Inside env o r.re_enrolls r.adopts token device name at
        (r.uses_token at device token)

  pub update_sync_metadata-Within : (sm : SyncMetadata) → Within o (update_sync_metadata env sm)
  unfolding update_sync_metadata
  update_sync_metadata-Within sm = bind-Within (now-Within env) λ t.
      bind-Within (attempt-Within (exec-Within env _ (r.upserts (fill t sm))))
        λ e. pure-Within (fill t sm, e)
