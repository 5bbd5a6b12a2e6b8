-- ===== src/System/Enrolling.antt =====
-- sync-engine/internal/enrollment and the handlers of enrollments, of incoming changes and of the
-- status, on the tables.
use posduif.Common.{◌+◌, String, Bool, false, not, ◌||◌, ◌==◌, Option, none, some, List}
use posduif.Models.{Message, SyncMetadata}
use posduif.Errors.{Error, message, Result, ok, err}
use posduif.Errors
use posduif.Database.{Env, attempt, ◌>>=◌}
use posduif.Database.Metadata.{get_sync_metadata}
use posduif.Database.Tokens.{get_enrollment_token}
use posduif.Database.Users.Search.{Order, get_users}
use posduif.Enrollment.{
  CompleteEnrollmentRequest, EnrollmentResult, EnrollmentResponse, new_token, hour,
  create_enrollment, enroll_named, complete, respond as respond_enrollment,
}
use posduif.Sync.Manager.{new_metadata}
use posduif.Api.{Request, reply, refuse}
use posduif.Api.Messages.{limit_or}
use posduif.Api.Enrollments.{
  handed_out, finished, status_of, contains_text, complete_decoded, handle_create_enrollment,
  handle_complete_enrollment,
}
use posduif.Api.Sync.{
  status_of as status_shown, users_or_none, or_created, get_sync_status, answer_incoming,
  get_incoming,
}
use posduif.System.Actions.{
  TableOrder, Within, pure-Within, raise-Within, now-Within, query-Within, bind-Within,
  attempt-Within, errorf-Within, if-Within,
}
use posduif.System.Queries.{
  Respects, create_enrollment_token-Within, complete_enrollment-Within, update_sync_metadata-Within,
}
use posduif.System.Syncing.{sync_incoming-Within}

module _ (env : Env) (o : TableOrder) (r : Respects env o) where
  create_enrollment-Within : (db port user : String) → Within o (create_enrollment env db port user)
  unfolding create_enrollment
  create_enrollment-Within db port user = bind-Within (now-Within env) λ t.
      bind-Within
        (errorf-Within "failed to create enrollment token"
          (create_enrollment_token-Within env o r (new_token db user (t + hour))))
        λ e. pure-Within (respond_enrollment port e)

  handed_out-Within : (e : Result EnrollmentResponse) → Within o (handed_out e)
  handed_out-Within (ok out) = pure-Within _
  handed_out-Within (err e) = pure-Within _

  create_for-Within :
      (db port : String) (user : Option String)
      → Within o (elim user [
        | none ↦ refuse {A = EnrollmentResponse} 401 "Unauthorized"
        | some id ↦ do out ← attempt (create_enrollment env db port id); handed_out out
      ])
  create_for-Within db port none = pure-Within _
  create_for-Within db port (some id) =
      bind-Within (attempt-Within (create_enrollment-Within db port id))
        λ out. handed_out-Within out

  pub handle_create_enrollment-Within :
      (db port : String) (q : Request) → Within o (handle_create_enrollment env db port q)
  unfolding handle_create_enrollment
  handle_create_enrollment-Within db port q =
      if-Within (not (q.method == "POST")) (pure-Within _) (create_for-Within db port q.user)

  complete-Within : (req : CompleteEnrollmentRequest) → Within o (complete env req)
  unfolding complete get_enrollment_token enroll_named
  complete-Within req =
      bind-Within (errorf-Within "enrollment token not found" (query-Within env _)) λ et.
        if-Within (req.username == "") (raise-Within _ _) (
          bind-Within
            (errorf-Within "failed to complete enrollment"
              (complete_enrollment-Within env o r req.token req.device_id req.username))
            λ id.
              pure-Within
                (record { user_id = id; device_id = req.device_id; tenant_id = et.tenant_id }))

  status_of-Within : (s : String) → Within o (status_of s)
  unfolding status_of
  status_of-Within s = if-Within (contains_text "not found" s) (pure-Within _) (
      if-Within (contains_text "already used" s) (pure-Within _) (
        if-Within (contains_text "unique" s || contains_text "duplicate" s) (pure-Within _)
          (pure-Within _)))

  finished-Within : (e : Result EnrollmentResult) → Within o (finished env e)
  finished-Within (ok out) = pure-Within _
  finished-Within (err e) = status_of-Within (Errors.text env.violation e)

  complete_decoded-Within :
      (body : Option CompleteEnrollmentRequest) → Within o (complete_decoded env body)
  complete_decoded-Within none = pure-Within _
  complete_decoded-Within (some req) =
      bind-Within (attempt-Within (complete-Within req)) λ e. finished-Within e

  pub handle_complete_enrollment-Within :
      (q : Request) (body : Option CompleteEnrollmentRequest)
      → Within o (handle_complete_enrollment env q body)
  unfolding handle_complete_enrollment
  handle_complete_enrollment-Within q body =
      if-Within (not (q.method == "POST")) (pure-Within _) (complete_decoded-Within body)

  or_created-Within : (d : String) (e : Result SyncMetadata) → Within o (or_created env d e)
  unfolding or_created
  or_created-Within d (ok sm) = pure-Within sm
  or_created-Within d (err e) =
      bind-Within (update_sync_metadata-Within env o r (new_metadata d "idle")) λ p. pure-Within p.0

  pub get_sync_status-Within : (q : Request) → Within o (get_sync_status env q)
  unfolding get_sync_status get_sync_metadata
  get_sync_status-Within q = if-Within (not (q.method == "GET")) (pure-Within _) (
      if-Within (q.header "X-Device-ID" == "") (pure-Within _) (
        bind-Within (attempt-Within (query-Within env _)) λ found.
          bind-Within (or_created-Within (q.header "X-Device-ID") found)
            λ sm. pure-Within (reply 200 (status_shown sm))))

  answer_incoming-Within :
      (order : Order) (e : Result (List Message)) → Within o (answer_incoming env order e)
  unfolding answer_incoming get_users
  answer_incoming-Within order (ok ms) = bind-Within (attempt-Within (query-Within env _)) λ us.
      bind-Within (now-Within env) λ t. pure-Within (
        reply 200 (record {
          messages = ms;
          users = users_or_none us;
          compressed = false;
          sync_timestamp = t;
        }))
  answer_incoming-Within order (err e) = pure-Within _

  pub get_incoming-Within :
      (order : Order) (wal_enabled : Bool) (q : Request)
      → Within o (get_incoming env order wal_enabled q)
  unfolding get_incoming
  get_incoming-Within order wal_enabled q = if-Within (not (q.method == "GET")) (pure-Within _) (
      if-Within (q.header "X-Device-ID" == "") (pure-Within _) (
        bind-Within
          (attempt-Within (
            sync_incoming-Within env o r wal_enabled (q.header "X-Device-ID")
              (limit_or 100 (q.parameter "limit"))))
          λ e. answer_incoming-Within order e))
