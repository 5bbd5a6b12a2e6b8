-- ===== src/Api/Sync.antt =====
-- sync-engine/internal/api/handlers/sync.go: GetIncoming, UploadOutgoing and
-- GetSyncStatus.
pub mod Accounts
pub mod Upload
pub mod Incoming
use posduif.Common.{
  ℕ, suc, String, Bool, false, not, ◌==◌, ◌++◌, Option, none, some, List, [], ◌∷◌, if◌then◌else◌,
}
use posduif.Models.{User, Message, UserFilter, SyncMetadata, FailedMessage}
use posduif.Errors.{Result, ok, err}
use posduif.Database.{Env, M, pure, attempt, ◌>>=◌, ◌>>◌, now}
use posduif.Database.Users.{get_user_by_id}
use posduif.Database.Users.Search.{Order, get_users}
use posduif.Database.Messages.{create_message}
use posduif.Database.Metadata.{get_sync_metadata, update_sync_metadata}
use posduif.Sync.Manager.{count, sync_incoming, new_metadata}
use posduif.Api.{Request, Response, refuse, respond}
use posduif.Api.Messages.{limit_or, set_last_message}

pub record SyncOutgoingResponse : Type 0 where
  pub synced_count : ℕ
  pub failed_count : ℕ
  pub failed_messages : List FailedMessage
  pub sync_timestamp : ℕ

pub record SyncIncomingResponse : Type 0 where
  pub messages : List Message
  pub users : List User
  pub compressed : Bool
  pub sync_timestamp : ℕ

pub record SyncStatus : Type 0 where
  pub device_id : String
  pub last_sync_timestamp : Option ℕ
  pub pending_outgoing_count : ℕ
  pub sync_status : String

abbrev pub status_of : SyncMetadata → SyncStatus
status_of sm = record {
  device_id = sm.device_id;
  last_sync_timestamp = sm.last_sync_timestamp;
  pending_outgoing_count = sm.pending_outgoing_count;
  sync_status = sm.sync_status;
}

-- models.UserFilter{}
abbrev pub no_filter : UserFilter
no_filter = record { filter = ""; status = none; exclude_user_id = "" }

abbrev pub users_or_none : Result (List User) → List User
users_or_none (ok us) = us
users_or_none (err e) = []

module _ (env : Env) where
  unfoldable pub answer_incoming : Order → Result (List Message) → M (Response SyncIncomingResponse)
  answer_incoming order (err e) = refuse 500 "Failed to get messages"
  answer_incoming order (ok ms) = do
    users ← attempt (get_users order env no_filter)
    t ← now env
    respond 200 (record {
      messages = ms;
      users = users_or_none users;
      compressed = false;
      sync_timestamp = t;
    })

  -- GetIncoming
  unfoldable pub get_incoming : Order → Bool → Request → M (Response SyncIncomingResponse)
  get_incoming order wal_enabled r =
      if not (r.method == "GET")
      then refuse 405 "Method not allowed"
      else if r.header "X-Device-ID" == ""
      then refuse 400 "Device ID required"
      else do
        ms ← attempt (
            sync_incoming env wal_enabled (r.header "X-Device-ID")
              (limit_or 100 (r.parameter "limit")))
        answer_incoming order ms

  -- The update of the sender after a message was stored; both errors are ignored.
  unfoldable pub after_upload : Message → Result (Unit {0}) → M (Unit {0})
  after_upload msg (err e) = pure tt
  after_upload msg (ok _) = do
    sender ← attempt (get_user_by_id env msg.sender_id)
    set_last_message env msg.content sender

  -- The loop of UploadOutgoing, with the counters of SyncOutgoing.
  unfoldable pub upload_from :
      ℕ × ℕ × List FailedMessage → List Message → M (ℕ × ℕ × List FailedMessage)
  upload_from counts [] = pure counts
  upload_from counts (msg ∷ msgs) = do
    (m, r) ← create_message env msg
    after_upload m r
    upload_from (count env counts (m, r)) msgs

  unfoldable pub upload : List Message → M (Response SyncOutgoingResponse)
  upload msgs = do
    (synced, failed, failures) ← upload_from (0, 0, []) msgs
    t ← now env
    respond 200 (record {
      synced_count = synced;
      failed_count = failed;
      failed_messages = failures;
      sync_timestamp = t;
    })

  abbrev pub upload_decoded : Option (List Message) → M (Response SyncOutgoingResponse)
  upload_decoded none = refuse 400 "Invalid request body"
  upload_decoded (some msgs) = upload msgs

  -- UploadOutgoing
  unfoldable pub upload_outgoing :
      Request → Option (List Message) → M (Response SyncOutgoingResponse)
  upload_outgoing r body =
      if not (r.method == "POST")
      then refuse 405 "Method not allowed"
      else if r.header "X-Device-ID" == ""
      then refuse 400 "Device ID required"
      else upload_decoded body

  unfoldable pub or_created : String → Result SyncMetadata → M SyncMetadata
  or_created device (ok sm) = pure sm
  or_created device (err e) = do
    (sm, _) ← update_sync_metadata env (new_metadata device "idle")
    pure sm

  -- GetSyncStatus
  unfoldable pub get_sync_status : Request → M (Response SyncStatus)
  get_sync_status r =
      if not (r.method == "GET")
      then refuse 405 "Method not allowed"
      else if r.header "X-Device-ID" == ""
      then refuse 400 "Device ID required"
      else do
        found ← attempt (get_sync_metadata env (r.header "X-Device-ID"))
        sm ← or_created (r.header "X-Device-ID") found
        respond 200 (status_of sm)
