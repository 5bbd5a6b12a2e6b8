-- ===== src/Models.antt =====
-- sync-engine/internal/models: the rows of the database tables and the values that the
-- components exchange, and the type WALChange of sync-engine/internal/sync/wal_reader.go.
-- A time.Time is the number of nanoseconds since Go's zero time, so IsZero is a test for 0;
-- a nil pointer is `none`.
pub mod Lsn
use posduif.Common.{ℕ, String, Bool, Option, List}
use posduif.Common.Dict.{Dict}

pub record User : Type 0 where
  pub id : String
  pub username : String
  pub user_type : String
  pub device_id : Option String
  pub online_status : Bool
  pub last_seen : Option ℕ
  pub enrolled_at : Option ℕ
  pub enrollment_token_id : Option String
  pub last_message_sent : Option String
  pub created_at : ℕ
  pub updated_at : ℕ

pub record Message : Type 0 where
  pub id : String
  pub sender_id : String
  pub recipient_id : String
  pub content : String
  pub status : String
  pub created_at : ℕ
  pub updated_at : ℕ
  pub synced_at : Option ℕ
  pub read_at : Option ℕ

-- A limit or offset that is not positive is 0 here: the queries leave both out.
pub record MessageFilter : Type 0 where
  pub recipient_id : Option String
  pub status : Option String
  pub limit : ℕ
  pub offset : ℕ

pub record UserFilter : Type 0 where
  pub filter : String
  pub status : Option Bool
  pub exclude_user_id : String

pub record EnrollmentToken : Type 0 where
  pub id : String
  pub token : String
  pub created_by : String
  pub tenant_id : String
  pub expires_at : ℕ
  pub used_at : Option ℕ
  pub device_id : Option String
  pub created_at : ℕ
  pub updated_at : ℕ

pub record SyncMetadata : Type 0 where
  pub id : String
  pub device_id : String
  pub last_sync_timestamp : Option ℕ
  pub last_synced_lsn : Option String
  pub pending_outgoing_count : ℕ
  pub sync_status : String
  pub created_at : ℕ
  pub updated_at : ℕ

pub record FailedMessage : Type 0 where
  pub message_id : String
  pub error : String

-- An interface{} in a map of columns, by the dynamic types that the code asserts.
pub data Value : Type 0 where
  text : String → Value
  time : ℕ → Value
  other : Value

pub record WalChange : Type 0 where
  pub lsn : ℕ
  pub schema : String
  pub table : String
  pub operation : String
  pub columns : Dict Value
  pub old_columns : Dict Value
  pub commit_time : ℕ
