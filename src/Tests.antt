-- ===== src/Tests.antt =====
-- A small tenant on which the theorems are applied: two mobile users and a web user, one message
-- waiting for bob, an enrollment token, and a change queued for bob's device.
pub mod Sync
pub mod Feed
pub mod Database
pub mod Replication
pub mod Enrollment
pub mod Api
pub mod WebApi
pub mod Streams
pub mod System
use posduif.Common.{
  ℕ, ◌+◌, String, Bool, false, not, ◌==◌, ◌≡◌, ◌≢◌, Option, none, some, List, [], ◌∷◌, arith,
  eq_iff,
}
use posduif.Models.{User, Message, EnrollmentToken, SyncMetadata, Value, text, WalChange}
use posduif.Database.{Env, Tables, World}

pub ne_of : (s t : String) → (s == t) ≡ false → s ≢ t
ne_of s t h e = ground (arith, eq_iff s t)

-- A clock that starts at 1000, a working connection, and any text but "" for a UUID.
abbrev pub env : Env
env = record {
  time = λ t. 1000 + t;
  uuid = λ t. "3f0e";
  fault = λ t. none;
  violation = λ v. "refused";
  is_uuid = λ s. not (s == "");
  stamp = λ t. t;
  commits = λ t. false;
}

abbrev pub user : String → Option String → User
user name device = record {
  id = name;
  username = name;
  user_type = elim device [ none ↦ "web" | some d ↦ "mobile" ];
  device_id = device;
  online_status = false;
  last_seen = none;
  enrolled_at = none;
  enrollment_token_id = none;
  last_message_sent = none;
  created_at = 1;
  updated_at = 1;
}

abbrev pub alice : User
alice = user "alice" (some "phone-a")

abbrev pub bob : User
bob = user "bob" (some "phone-b")

abbrev pub carol : User
carol = user "carol" none

abbrev pub hello : Message
hello = record {
  id = "m1";
  sender_id = "carol";
  recipient_id = "bob";
  content = "hello";
  status = "pending_sync";
  created_at = 7;
  updated_at = 7;
  synced_at = none;
  read_at = none;
}

abbrev pub token : EnrollmentToken
token = record {
  id = "t1";
  token = "secret";
  created_by = "carol";
  tenant_id = "acme";
  expires_at = 5000;
  used_at = none;
  device_id = none;
  created_at = 1;
  updated_at = 1;
}

abbrev pub progress : SyncMetadata
progress = record {
  id = "s1";
  device_id = "phone-b";
  last_sync_timestamp = none;
  last_synced_lsn = none;
  pending_outgoing_count = 0;
  sync_status = "idle";
  created_at = 1;
  updated_at = 1;
}

abbrev pub insert_of : ℕ → String → String → WalChange
insert_of lsn from to = record {
  lsn = lsn;
  schema = "public";
  table = "messages";
  operation = "INSERT";
  columns =
      ("id", text "m2")
      ∷ ("sender_id", text from)
      ∷ ("recipient_id", text to)
      ∷ ("content", text "hi")
      ∷ [];
  old_columns = [];
  commit_time = 9;
}

abbrev pub tables : Tables
tables = record {
  users = alice ∷ bob ∷ carol ∷ [];
  messages = hello ∷ [];
  tokens = token ∷ [];
  metadata = progress ∷ [];
}

abbrev pub world : World
world = record {
  tables = tables;
  changes = ("phone-b", insert_of 10 "carol" "bob" ∷ insert_of 20 "alice" "bob" ∷ []) ∷ [];
  tick = 0;
}
