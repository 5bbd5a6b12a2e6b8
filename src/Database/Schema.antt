-- ===== src/Database/Schema.antt =====
-- config/database-init.sql: the constraints of the tables and the triggers on messages, as far as the
-- statements of sync-engine/internal/database/queries.go meet them. The limits of VARCHAR columns and
-- the rounding of timestamps to microseconds are left out.
use posduif.Common.{ℕ, String, Bool, true, ◌||◌, ◌==◌, Option, none, some, List, any, if◌then◌else◌}
use posduif.Models.{User, Message, EnrollmentToken}

-- REFERENCES users(id)
abbrev pub has_user : String → List User → Bool
has_user id users = any (λ u. u.id == id) users

abbrev pub has_message : String → List Message → Bool
has_message id messages = any (λ m. m.id == id) messages

-- REFERENCES enrollment_tokens(id), of a column that may be NULL
abbrev pub refers_to_token : Option String → List EnrollmentToken → Bool
refers_to_token none tokens = true
refers_to_token (some id) tokens = any (λ t. t.id == id) tokens

-- CONSTRAINT chk_status
abbrev pub is_status : String → Bool
is_status s = s == "pending_sync" || s == "synced" || s == "read"

-- CONSTRAINT chk_user_type
abbrev pub is_user_type : String → Bool
is_user_type s = s == "web" || s == "mobile"

-- CONSTRAINT chk_sync_status
abbrev pub is_sync_status : String → Bool
is_sync_status s = s == "idle" || s == "syncing" || s == "error"

-- update_user_last_message_sent, after an insert into messages
abbrev pub touch_sender : ℕ → Message → User → User
touch_sender now m u =
    if u.id == m.sender_id
    then record u { last_message_sent = some m.content; updated_at = now }
    else u
