-- ===== src/Database/Messages.antt =====
-- sync-engine/internal/database/queries.go, the queries on messages.
pub mod Order
pub mod Status
pub mod Create
use posduif.Common.{
  ℕ, zero, suc, String, Bool, true, not, ◌&&◌, ◌==◌, nat_eq, ltb, ◌++◌, Option, none, some, List,
  [], ◌∷◌, map, any, length, take, drop, select, if◌then◌else◌,
}
use posduif.Common.Sort.{order_by}
use posduif.Models.{User, Message, MessageFilter}
use posduif.Errors.{Result, ok, err, refused, unique_key, foreign_key, check, invalid_text}
use posduif.Database.Schema.{has_user, has_message, is_status, touch_sender}
use posduif.Database.Users.{has_device}
use posduif.Database.{Env, Tables, M, pure, attempt, ◌>>=◌, now, new_uuid, query, exec, done}

-- The WHERE clause of GetPendingMessagesForDevice, with its JOIN on the recipient.
abbrev pub is_pending_for : List User → String → Message → Bool
is_pending_for users device m =
    any (λ u. (u.id == m.recipient_id) && has_device device u) users && (m.status == "pending_sync")

-- SET of UpdateMessageStatus. The triggers on messages set the same columns once more.
unfoldable pub set_status : ℕ → String → Message → Message
set_status now status m =
    if status == "synced"
    then record m { status = status; updated_at = now; synced_at = some now }
    else if status == "read"
    then record m { status = status; updated_at = now; read_at = some now }
    else record m { status = status; updated_at = now }

abbrev pub set_status_of : ℕ → String → String → Message → Message
set_status_of now id status m = if m.id == id then set_status now status m else m

abbrev matches : Option String → String → Bool
matches none s = true
matches (some k) s = s == k

abbrev pub passes : MessageFilter → Message → Bool
passes filter m = matches filter.recipient_id m.recipient_id && matches filter.status m.status

abbrev uuid_or_absent : Env → Option String → Bool
uuid_or_absent env none = true
uuid_or_absent env (some id) = env.is_uuid id

-- ORDER BY created_at DESC
abbrev pub newest_first : List Message → List Message
newest_first = order_by (λ n m. ltb m.created_at n.created_at)

-- ORDER BY created_at ASC
abbrev pub oldest_first : List Message → List Message
oldest_first = order_by (λ n m. ltb n.created_at m.created_at)

-- LIMIT, which is left out for 0
abbrev pub limit_to : ℕ → List Message → List Message
limit_to zero ms = ms
limit_to (suc n) ms = take (suc n) ms

-- The rows of GetPendingMessagesForDevice.
abbrev pub pending : String → ℕ → Tables → List Message
pending device limit t =
    take limit (oldest_first (select (is_pending_for t.users device) t.messages))

module _ (env : Env) where
  unfoldable pub insert_message : Message → ℕ → String → Tables → Result (Unit {0} × Tables)
  insert_message m now _ t =
      if not (env.is_uuid m.id && (env.is_uuid m.sender_id && env.is_uuid m.recipient_id))
      then err (refused invalid_text)
      else if not (is_status m.status)
      then err (refused check)
      else if has_message m.id t.messages
      then err (refused unique_key)
      else if not (has_user m.sender_id t.users && has_user m.recipient_id t.users)
      then err (refused foreign_key)
      else done (record t {
        messages = t.messages ++ record m { synced_at = none; read_at = none } ∷ [];
        users = map (touch_sender now m) t.users;
      })

  -- The defaults that CreateMessage writes through its pointer before the statement runs.
  unfoldable pub fill_message : Message → M Message
  fill_message msg = do
    t ← now env
    id ← if msg.id == "" then new_uuid env else pure msg.id
    pure (record msg {
      id = id;
      status = if msg.status == "" then "pending_sync" else msg.status;
      created_at = if nat_eq msg.created_at 0 then t else msg.created_at;
      updated_at = t;
    })

  -- CreateMessage: the message as the caller finds it behind the pointer, and the error.
  unfoldable pub create_message : Message → M (Message × Result (Unit {0}))
  create_message msg = do
    filled ← fill_message msg
    r ← attempt (exec env (insert_message filled))
    pure (filled, r)

  unfoldable pub get_messages : MessageFilter → M (List Message)
  get_messages filter = query env λ t.
      if uuid_or_absent env filter.recipient_id
      then ok (
          limit_to filter.limit
            (drop filter.offset (newest_first (select (passes filter) t.messages))))
      else err (refused invalid_text)

  unfoldable pub get_unread_count : String → M ℕ
  get_unread_count user = query env λ t.
      if env.is_uuid user
      then ok
          (length (select (λ m. (m.recipient_id == user) && not (m.status == "read")) t.messages))
      else err (refused invalid_text)

  unfoldable pub write_status : String → String → ℕ → String → Tables → Result (Unit {0} × Tables)
  write_status id status now _ t =
      if not (env.is_uuid id)
      then err (refused invalid_text)
      else if has_message id t.messages && not (is_status status)
      then err (refused check)
      else done (record t { messages = map (set_status_of now id status) t.messages })

  unfoldable pub update_message_status : String → String → M (Unit {0})
  update_message_status id status = exec env (write_status id status)

  unfoldable pub get_pending_messages_for_device : String → ℕ → M (List Message)
  get_pending_messages_for_device device limit = query env λ t. ok (pending device limit t)
