-- ===== src/WebApi/Queries.antt =====
-- web-api/internal/database/queries.go. The statements on users and messages are those of the
-- sync engine where they have the same columns.
use posduif.Common.{
  ℕ, String, Bool, true, not, ◌||◌, ◌==◌, nat_eq, ltb, ◌++◌, none, some, List, [], ◌∷◌, map, find,
  take, drop, select, if◌then◌else◌,
}
use posduif.Common.Sort.{order_by}
use posduif.Models.{User, Message}
use posduif.Errors.{Result, ok, err, refused, unique_key, invalid_text}
use posduif.Database.{
  Env, Tables, M, pure, attempt, errorf, ◌>>=◌, ◌>>◌, now, new_uuid, query, exec, first_row,
}
use posduif.Database.Schema.{has_user}
use posduif.Database.Users.{find_user, set_users}
use posduif.Database.Messages.{insert_message, newest_first}

-- ORDER BY updated_at DESC
abbrev pub last_updated_first : List User → List User
last_updated_first = order_by (λ v u. ltb u.updated_at v.updated_at)

-- The row that CreateUser inserts.
abbrev pub web_user : String → String → ℕ → User
web_user id name t = record {
  id = id;
  username = name;
  user_type = "web";
  device_id = none;
  online_status = true;
  last_seen = none;
  enrolled_at = none;
  enrollment_token_id = none;
  last_message_sent = none;
  created_at = t;
  updated_at = t;
}

-- ON CONFLICT (username) DO UPDATE SET. The trigger on users has the last word on updated_at.
abbrev pub touch_user : ℕ → User → User
touch_user now u = record u { online_status = true; updated_at = now }

abbrev pub touch_named : ℕ → String → User → User
touch_named now name u = if u.username == name then touch_user now u else u

module _ (env : Env) where
  -- GetUserByUsername
  unfoldable pub get_user_by_username : String → M User
  get_user_by_username name = query env (λ t. first_row (find (λ u. u.username == name) t.users))

  -- GetUserByID
  unfoldable pub get_user_by_id : String → M User
  get_user_by_id id = query env (find_user env id)

  abbrev pub rows_but : String → Tables → Result (List User)
  rows_but excluded t =
      if excluded == ""
      then ok (last_updated_first t.users)
      else if env.is_uuid excluded
      then ok (last_updated_first (select (λ u. not (u.id == excluded)) t.users))
      else err (refused invalid_text)

  -- GetAllUsers
  unfoldable pub get_all_users : String → M (List User)
  get_all_users excluded = query env (rows_but excluded)

  -- GetWebUsers; the collation of the column username is a parameter.
  unfoldable pub get_web_users : (String → String → Bool) → M (List User)
  get_web_users collation = query env λ t. ok (
      order_by (λ v u. collation v.username u.username)
        (select (λ u. u.user_type == "web") t.users))

  -- INSERT … ON CONFLICT (username) DO UPDATE … RETURNING
  unfoldable pub insert_or_touch :
      String → String → ℕ → ℕ → String → Tables → Result (User × Tables)
  insert_or_touch id name t now _ tables =
      if not (env.is_uuid id)
      then err (refused invalid_text)
      else elim (find (λ u. u.username == name) tables.users) [
        | some u ↦
            ok (touch_user now u, record tables { users = map (touch_named now name) tables.users })
        | none ↦
            if has_user id tables.users
            then err (refused unique_key)
            else ok (
              web_user id name t,
              record tables { users = tables.users ++ web_user id name t ∷ [] },
            )
      ]

  -- CreateUser
  unfoldable pub create_user : String → M User
  create_user name = do
    id ← new_uuid env
    t ← now env
    errorf "failed to create user" (exec env (insert_or_touch id name t))

  -- UpdateUser
  unfoldable pub update_user : User → M (Unit {0})
  update_user user = exec env (set_users env user)

  -- The end of CreateMessage: the sender's last message, of which all errors are dropped.
  unfoldable pub remember_last : String → Result User → M (Unit {0})
  remember_last content (err e) = pure tt
  remember_last content (ok sender) = do
    _ ← attempt (update_user (record sender { last_message_sent = some content }))
    pure tt

  unfoldable pub after_insert : Message → Result (Unit {0}) → M (Unit {0})
  after_insert msg (err e) = pure tt
  after_insert msg (ok _) = do
    sender ← attempt (get_user_by_id msg.sender_id)
    remember_last msg.content sender

  -- The defaults that CreateMessage writes through its pointer.
  unfoldable pub fill_message : Message → M Message
  fill_message msg = do
    t ← now env
    id ← if msg.id == "" then new_uuid env else pure msg.id
    pure (record msg {
      id = id;
      status = if msg.status == "" then "pending_sync" else msg.status;
      created_at = if nat_eq msg.created_at 0 then t else msg.created_at;
      updated_at = t;
    })

  -- CreateMessage: the message as the caller finds it behind the pointer, and the error.
  unfoldable pub create_message : Message → M (Message × Result (Unit {0}))
  create_message msg = do
    filled ← fill_message msg
    r ← attempt (exec env (insert_message env filled))
    after_insert filled r
    pure (filled, r)

  abbrev pub is_of : String → Message → Bool
  is_of user m = (m.sender_id == user) || (m.recipient_id == user)

  abbrev pub page : String → ℕ → ℕ → Tables → Result (List Message)
  page user limit offset t =
      if env.is_uuid user
      then ok (take limit (drop offset (newest_first (select (is_of user) t.messages))))
      else err (refused invalid_text)

  -- GetMessages
  unfoldable pub get_messages : String → ℕ → ℕ → M (List Message)
  get_messages user limit offset = query env (page user limit offset)
