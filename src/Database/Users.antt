-- ===== src/Database/Users.antt =====
-- sync-engine/internal/database/queries.go, the queries on users.
pub mod Search
use posduif.Common.{
  ℕ, String, Bool, false, not, ◌&&◌, ◌||◌, ◌==◌, nat_eq, ◌++◌, none, some, List, [], ◌∷◌, map, any,
  find, if◌then◌else◌,
}
use posduif.Models.{User}
use posduif.Errors.{Result, err, refused, unique_key, foreign_key, check, invalid_text}
use posduif.Database.Schema.{has_user, refers_to_token, is_user_type}
use posduif.Database.{Env, Tables, M, pure, ◌>>=◌, now, new_uuid, query, exec, first_row, done}

abbrev pub has_device : String → User → Bool
has_device d u = elim u.device_id [ none ↦ false | some e ↦ e == d ]

-- Another row holds the username.
abbrev pub username_taken : User → List User → Bool
username_taken v users = any (λ u. not (u.id == v.id) && (u.username == v.username)) users

-- SET of UpdateUser: created_at stays.
abbrev pub set_user : ℕ → User → User → User
set_user now v u =
    if u.id == v.id then record v { created_at = u.created_at; updated_at = now } else u

module _ (env : Env) where
  unfoldable pub find_user : String → Tables → Result User
  find_user id t =
      if env.is_uuid id
      then first_row (find (λ u. u.id == id) t.users)
      else err (refused invalid_text)

  unfoldable pub get_user_by_id : String → M User
  get_user_by_id id = query env (find_user id)

  unfoldable pub get_user_by_username : String → M User
  get_user_by_username name = query env (λ t. first_row (find (λ u. u.username == name) t.users))

  -- device_id is not unique; the first row in the table's order stands for the row that
  -- PostgreSQL returns first.
  unfoldable pub get_user_by_device_id : String → M User
  get_user_by_device_id d = query env (λ t. first_row (find (has_device d) t.users))

  unfoldable pub insert_user : User → Tables → Result (Unit {0} × Tables)
  insert_user u t =
      if not (env.is_uuid u.id)
      then err (refused invalid_text)
      else if not (is_user_type u.user_type)
      then err (refused check)
      else if has_user u.id t.users || any (λ v. v.username == u.username) t.users
      then err (refused unique_key)
      else if not (refers_to_token u.enrollment_token_id t.tokens)
      then err (refused foreign_key)
      else done (record t { users = t.users ++ record u { last_seen = none } ∷ [] })

  unfoldable pub create_user : User → M (Unit {0})
  create_user user = do
    t ← now env
    id ← if user.id == "" then new_uuid env else pure user.id
    exec env λ _ _. insert_user (record user {
      id = id;
      created_at = if nat_eq user.created_at 0 then t else user.created_at;
      updated_at = t;
    })

  -- An update of no row succeeds.
  unfoldable pub set_users : User → ℕ → String → Tables → Result (Unit {0} × Tables)
  set_users v now _ t =
      if not (env.is_uuid v.id)
      then err (refused invalid_text)
      else if not (has_user v.id t.users)
      then done t
      else if not (is_user_type v.user_type)
      then err (refused check)
      else if username_taken v t.users
      then err (refused unique_key)
      else if not (refers_to_token v.enrollment_token_id t.tokens)
      then err (refused foreign_key)
      else done (record t { users = map (set_user now v) t.users })

  unfoldable pub update_user : User → M (Unit {0})
  update_user user = exec env (set_users user)
