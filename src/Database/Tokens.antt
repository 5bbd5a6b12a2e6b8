-- ===== src/Database/Tokens.antt =====
-- sync-engine/internal/database/queries.go, the queries on enrollment tokens.
pub mod Body
pub mod Atomic
pub mod SingleUse
use posduif.Common.{
  ℕ, String, Bool, true, false, not, ◌&&◌, ◌||◌, ◌==◌, nat_eq, ltb, ◌++◌, none, some, [], ◌∷◌, map,
  any, find, length, select, if◌then◌else◌,
}
use posduif.Models.{User, EnrollmentToken}
use posduif.Errors.{
  no_rows, message, wrapped, Result, ok, err, refused, unique_key, foreign_key, invalid_text,
}
use posduif.Database.Schema.{has_user, refers_to_token}
use posduif.Database.Users.{has_device}
use posduif.Database.{
  Env, Tables, M, Tx, outside, tx_exec, tx_query, pure, raise, attempt, errorf, ◌>>=◌, ◌>>◌, now,
  new_uuid, query, exec, transaction, first_row, done,
}

-- WHERE token = $2 AND used_at IS NULL AND expires_at > NOW()
abbrev pub is_usable : ℕ → String → EnrollmentToken → Bool
is_usable now token t =
    (t.token == token) && (elim t.used_at [ none ↦ true | some _ ↦ false ] && ltb now t.expires_at)

abbrev pub mark_used : ℕ → String → String → EnrollmentToken → EnrollmentToken
mark_used now device token t =
    if is_usable now token t
    then record t { used_at = some now; device_id = some device; updated_at = now }
    else t

-- SET of the update of an existing user in CompleteEnrollment. The trigger on users has the last
-- word on updated_at.
abbrev pub enroll_user : ℕ → ℕ → String → String → String → User → User
enroll_user tx_now now id username token_id u =
    if u.id == id
    then record u {
      username = username;
      enrolled_at = some now;
      enrollment_token_id = some token_id;
      updated_at = tx_now;
    }
    else u

-- ON CONFLICT (username) DO UPDATE SET
abbrev pub adopt_user : ℕ → ℕ → String → String → String → User → User
adopt_user tx_now now username device token_id u =
    if u.username == username
    then record u {
      device_id = some device;
      enrolled_at = some now;
      enrollment_token_id = some token_id;
      updated_at = tx_now;
    }
    else u

abbrev pub mobile_user : ℕ → String → String → String → String → User
mobile_user now id username device token_id = record {
  id = id;
  username = username;
  user_type = "mobile";
  device_id = some device;
  online_status = false;
  last_seen = none;
  enrolled_at = some now;
  enrollment_token_id = some token_id;
  last_message_sent = none;
  created_at = now;
  updated_at = now;
}

-- The row of a new token.
abbrev pub new_row : Env → EnrollmentToken → EnrollmentToken
new_row env e = record e { expires_at = env.stamp e.expires_at; used_at = none; device_id = none }

module _ (env : Env) where
  unfoldable pub insert_token : EnrollmentToken → ℕ → String → Tables → Result (Unit {0} × Tables)
  insert_token e _ _ t =
      if not (env.is_uuid e.id && (env.is_uuid e.token && env.is_uuid e.created_by))
      then err (refused invalid_text)
      else if any (λ x. (x.id == e.id) || (x.token == e.token)) t.tokens
      then err (refused unique_key)
      else if not (has_user e.created_by t.users)
      then err (refused foreign_key)
      else done (record t { tokens = t.tokens ++ new_row env e ∷ [] })

  -- CreateEnrollmentToken: the token as the caller finds it behind the pointer.
  unfoldable pub create_enrollment_token : EnrollmentToken → M EnrollmentToken
  create_enrollment_token token = do
    t ← now env
    id ← if token.id == "" then new_uuid env else pure token.id
    text ← if token.token == "" then new_uuid env else pure token.token
    let filled = record token {
      id = id;
      token = text;
      created_at = if nat_eq token.created_at 0 then t else token.created_at;
      updated_at = t;
    }
    exec env (insert_token filled)
    pure filled

  unfoldable pub find_token : String → Tables → Result EnrollmentToken
  find_token token t =
      if env.is_uuid token
      then first_row (find (λ e. e.token == token) t.tokens)
      else err (refused invalid_text)

  unfoldable pub get_enrollment_token : String → M EnrollmentToken
  get_enrollment_token token = query env (find_token token)

  -- The update of the token, and result.RowsAffected().
  unfoldable pub use_token : ℕ → String → String → ℕ → String → Tables → Result (ℕ × Tables)
  use_token tx_now device token _ _ t =
      if env.is_uuid token
      then ok (
        length (select (is_usable tx_now token) t.tokens),
        record t { tokens = map (mark_used tx_now device token) t.tokens },
      )
      else err (refused invalid_text)

  unfoldable pub re_enroll :
      ℕ → ℕ → String → String → String → ℕ → String → Tables → Result (Unit {0} × Tables)
  re_enroll tx_now now username token_id id _ _ t =
      if any (λ u. not (u.id == id) && (u.username == username)) t.users
      then err (refused unique_key)
      else if not (refers_to_token (some token_id) t.tokens)
      then err (refused foreign_key)
      else done (record t { users = map (enroll_user tx_now now id username token_id) t.users })

  -- INSERT … ON CONFLICT (username) DO UPDATE … RETURNING id
  unfoldable pub insert_or_adopt :
      ℕ → ℕ → String → String → String → String → ℕ → String → Tables → Result (String × Tables)
  insert_or_adopt tx_now now id username device token_id _ _ t =
      if not (env.is_uuid id)
      then err (refused invalid_text)
      else if not (refers_to_token (some token_id) t.tokens)
      then err (refused foreign_key)
      else elim (find (λ u. u.username == username) t.users) [
        | some u ↦ ok (
          u.id,
          record t { users = map (adopt_user tx_now now username device token_id) t.users },
        )
        | none ↦
            if has_user id t.users
            then err (refused unique_key)
            else ok (
              id,
              record t { users = t.users ++ mobile_user now id username device token_id ∷ [] },
            )
      ]

  -- The three branches of CompleteEnrollment on the search for a user with the device.
  unfoldable pub enroll : ℕ → String → String → String → ℕ → Result User → Tx String
  enroll tx_now device username token_id t (ok u) =
      errorf "failed to update existing user"
        (do tx_exec env (re_enroll tx_now t username token_id u.id); pure u.id)
  enroll tx_now device username token_id t (err no_rows) = do
    id ← outside (new_uuid env)
    errorf "failed to create user"
        (tx_exec env (insert_or_adopt tx_now t id username device token_id))
  enroll tx_now device username token_id t (err e) =
      raise (wrapped "failed to check for existing user" e)

  unfoldable pub find_device : String → Tables → Result User
  find_device device t = first_row (find (has_device device) t.users)

  -- The part of the transaction after the check of the number of updated tokens.
  unfoldable pub link_user : String → String → String → ℕ → Tx String
  link_user token device username tx_now = do
    e ← tx_query env (find_token token)
    existing ← attempt (tx_query env (find_device device))
    t ← outside (now env)
    enroll tx_now device username e.id t existing

  unfoldable pub enrollment_body : String → String → String → ℕ → Tx String
  enrollment_body token device username tx_now = do
    affected ← tx_exec env (use_token tx_now device token)
    if nat_eq affected 0
        then raise (message "enrollment token not found or already used")
        else link_user token device username tx_now

  -- CompleteEnrollment
  unfoldable pub complete_enrollment : String → String → String → M String
  complete_enrollment token device username =
      transaction env (enrollment_body token device username)
