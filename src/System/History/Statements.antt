-- ===== src/System/History/Statements.antt =====
-- Every statement of the program extends the tables.
use posduif.Common.{
  ℕ, String, ◌==◌, ◌≡◌, sym, subst, none, List, [], ◌∷◌, ◌++◌, map, any, find, arith, eq_iff,
  Bool-cases, Option-cases, inl, inr,
}
use posduif.Models.{User, Message, EnrollmentToken, SyncMetadata}
use posduif.Database.{Env}
use posduif.Database.Schema.{has_user, touch_sender}
use posduif.Database.Users.{set_user, insert_user, set_users}
use posduif.Database.Messages.{set_status, set_status_of, insert_message, write_status}
use posduif.Database.Messages.Create.{insert_message-ok}
use posduif.Database.Tokens.{
  new_row, mark_used, enroll_user, adopt_user, mobile_user, insert_token, use_token, re_enroll,
  insert_or_adopt,
}
use posduif.Database.Metadata.{set_metadata, merge, upsert}
use posduif.WebApi.Queries.{web_user, touch_named, insert_or_touch}
use posduif.System.Actions.{Moves}
use posduif.System.Growth.{Grows, Grows-append, Grows-map}
use posduif.System.Queries.{Respects}
use posduif.System.History.{
  message_core, user_core, token_core, device_core, Extends, Extends-refl, Extends-trans, history,
  with_users, with_messages, with_tokens, with_devices,
}

module _ (env : Env) where
  inserts_user : (u : User) → Moves history (λ now fresh. insert_user env u)
  unfolding insert_user
  inserts_user u now fresh t t' tt e =
      let new = t.users ++ record u { last_seen = none } ∷ [] in
      let same : t' ≡ record t { users = new } = ground (arith, e) in
      subst (Extends t) (sym same) (with_users t new (Grows-append user_core t.users _))

  set_user_core : (now : ℕ) (v u : User) → user_core (set_user now v u) ≡ user_core u
  set_user_core now v u = ground (arith, eq_iff u.id v.id)

  sets_users : (u : User) → Moves history (set_users env u)
  unfolding set_users
  sets_users v now fresh t t' tt e = elim (Bool-cases (has_user v.id t.users)) [
    | inr missing ↦
        let same : t' ≡ t = ground (arith, e, missing) in
        subst (Extends t) (sym same) (Extends-refl t)
    | inl there ↦
        let new = map (set_user now v) t.users in
        let same : t' ≡ record t { users = new } = ground (arith, e, there) in
        subst (Extends t) (sym same)
          (with_users t new (Grows-map user_core (set_user now v) t.users (set_user_core now v)))
  ]

  touch_sender_core :
      (now : ℕ) (m : Message) (u : User) → user_core (touch_sender now m u) ≡ user_core u
  touch_sender_core now m u = ground arith

  inserts_message : (m : Message) → Moves history (insert_message env m)
  inserts_message m now fresh t t' tt e =
      let users = map (touch_sender now m) t.users in
      let first =
        with_users t users
          (Grows-map user_core (touch_sender now m) t.users (touch_sender_core now m)) in
      let second =
        with_messages (record t { users = users }) _ (Grows-append message_core t.messages _) in
      subst (Extends t) (sym (insert_message-ok env m now fresh t t' e).0)
        (Extends-trans t (record t { users = users }) _ first second)

  set_status_core :
      (now : ℕ) (id status : String) (m : Message)
      → message_core (set_status_of now id status m) ≡ message_core m
  unfolding set_status
  set_status_core now id status m = ground arith

  writes_status : (id status : String) → Moves history (write_status env id status)
  unfolding write_status
  writes_status id status now fresh t t' tt e =
      let new = map (set_status_of now id status) t.messages in
      let same : t' ≡ record t { messages = new } = ground (arith, e) in
      subst (Extends t) (sym same) (
        with_messages t new (
          Grows-map message_core (set_status_of now id status) t.messages
            (set_status_core now id status)))

  inserts_token : (x : EnrollmentToken) → Moves history (insert_token env x)
  unfolding insert_token
  inserts_token x now fresh t t' tt e =
      let new = t.tokens ++ new_row env x ∷ [] in
      let same : t' ≡ record t { tokens = new } = ground (arith, e) in
      subst (Extends t) (sym same) (with_tokens t new (Grows-append token_core t.tokens _))

  mark_used_core :
      (at : ℕ) (device token : String) (x : EnrollmentToken)
      → token_core (mark_used at device token x) ≡ token_core x
  mark_used_core at device token x = ground arith

  uses_token : (at : ℕ) (device token : String) → Moves history (use_token env at device token)
  unfolding use_token
  uses_token at device token now fresh t t' n e =
      let new = map (mark_used at device token) t.tokens in
      let same : t' ≡ record t { tokens = new } = ground (arith, e) in
      subst (Extends t) (sym same) (
        with_tokens t new (
          Grows-map token_core (mark_used at device token) t.tokens
            (mark_used_core at device token)))

  enroll_user_core :
      (at now : ℕ) (id name token : String) (u : User)
      → user_core (enroll_user at now id name token u) ≡ user_core u
  enroll_user_core at now id name token u = ground arith

  re_enrolls :
      (at now : ℕ) (name token id : String) → Moves history (re_enroll env at now name token id)
  unfolding re_enroll
  re_enrolls at now name token id _ fresh t t' tt e =
      let new = map (enroll_user at now id name token) t.users in
      let same : t' ≡ record t { users = new } = ground (arith, e) in
      subst (Extends t) (sym same) (
        with_users t new (
          Grows-map user_core (enroll_user at now id name token) t.users
            (enroll_user_core at now id name token)))

  adopt_user_core :
      (at now : ℕ) (name device token : String) (u : User)
      → user_core (adopt_user at now name device token u) ≡ user_core u
  adopt_user_core at now name device token u = ground arith

  adopts :
      (at now : ℕ) (id name device token : String)
      → Moves history (insert_or_adopt env at now id name device token)
  unfolding insert_or_adopt
  adopts at now id name device token _ fresh t t' a e =
      elim (Option-cases (find (λ u. u.username == name) t.users)) [
        | inl missing ↦
            let new = t.users ++ mobile_user now id name device token ∷ [] in
            let same : t' ≡ record t { users = new } = ground (arith, e, missing) in
            subst (Extends t) (sym same) (with_users t new (Grows-append user_core t.users _))
        | inr (u, found) ↦
            let new = map (adopt_user at now name device token) t.users in
            let same : t' ≡ record t { users = new } = ground (arith, e, found) in
            subst (Extends t) (sym same) (
              with_users t new (
                Grows-map user_core (adopt_user at now name device token) t.users
                  (adopt_user_core at now name device token)))
      ]

  touch_named_core :
      (now : ℕ) (name : String) (u : User) → user_core (touch_named now name u) ≡ user_core u
  touch_named_core now name u = ground arith

  touches : (id name : String) (at : ℕ) → Moves history (insert_or_touch env id name at)
  unfolding insert_or_touch
  touches id name at now fresh t t' a e =
      elim (Option-cases (find (λ u. u.username == name) t.users)) [
        | inl missing ↦
            let new = t.users ++ web_user id name at ∷ [] in
            let same : t' ≡ record t { users = new } = ground (arith, e, missing) in
            subst (Extends t) (sym same) (with_users t new (Grows-append user_core t.users _))
        | inr (u, found) ↦
            let new = map (touch_named now name) t.users in
            let same : t' ≡ record t { users = new } = ground (arith, e, found) in
            subst (Extends t) (sym same) (
              with_users t new
                (Grows-map user_core (touch_named now name) t.users (touch_named_core now name)))
      ]

set_metadata_core :
    (now : ℕ) (sm row : SyncMetadata) → device_core (set_metadata now sm row) ≡ device_core row
set_metadata_core now sm row = ground arith

merge-Grows :
    (sm : SyncMetadata) (now : ℕ) (fresh : String) (rows : List SyncMetadata)
    → Grows device_core rows (merge sm now fresh rows)
unfolding merge
merge-Grows sm now fresh rows =
    elim (Bool-cases (any (λ row. row.device_id == sm.device_id) rows)) [
      | inl e ↦ rw e (Grows-map device_core (set_metadata now sm) rows (set_metadata_core now sm))
      | inr e ↦ rw e (Grows-append device_core rows _)
    ]

upserts : (sm : SyncMetadata) → Moves history (upsert sm)
unfolding upsert
upserts sm now fresh t t' tt e =
    let new = merge sm now fresh t.metadata in
    let same : t' ≡ record t { metadata = new } = ground (arith, e) in
    subst (Extends t) (sym same) (with_devices t new (merge-Grows sm now fresh t.metadata))

-- Every statement of the program, whatever its arguments.
pub history-Respects : (env : Env) → Respects env history
history-Respects env = record {
  inserts_user = inserts_user env;
  sets_users = sets_users env;
  inserts_message = inserts_message env;
  writes_status = writes_status env;
  inserts_token = inserts_token env;
  uses_token = uses_token env;
  re_enrolls = re_enrolls env;
  adopts = adopts env;
  upserts = upserts;
  touches = touches env;
}
