-- ===== src/System/History.antt =====
-- Both servers: no statement deletes a row or changes what identifies it.
pub mod Statements
use posduif.Common.{
  ℕ, String, Bool, true, false, not, ◌&&◌, ◌||◌, ◌==◌, ◌≡◌, refl, ap, sym, subst, ◌∙◌, none, some,
  Option, List, [], ◌∷◌, ◌++◌, map, any, find, arith, eq_iff, Bool-cases, Option-cases, inl, inr,
  if◌then◌else◌,
}
use posduif.Models.{User, Message, EnrollmentToken, SyncMetadata}
use posduif.Errors.{Result, ok, err}
use posduif.Database.{Env, Tables, done}
use posduif.Database.Schema.{has_user, touch_sender}
use posduif.Database.Users.{set_user, insert_user, set_users}
use posduif.Database.Messages.{set_status, set_status_of, insert_message, write_status}
use posduif.Database.Messages.Create.{insert_message-ok}
use posduif.Database.Tokens.{
  mark_used, enroll_user, adopt_user, mobile_user, insert_token, use_token, re_enroll,
  insert_or_adopt,
}
use posduif.Database.Metadata.{set_metadata, merge, upsert}
use posduif.WebApi.Queries.{touch_named, insert_or_touch}
use posduif.System.Actions.{TableOrder, Moves}
use posduif.System.Growth.{Grows, Grows-refl, Grows-trans, Grows-append, Grows-map}
use posduif.System.Queries.{Respects}

abbrev pub message_core : Message → String × String × String × String × ℕ
message_core m = (m.id, m.sender_id, m.recipient_id, m.content, m.created_at)

abbrev pub user_core : User → String × ℕ
user_core u = (u.id, u.created_at)

abbrev pub token_core : EnrollmentToken → String × String × String × String × ℕ
token_core e = (e.id, e.token, e.created_by, e.tenant_id, e.expires_at)

abbrev pub device_core : SyncMetadata → String × String × ℕ
device_core sm = (sm.id, sm.device_id, sm.created_at)

-- The rows of before, in their order and with these columns as they were, in front of new ones.
pub record Extends (t u : Tables) : Type 0 where
  pub messages : Grows message_core t.messages u.messages
  pub users : Grows user_core t.users u.users
  pub tokens : Grows token_core t.tokens u.tokens
  pub devices : Grows device_core t.metadata u.metadata

pub Extends-refl : (t : Tables) → Extends t t
Extends-refl t = record {
  messages = Grows-refl message_core t.messages;
  users = Grows-refl user_core t.users;
  tokens = Grows-refl token_core t.tokens;
  devices = Grows-refl device_core t.metadata;
}

pub Extends-trans : (t u v : Tables) → Extends t u → Extends u v → Extends t v
Extends-trans t u v h k = record {
  messages = Grows-trans message_core t.messages u.messages v.messages h.messages k.messages;
  users = Grows-trans user_core t.users u.users v.users h.users k.users;
  tokens = Grows-trans token_core t.tokens u.tokens v.tokens h.tokens k.tokens;
  devices = Grows-trans device_core t.metadata u.metadata v.metadata h.devices k.devices;
}

abbrev pub history : TableOrder
history = record { R = Extends; same = Extends-refl; chain = Extends-trans }

-- New users, messages, tokens or rows of metadata, with all else as it was.
pub with_users :
    (t : Tables) (us : List User) → Grows user_core t.users us → Extends t (record t { users = us })
with_users t us h = record {
  messages = Grows-refl message_core t.messages;
  users = h;
  tokens = Grows-refl token_core t.tokens;
  devices = Grows-refl device_core t.metadata;
}

pub with_messages :
    (t : Tables) (ms : List Message)
    → Grows message_core t.messages ms
    → Extends t (record t { messages = ms })
with_messages t ms h = record {
  messages = h;
  users = Grows-refl user_core t.users;
  tokens = Grows-refl token_core t.tokens;
  devices = Grows-refl device_core t.metadata;
}

pub with_tokens :
    (t : Tables) (es : List EnrollmentToken)
    → Grows token_core t.tokens es
    → Extends t (record t { tokens = es })
with_tokens t es h = record {
  messages = Grows-refl message_core t.messages;
  users = Grows-refl user_core t.users;
  tokens = h;
  devices = Grows-refl device_core t.metadata;
}

pub with_devices :
    (t : Tables) (rows : List SyncMetadata)
    → Grows device_core t.metadata rows
    → Extends t (record t { metadata = rows })
with_devices t rows h = record {
  messages = Grows-refl message_core t.messages;
  users = Grows-refl user_core t.users;
  tokens = Grows-refl token_core t.tokens;
  devices = h;
}
