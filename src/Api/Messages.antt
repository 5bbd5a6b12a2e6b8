-- ===== src/Api/Messages.antt =====
-- sync-engine/internal/api/handlers/messages.go. The publisher's result is ignored by the handler
-- and its event goes to Redis only, so PublishNewMessage does nothing here.
pub mod Posting
pub mod Reading
use Prim.Native.String.{[], ◌∷◌}
use posduif.Common.{
  ℕ, zero, suc, ◌+◌, ◌*◌, ◌-◌, ◌^◌, Char, code, String, Bool, true, false, not, ◌&&◌, ◌||◌, ◌==◌,
  nat_eq, ltb, leb, Option, none, some, List, length, if◌then◌else◌,
}
use posduif.Common.Text.{split}
use posduif.Models.{User, Message, MessageFilter}
use posduif.Errors.{Result, ok, err}
use posduif.Database.{Env, M, pure, attempt, ◌>>=◌, ◌>>◌}
use posduif.Database.Users.{get_user_by_id, update_user}
use posduif.Database.Messages.{
  create_message, get_messages, get_unread_count, update_message_status,
}
use posduif.Api.{Request, Response, refuse, respond}

pub record CreateMessageRequest : Type 0 where
  pub recipient_id : String
  pub content : String

pub record MessageListResponse : Type 0 where
  pub messages : List Message
  pub total : ℕ
  pub limit : ℕ
  pub offset : ℕ

-- unicode.IsSpace
abbrev is_space : ℕ → Bool
is_space c =
    (leb 9 c && leb c 13)
    || (nat_eq c 32)
    || (nat_eq c 0x85)
    || (nat_eq c 0xA0)
    || (nat_eq c 0x1680)
    || (leb 0x2000 c && leb c 0x200A)
    || (nat_eq c 0x2028)
    || (nat_eq c 0x2029)
    || (nat_eq c 0x202F)
    || (nat_eq c 0x205F)
    || (nat_eq c 0x3000)

-- strings.TrimSpace(s) == ""
abbrev pub is_blank : String → Bool
is_blank [] = true
is_blank (c ∷ s) = is_space (code c) && is_blank s

-- strconv.Atoi: an int, an optional sign in front. Negative numbers are `none`, since the
-- callers keep their default for these as they do after an error.
abbrev digits_from : ℕ → String → Option ℕ
digits_from n [] = if ltb n (2 ^ 63) then some n else none
digits_from n (c ∷ s) =
    let rest = digits_from (n * 10 + (code c - b'0')) s in
    if leb b'0' (code c) && leb (code c) b'9' then rest else none

abbrev unsigned : String → Option ℕ
unsigned [] = none
unsigned (c ∷ s) = digits_from 0 (c ∷ s)

abbrev pub atoi : String → Option ℕ
atoi [] = none
atoi (c ∷ s) = if nat_eq (code c) b'+' then unsigned s else unsigned (c ∷ s)

abbrev pub positive_or : ℕ → Option ℕ → ℕ
positive_or default none = default
positive_or default (some n) = if ltb 0 n then n else default

-- limit: 50, or a positive number; the same for GetIncoming with 100.
abbrev pub limit_or : ℕ → String → ℕ
limit_or default s = positive_or default (atoi s)

abbrev or_absent : String → Option String
or_absent s = if s == "" then none else some s

abbrev pub or_zero : Option ℕ → ℕ
or_zero none = 0
or_zero (some n) = n

-- path[n:]
abbrev pub after : ℕ → String → String
after zero s = s
after (suc n) [] = []
after (suc n) (c ∷ s) = after n s

-- pathParts[3], where len(pathParts) is 4 or more
abbrev pub fourth : List String → Option String
fourth (List.◌∷◌ a (List.◌∷◌ b (List.◌∷◌ c (List.◌∷◌ d rest)))) = some d
fourth _ = none

abbrev pub draft : String → CreateMessageRequest → Message
draft user body = record {
  id = "";
  sender_id = user;
  recipient_id = body.recipient_id;
  content = body.content;
  status = "pending_sync";
  created_at = 0;
  updated_at = 0;
  synced_at = none;
  read_at = none;
}

abbrev pub list_filter : String → Request → MessageFilter
list_filter user r = record {
  recipient_id = some user;
  status = or_absent (r.parameter "status");
  limit = limit_or 50 (r.parameter "limit");
  offset = or_zero (atoi (r.parameter "offset"));
}

abbrev pub listed : MessageFilter → Result (List Message) → M (Response MessageListResponse)
listed filter (err e) = refuse 500 "Failed to get messages"
listed filter (ok ms) =
    respond 200
      (record { messages = ms; total = length ms; limit = filter.limit; offset = filter.offset })

abbrev pub counted : Result ℕ → M (Response ℕ)
counted (err e) = refuse 500 "Failed to get unread count"
counted (ok n) = respond 200 n

abbrev pub first_message : Result (List Message) → M (Response Message)
first_message (err e) = refuse 404 "Message not found"
first_message (ok List.[]) = refuse 404 "Message not found"
first_message (ok (List.◌∷◌ m ms)) = respond 200 m

abbrev pub marked : String → Result (Unit {0}) → M (Response (String × String))
marked id (err e) = refuse 500 "Failed to update message"
marked id (ok _) = respond 200 (id, "read")

module _ (env : Env) where
  unfoldable pub set_last_message : String → Result User → M (Unit {0})
  set_last_message content (err e) = pure tt
  set_last_message content (ok sender) = do
    _ ← attempt (update_user env (record sender { last_message_sent = some content }))
    pure tt

  unfoldable pub created :
      String → CreateMessageRequest → Message → Result (Unit {0}) → M (Response Message)
  created user body msg (err e) = refuse 500 "Failed to create message"
  created user body msg (ok _) = do
    sender ← attempt (get_user_by_id env user)
    set_last_message body.content sender
    respond 201 msg

  unfoldable pub send : String → CreateMessageRequest → Result User → M (Response Message)
  send user body (err e) = refuse 404 "Recipient not found"
  send user body (ok recipient) = do
    (msg, r) ← create_message env (draft user body)
    created user body msg r

  unfoldable pub post : String → CreateMessageRequest → M (Response Message)
  post user body =
      if is_blank body.content
      then refuse 400 "Message content cannot be empty"
      else do recipient ← attempt (get_user_by_id env body.recipient_id); send user body recipient

  abbrev pub post_for : Option String → Option CreateMessageRequest → M (Response Message)
  post_for none body = refuse 401 "Unauthorized"
  post_for (some user) none = refuse 400 "Invalid request body"
  post_for (some user) (some b) = post user b

  -- CreateMessage of the handler
  unfoldable pub handle_create_message :
      Request → Option CreateMessageRequest → M (Response Message)
  handle_create_message r body =
      if not (r.method == "POST") then refuse 405 "Method not allowed" else post_for r.user body

  -- ListMessages
  unfoldable pub list_messages : Request → M (Response MessageListResponse)
  list_messages r =
      if not (r.method == "GET") then refuse 405 "Method not allowed" else elim r.user [
        | none ↦ refuse 401 "Unauthorized"
        | some user ↦ do
          ms ← attempt (get_messages env (list_filter user r))
          listed (list_filter user r) ms
      ]

  -- GetUnreadCount of the handler
  unfoldable pub handle_get_unread_count : Request → M (Response ℕ)
  handle_get_unread_count r =
      if not (r.method == "GET") then refuse 405 "Method not allowed" else elim r.user [
        | none ↦ refuse 401 "Unauthorized"
        | some user ↦ do n ← attempt (get_unread_count env user); counted n
      ]

  -- GetMessage; the router hands it only paths under /api/messages/.
  unfoldable pub get_message : Request → M (Response Message)
  get_message r =
      if not (r.method == "GET")
      then refuse 405 "Method not allowed"
      else if after 14 r.path == ""
      then refuse 400 "Message ID required"
      else do
        ms ← attempt (
            get_messages env (record { recipient_id = none; status = none; limit = 1; offset = 0 }))
        first_message ms

  -- MarkAsRead
  unfoldable pub mark_as_read : Request → M (Response (String × String))
  mark_as_read r =
      if not (r.method == "PUT")
      then refuse 405 "Method not allowed"
      else elim (fourth (split b'/' r.path)) [
        | none ↦ refuse 400 "Invalid path"
        | some id ↦ do e ← attempt (update_message_status env id "read"); marked id e
      ]
