-- ===== src/WebApi/Listing.antt =====
-- users.go and messages.go: whose rows the lists of the web API show.
use mathlib.Core.List.{Perm, Mem, mem-cons_self, mem-cons_of_mem}
use mathlib.Core.List.Perm
use posduif.Common.{
  ℕ, ◌≤◌, String, Bool, true, false, ◌==◌, ◌≡◌, refl, ap, ◌∙◌, sym, subst, ◌⊎◌, List, some, none,
  [], ◌∷◌, ◌++◌, arith, take, drop, select, All, All-take, All-drop, select-All, length,
  length-take-le, take_all, inl, inr, Bool-cases, eq_iff, if◌then◌else◌,
}
use posduif.Common.Rows.{All-imp}
use posduif.Common.Sort.{All-order_by, Ordered, Ordered-take, Ordered-drop, order_by-perm}
use posduif.Database.Messages.Order.{Newer, newest_first-Ordered}
use posduif.Models.{User, Message}
use posduif.Errors.{Result, ok, err, refused, invalid_text}
use posduif.Database.{Env, World, Tables, query, advance}
use posduif.Database.Messages.{newest_first}
use posduif.Api.{Request, Response, reply}
use posduif.Api.Messages.{CreateMessageRequest, limit_or, atoi, or_zero}
use posduif.WebApi.Queries.{is_of, page, get_messages, get_web_users}
use posduif.WebApi.Handlers.{
  list_messages, get_available_web_users, handle_create_message, listed, available,
}
use posduif.WebApi.Posting.{Posts, stored, refused as refused_post, web_message-Posts}

-- The answer of ListMessages, given what GetMessages found.
list_messages_lem :
    (env : Env) (r : Request) (w : World)
    → r.method ≡ "GET"
    → (r.header "X-User-ID" == "") ≡ false
    → env.fault w.tick ≡ none
    → list_messages env r w
      ≡ listed "Failed to get messages"
          (page env
            (r.header "X-User-ID")
            (limit_or 50 (r.parameter "limit"))
            (or_zero (atoi (r.parameter "offset")))
            w.tables)
          (advance w)
unfolding list_messages get_messages query
list_messages_lem env r w get named up = rw (get, named) (ground (arith, up))

of_ok :
    (test : Bool) (xs ms : List Message)
    → (if test then ok xs else err (refused invalid_text)) ≡ ok ms
    → xs ≡ ms
of_ok true xs ms e = ground (arith, e)
of_ok false xs ms e = absurd (ground (arith, e))

-- The user sent the message or is to get it.
abbrev Concerns : String → Message → Type 0
Concerns user m = (m.sender_id ≡ user) ⊎ (m.recipient_id ≡ user)

is_of-Concerns :
    (env : Env) (user : String) (m : Message) → is_of env user m ≡ true → Concerns user m
is_of-Concerns env user m h = elim (Bool-cases (m.sender_id == user)) [
  | inl e ↦ inl ((eq_iff m.sender_id user).0 e)
  | inr e ↦ inr ((eq_iff m.recipient_id user).0 (ground (arith, h, e)))
]

page-All :
    (env : Env) (user : String) (limit offset : ℕ) (t : Tables) (ms : List Message)
    → page env user limit offset t ≡ ok ms
    → All (Concerns user) ms × (length ms ≤ limit) × Ordered Newer ms
page-All env user limit offset t ms e =
    let rows = drop offset (newest_first (select (is_of env user) t.messages)) in
    subst (λ xs. All (Concerns user) xs × (length xs ≤ limit) × Ordered Newer xs)
      (of_ok (env.is_uuid user) (take limit rows) ms e)
      (
        All-take _ limit rows (
            All-drop _ offset _ (
              All-order_by _ _ _ (
                All-imp _ _ _ (is_of-Concerns env user) (select-All (is_of env user) t.messages)))),
        length-take-le limit rows,
        Ordered-take Newer limit rows (Ordered-drop Newer offset _ (newest_first-Ordered _)),
      )

newest_first-Mem : (m : Message) (ms : List Message) → Mem m ms → Mem m (newest_first ms)
newest_first-Mem m ms h = (Perm.mem_iff (order_by-perm _ ms)).1 h

pub select_last :
    (p : Message → Bool) (ms : List Message) (m : Message)
    → p m ≡ true
    → Mem m (select p (ms ++ m ∷ []))
select_last p [] m h = rw h mem-cons_self
select_last p (x ∷ ms) m h = elim (Bool-cases (p x)) [
  | inl e ↦ rw e (mem-cons_of_mem x (select_last p ms m h))
  | inr e ↦ rw e (select_last p ms m h)
]

listed_own :
    (env : Env) (user : String) (limit offset : ℕ) (t : Tables) (w : World) (status : ℕ)
    (ms : List Message) (found : Result (List Message))
    → page env user limit offset t ≡ found
    → (listed "Failed to get messages" found w).0 ≡ ok (reply status ms)
    → All (Concerns user) ms × (length ms ≤ limit) × Ordered Newer ms
listed_own env user limit offset t w status ms (ok xs) p e =
    page-All env user limit offset t ms (p ∙ ground (arith, e))
listed_own env user limit offset t w status ms (err x) p e = absurd (ground (arith, e))

-- Whatever list ListMessages answers with, while the database answers the query: each message in
-- it was sent by, or sent to, the user of the header X-User-ID, there are at most as many as the
-- limit of the request, or 50, and no message is older than one behind it.
pub list_messages_own :
    (env : Env) (r : Request) (w : World) (status : ℕ) (ms : List Message)
    → r.method ≡ "GET"
    → (r.header "X-User-ID" == "") ≡ false
    → env.fault w.tick ≡ none
    → (list_messages env r w).0 ≡ ok (reply status ms)
    → All (λ m. (m.sender_id ≡ r.header "X-User-ID") ⊎ (m.recipient_id ≡ r.header "X-User-ID")) ms
      × (length ms ≤ limit_or 50 (r.parameter "limit"))
      × Ordered (λ m n. n.created_at ≤ m.created_at) ms
list_messages_own env r w status ms get named up e =
    listed_own env (r.header "X-User-ID") (limit_or 50 (r.parameter "limit"))
      (or_zero (atoi (r.parameter "offset"))) w.tables (advance w) status ms _ refl
      (ap (λ p. p.0) (sym (list_messages_lem env r w get named up)) ∙ e)

is_of_either :
    (env : Env) (user : String) (m : Message)
    → (user ≡ m.sender_id) ⊎ (user ≡ m.recipient_id)
    → is_of env user m ≡ true
is_of_either env user m (inl e) = ground (arith, eq_iff m.sender_id user, sym e)
is_of_either env user m (inr e) = ground (arith, eq_iff m.recipient_id user, sym e)

full_page :
    (env : Env) (user : String) (limit offset : ℕ) (t : Tables)
    → env.is_uuid user ≡ true
    → offset ≡ 0
    → length (newest_first (select (is_of env user) t.messages)) ≤ limit
    → page env user limit offset t ≡ ok (newest_first (select (is_of env user) t.messages))
full_page env user limit offset t valid e h = rw (valid, e) (ap ok (take_all limit _ h))

pub same_reply :
    (m n : Message) → Path (Result (Response Message)) (ok (reply 201 m)) (ok (reply 201 n)) → m ≡ n
same_reply m n p = cc

-- A posted message is listed: after CreateMessage answered 201 with a message, ListMessages
-- answers its sender and its recipient, each under a UUID, with a list that has this very message
-- in it, if the database answers the query, no offset is asked for and the limit is not smaller
-- than the number of that user's messages.
pub post_then_list :
    (env : Env) (r q : Request) (body : CreateMessageRequest) (w w1 : World) (m : Message)
    → handle_create_message env r (some body) w ≡ (ok (reply 201 m), w1)
    → q.method ≡ "GET"
    → (q.header "X-User-ID" ≡ m.sender_id) ⊎ (q.header "X-User-ID" ≡ m.recipient_id)
    → (q.header "X-User-ID" == "") ≡ false
    → env.is_uuid (q.header "X-User-ID") ≡ true
    → env.fault w1.tick ≡ none
    → or_zero (atoi (q.parameter "offset")) ≡ 0
    → length (newest_first (select (is_of env (q.header "X-User-ID")) w1.tables.messages))
      ≤ limit_or 50 (q.parameter "limit")
    → (ms : List Message) × (list_messages env q w1 ≡ (ok (reply 200 ms), advance w1)) × Mem m ms
post_then_list env r q body w w1 m run get who named valid up none_skipped enough =
    let user = q.header "X-User-ID" in
    let rows = newest_first (select (is_of env user) w1.tables.messages) in
    (
      rows,
      list_messages_lem env q w1 get named up
          ∙ ap (λ found. listed "Failed to get messages" found (advance w1))
              (full_page env user _ _ w1.tables valid none_skipped enough),
      newest_first-Mem m _ (
          last_of (
            subst (Posts (r.header "X-User-ID") (some body) w.tables) run
              (web_message-Posts env r (some body) w))),
    )
  where
    last_of :
        Posts (r.header "X-User-ID") (some body) w.tables (ok (reply 201 m), w1)
        → Mem m (select (is_of env (q.header "X-User-ID")) w1.tables.messages)
    last_of (stored n b decoded p same new from to content status) =
        subst (λ ms. Mem m (select (is_of env (q.header "X-User-ID")) ms))
          (ap (λ x. w.tables.messages ++ x ∷ []) (same_reply m n p) ∙ sym same)
          (select_last (is_of env (q.header "X-User-ID")) w.tables.messages m
            (is_of_either env (q.header "X-User-ID") m who))
    last_of (refused_post status s p same) = absurd (ground (arith, p))

-- Whichever collation orders the names, the list for the login screen is the web users of the
-- table, each once and nobody else, if the database answers.
pub available_web_users-perm :
    (env : Env) (collation : String → String → Bool) (r : Request) (w : World)
    → r.method ≡ "GET"
    → env.fault w.tick ≡ none
    → (us : List User) × (get_available_web_users env collation r w
        ≡ (ok (reply 200 us), advance w))
      × Perm us (select (λ u. u.user_type == "web") w.tables.users)
unfolding get_available_web_users get_web_users query available
available_web_users-perm env collation r w get up =
    (_, rw get (ground (arith, up)), order_by-perm (λ v u. collation v.username u.username) _)
