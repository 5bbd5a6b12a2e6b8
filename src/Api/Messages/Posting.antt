-- ===== src/Api/Messages/Posting.antt =====
-- handlers/messages.go: CreateMessage on every branch.
use posduif.Common.{
  ℕ, String, false, ◌==◌, ◌≡◌, refl, ap, ◌∙◌, ◌++◌, Option, none, some, [], ◌∷◌, arith, Bool-cases,
  inl, inr,
}
use posduif.Models.{User, Message}
use posduif.Errors.{Result, ok, err}
use posduif.Database.{Env, World, Tables, query}
use posduif.Database.Statements.{Ends, exec-Ends}
use posduif.Database.Users.{set_users, get_user_by_id, update_user}
use posduif.Database.Messages.{create_message}
use posduif.Database.Messages.Create.{create_message-Creates, Inserts, inserted, filled, stored}
use posduif.Api.{Request, Response, failure, reply}
use posduif.Api.Messages.{
  CreateMessageRequest, is_blank, draft, set_last_message, created, send, post, post_for,
  handle_create_message,
}

-- How a call ends: one message of the authenticated user is stored and handed back, or a failure
-- status is answered and the tables are as before.
pub data Posts (r : Request) (body : Option CreateMessageRequest) (w : World)
    (p : Result (Response Message) × World) : Type 0 where
  posted :
      (user : String) (b : CreateMessageRequest) (msg : Message)
      → r.user ≡ some user
      → body ≡ some b
      → is_blank b.content ≡ false
      → msg.sender_id ≡ user
      → msg.recipient_id ≡ b.recipient_id
      → msg.content ≡ b.content
      → msg.status ≡ "pending_sync"
      → p.0 ≡ ok (reply 201 msg)
      → p.1.tables.messages ≡ w.tables.messages ++ stored msg ∷ []
      → Posts r body w p
  turned_down :
      (status : ℕ) (s : String)
      → p.0 ≡ ok (failure status s)
      → p.1.tables ≡ w.tables
      → Posts r body w p

set_users-messages :
    (env : Env) (u : User) (at : ℕ) (x : String) (t t' : Tables)
    → set_users env u at x t ≡ ok (tt, t')
    → t'.messages ≡ t.messages
unfolding set_users
set_users-messages env u at x t t' e = ground arith

update_messages :
    (env : Env) (u : User) (w : World) (p : Result (Unit {0}) × World)
    → Ends env (set_users env u) w p
    → p.1.tables.messages ≡ w.tables.messages
update_messages env u w p (Ends.took a t h q) =
    ap (λ r. r.1.tables.messages) q ∙ set_users-messages env u _ _ w.tables t h
update_messages env u w p (Ends.failed e q) = ap (λ r. r.1.tables.messages) q

-- The last steps touch users only.
pub set_last_message-messages :
    (env : Env) (content : String) (s : Result User) (w : World)
    → (set_last_message env content s w).1.tables.messages ≡ w.tables.messages
unfolding set_last_message update_user
set_last_message-messages env content (err e) w = refl
set_last_message-messages env content (ok sender) w =
    let u = record sender { last_message_sent = some content } in
    update_messages env u w _ (exec-Ends env (set_users env u) w)

pub set_last_message-ok :
    (env : Env) (content : String) (s : Result User) (w : World)
    → (set_last_message env content s w).0 ≡ ok tt
unfolding set_last_message
set_last_message-ok env content (err e) w = refl
set_last_message-ok env content (ok sender) w = refl

pub get_user_tables :
    (env : Env) (id : String) (w : World) → (get_user_by_id env id w).1.tables ≡ w.tables
unfolding get_user_by_id query
get_user_tables env id w = ground arith

created-ok :
    (env : Env) (user : String) (b : CreateMessageRequest) (msg : Message) (w : World)
    → ((created env user b msg (ok tt) w).0 ≡ ok (reply 201 msg))
      × ((created env user b msg (ok tt) w).1.tables.messages ≡ w.tables.messages)
unfolding created
created-ok env user b msg w =
    let s = get_user_by_id env user w in
    (
      ground (arith, set_last_message-ok env b.content s.0 s.1),
      ground (
        arith,
        set_last_message-ok env b.content s.0 s.1,
        set_last_message-messages env b.content s.0 s.1,
        get_user_tables env user w,
      ),
    )

-- The part after the search for the recipient.
sent :
    (env : Env) (r : Request) (user : String) (b : CreateMessageRequest) (w w1 : World)
    (made : Result (Message × Result (Unit {0})) × World) (outcome : Result (Unit {0}))
    → r.user ≡ some user
    → is_blank b.content ≡ false
    → w1.tables ≡ w.tables
    → create_message env (draft user b) w1 ≡ made
    → made.0 ≡ ok (filled env (draft user b) w1, outcome)
    → Inserts (filled env (draft user b) w1) w1.tables outcome made.1.tables
    → Posts r (some b) w (created env user b (filled env (draft user b) w1) outcome made.1)
unfolding created
sent env r user b w w1 made (ok _) who text same run out (inserted at e rows new) =
    let (answered, kept) = created-ok env user b (filled env (draft user b) w1) made.1 in
    posted user b (filled env (draft user b) w1) who refl text refl refl refl refl answered (
      kept
      ∙ ap (λ t. t.messages) rows
      ∙ ap (λ t. t.messages ++ stored (filled env (draft user b) w1) ∷ []) same)
sent env r user b w w1 made (err x) who text same run out (inserted at e rows new) =
    absurd (ground arith)
sent env r user b w w1 made (ok _) who text same run out (Inserts.failed x e kept) =
    absurd (ground arith)
sent env r user b w w1 made (err x) who text same run out (Inserts.failed y e kept) =
    turned_down 500 "Failed to create message" refl (kept ∙ same)

send-Posts :
    (env : Env) (r : Request) (user : String) (b : CreateMessageRequest) (found : Result User)
    (w w1 : World)
    → r.user ≡ some user
    → is_blank b.content ≡ false
    → w1.tables ≡ w.tables
    → Posts r (some b) w (send env user b found w1)
unfolding send
send-Posts env r user b (err e) w w1 who text same = turned_down 404 "Recipient not found" refl same
send-Posts env r user b (ok u) w w1 who text same =
    let c = create_message-Creates env (draft user b) w1 in
    rw c.result (
      sent env r user b w w1 (create_message env (draft user b) w1) c.outcome who text same refl
        c.result c.effect)

post-Posts :
    (env : Env) (r : Request) (user : String) (b : CreateMessageRequest) (w : World)
    → r.user ≡ some user
    → Posts r (some b) w (post env user b w)
unfolding post
post-Posts env r user b w who = elim (Bool-cases (is_blank b.content)) [
  | inl e ↦ rw e (turned_down 400 "Message content cannot be empty" refl refl)
  | inr e ↦ rw e (
      send-Posts env r user b (get_user_by_id env b.recipient_id w).0 w
        (get_user_by_id env b.recipient_id w).1 who e (get_user_tables env b.recipient_id w))
]

post_for-Posts :
    (env : Env) (r : Request) (user : Option String) (body : Option CreateMessageRequest)
    (w : World)
    → r.user ≡ user
    → Posts r body w (post_for env user body w)
post_for-Posts env r none body w who = turned_down 401 "Unauthorized" refl refl
post_for-Posts env r (some user) none w who = turned_down 400 "Invalid request body" refl refl
post_for-Posts env r (some user) (some b) w who = post-Posts env r user b w who

-- CreateMessage of the handler, on every branch: either it answers 201 with a pending message from
-- the authenticated user, with the recipient and the content of the request, which is not blank, and
-- that message is the new last row; or it answers with a failure and no table has changed.
pub handle_create_message-Posts :
    (env : Env) (r : Request) (body : Option CreateMessageRequest) (w : World)
    → Posts r body w (handle_create_message env r body w)
unfolding handle_create_message
handle_create_message-Posts env r body w = elim (Bool-cases (r.method == "POST")) [
  | inr e ↦ rw e (turned_down 405 "Method not allowed" refl refl)
  | inl e ↦ rw e (post_for-Posts env r r.user body w refl)
]
