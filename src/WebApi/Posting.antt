-- ===== src/WebApi/Posting.antt =====
-- messages.go: what CreateMessage of the web API stores, on every branch.
use posduif.Common.{
  ℕ, String, false, ◌==◌, ◌≡◌, refl, ap, ◌∙◌, sym, subst, none, some, Option, [], ◌∷◌, ◌++◌, arith,
  inl, inr, Bool-cases,
}
use posduif.Models.{User, Message}
use posduif.Errors.{Result, ok, err}
use posduif.Database.{Env, World, Tables, M, advance, query, exec, new_uuid, ◌>>=◌}
use posduif.Database.Users.{set_users}
use posduif.Database.Statements.{Ends, took, failed, exec-Ends}
use posduif.Database
use posduif.Database.Schema.{has_message}
use posduif.Database.Messages.{insert_message}
use posduif.Database.Messages.Create.{filled, filling, insert_message-ok}
use posduif.Api.{Request, Response, failure, reply}
use posduif.Api.Messages.{CreateMessageRequest}
use posduif.WebApi.Queries.{
  get_user_by_id, update_user, remember_last, after_insert, fill_message, create_message,
}
use posduif.WebApi.Handlers.{new_message, posted, post, handle_create_message}

set_users-messages :
    (env : Env) (u : User) (now : ℕ) (fresh : String) (t t' : Tables)
    → set_users env u now fresh t ≡ ok (tt, t')
    → t'.messages ≡ t.messages
unfolding set_users
set_users-messages env u now fresh t t' e = ground arith

-- An action that always succeeds and leaves the messages alone.
abbrev Spares : World → Result (Unit {0}) × World → Type 0
Spares w p = (p.0 ≡ ok tt) × (p.1.tables.messages ≡ w.tables.messages)

module _ (env : Env) where
  updated :
      (content : String) (u : User) (w : World) (p : Result (Unit {0}) × World)
      → update_user env (record u { last_message_sent = some content }) w ≡ p
      → Ends env (set_users env (record u { last_message_sent = some content })) w p
      → Spares w (remember_last env content (ok u) w)
  unfolding remember_last
  updated content u w p e (took tt t h q) =
      let same = set_users-messages env _ _ _ w.tables t h in
      (ground (arith, e ∙ q), ground (arith, e ∙ q))
  updated content u w p e (failed x q) = (ground (arith, e ∙ q), ground (arith, e ∙ q))

  remember_last-Spares :
      (content : String) (r : Result User) (w : World) → Spares w (remember_last env content r w)
  unfolding remember_last update_user
  remember_last-Spares content (ok u) w =
      updated content u w _ refl
        (exec-Ends env (set_users env (record u { last_message_sent = some content })) w)
  remember_last-Spares content (err e) w = (refl, refl)

  get_user_by_id-tables : (id : String) (w : World) → (get_user_by_id env id w).1.tables ≡ w.tables
  unfolding get_user_by_id query
  get_user_by_id-tables id w = ground arith

  after_insert-Spares :
      (msg : Message) (r : Result (Unit {0})) (w : World) → Spares w (after_insert env msg r w)
  unfolding after_insert
  after_insert-Spares msg (err e) w = (refl, refl)
  after_insert-Spares msg (ok _) w =
      let s = remember_last-Spares msg.content _ (get_user_by_id env msg.sender_id w).1 in
      (s.0, s.1 ∙ ap (λ t. t.messages) (get_user_by_id-tables msg.sender_id w))

  fill_message_lem :
      (msg : Message) (w : World) → fill_message env msg w ≡ (ok (filled env msg w), filling msg w)
  unfolding fill_message Database.now new_uuid
  fill_message_lem msg w = ground arith

  -- The statement of CreateMessage, and the world in which it runs.
  abbrev run_insert : Message → World → Result (Unit {0}) × World
  run_insert msg w = exec env (insert_message env (filled env msg w)) (filling msg w)

  create_message_lem :
      (msg : Message) (w : World) (r : Result (Unit {0})) (w1 : World)
      → run_insert msg w ≡ (r, w1)
      → create_message env msg w
        ≡ (ok (filled env msg w, r), (after_insert env (filled env msg w) r w1).1)
  unfolding create_message
  create_message_lem msg w r w1 e =
      ground (arith, fill_message_lem msg w, (after_insert-Spares (filled env msg w) r w1).0)

-- The message stands in the table as it was answered, under a new id and with what the request
-- says, or the request was refused and the tables are as before.
pub data Posts (user : String) (body : Option CreateMessageRequest) (before : Tables)
    (p : Result (Response Message) × World) : Type 0 where
  stored :
      (m : Message) (b : CreateMessageRequest)
      → body ≡ some b
      → p.0 ≡ ok (reply 201 m)
      → p.1.tables.messages ≡ before.messages ++ m ∷ []
      → has_message m.id before.messages ≡ false
      → m.sender_id ≡ user
      → m.recipient_id ≡ b.recipient_id
      → m.content ≡ b.content
      → m.status ≡ "pending_sync"
      → Posts user body before p
  refused :
      (status : ℕ) (s : String)
      → p.0 ≡ ok (failure status s)
      → p.1.tables ≡ before
      → Posts user body before p

post_lem :
    (env : Env) (user : String) (body : CreateMessageRequest) (w : World)
    → post env user (some body) w
      ≡ (do r ← create_message env (new_message (env.uuid w.tick) user body); posted r) (advance w)
unfolding post new_uuid
post_lem env user body w = refl

post_by :
    (env : Env) (user : String) (body : CreateMessageRequest) (w : World) (m : Message)
    (r : Result (Unit {0})) (w' : World)
    → create_message env (new_message (env.uuid w.tick) user body) (advance w) ≡ (ok (m, r), w')
    → post env user (some body) w ≡ posted (m, r) w'
post_by env user body w m r w' e = ground (arith, post_lem env user body w, e)

post_ends :
    (env : Env) (user : String) (body : CreateMessageRequest) (w : World)
    (p : Result (Unit {0}) × World)
    → let msg = new_message (env.uuid w.tick) user body in
      run_insert env msg (advance w) ≡ p
      → Ends env (insert_message env (filled env msg (advance w))) (filling msg (advance w)) p
      → Posts user (some body) w.tables (post env user (some body) w)
unfolding after_insert
post_ends env user body w p e (took tt t h q) =
    let msg = new_message (env.uuid w.tick) user body in
    let (same, new) = insert_message-ok env (filled env msg (advance w)) _ _ w.tables t h in
    let run =
      post_by env user body w _ _ _ (create_message_lem env msg (advance w) (ok tt) _ (e ∙ q)) in
    subst (Posts user (some body) w.tables) (sym run) (
      stored (filled env msg (advance w)) body refl refl
        ((after_insert-Spares env (filled env msg (advance w)) (ok tt) _).1
          ∙ ap (λ x. x.messages) same)
        new refl refl refl refl)
post_ends env user body w p e (failed x q) =
    let msg = new_message (env.uuid w.tick) user body in
    let run =
      post_by env user body w _ _ _ (create_message_lem env msg (advance w) (err x) _ (e ∙ q)) in
    subst (Posts user (some body) w.tables) (sym run) (refused 500 _ refl refl)

post-Posts :
    (env : Env) (user : String) (body : Option CreateMessageRequest) (w : World)
    → Posts user body w.tables (post env user body w)
unfolding post
post-Posts env user none w = refused 400 _ refl refl
post-Posts env user (some body) w = post_ends env user body w _ refl (exec-Ends env _ _)

-- CreateMessage of the web API on every branch, that of a body which is no request included, and
-- against any database: either it answers 201 and the table of messages has the answered message
-- as its new last row, under an id that no row had, from the user of the header X-User-ID, with
-- the recipient and content of the decoded body and the status pending_sync, or it answers with a
-- failure and all tables are as before.
pub web_message-Posts :
    (env : Env) (r : Request) (body : Option CreateMessageRequest) (w : World)
    → Posts (r.header "X-User-ID") body w.tables (handle_create_message env r body w)
unfolding handle_create_message
web_message-Posts env r body w = elim (Bool-cases (r.method == "POST")) [
  | inr e ↦ rw e (refused 405 _ refl refl)
  | inl e ↦ elim (Bool-cases (r.header "X-User-ID" == "")) [
    | inl k ↦ rw (e, k) (refused 401 _ refl refl)
    | inr k ↦ rw (e, k) (post-Posts env (r.header "X-User-ID") body w)
  ]
]
