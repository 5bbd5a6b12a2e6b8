-- ===== src/Database/Messages/Create.antt =====
-- queries.go: CreateMessage on every branch.
use posduif.Common.{
  ℕ, suc, String, false, ◌==◌, ◌≡◌, refl, sym, subst, ◌∙◌, ◌++◌, none, [], ◌∷◌, map, arith,
  if◌then◌else◌, nat_eq,
}
use posduif.Models.{Message}
use posduif.Errors.{Error, Result, ok, err}
use posduif.Database.{Env, World, Tables, exec, done, new_uuid}
use posduif.Database
use posduif.Database.Statements.{Ends, took, exec-Ends}
use posduif.Database.Schema.{touch_sender, has_message}
use posduif.Database.Messages.{insert_message, fill_message, create_message}

abbrev pub stored : Message → Message
stored m = record m { synced_at = none; read_at = none }

abbrev pub with_message : ℕ → Message → Tables → Tables
with_message at m t = record t {
  messages = t.messages ++ stored m ∷ [];
  users = map (touch_sender at m) t.users;
}

-- The insert took place under a new id, or failed and changed nothing.
pub data Inserts (m : Message) (t : Tables) (r : Result (Unit {0})) (t' : Tables) : Type 0 where
  inserted :
      (at : ℕ)
      → r ≡ ok tt
      → t' ≡ with_message at m t
      → has_message m.id t.messages ≡ false
      → Inserts m t r t'
  failed : (e : Error) → r ≡ err e → t' ≡ t → Inserts m t r t'

pub insert_message-ok :
    (env : Env) (m : Message) (at : ℕ) (fresh : String) (t t' : Tables)
    → insert_message env m at fresh t ≡ ok (tt, t')
    → (t' ≡ with_message at m t) × (has_message m.id t.messages ≡ false)
unfolding insert_message
insert_message-ok env m at fresh t t' e = ground arith

-- What the caller finds behind the pointer.
abbrev pub filled_with : ℕ → String → Message → Message
filled_with now id msg = record msg {
  id = if msg.id == "" then id else msg.id;
  status = if msg.status == "" then "pending_sync" else msg.status;
  created_at = if nat_eq msg.created_at 0 then now else msg.created_at;
  updated_at = now;
}

abbrev pub filled : Env → Message → World → Message
filled env msg w = filled_with (env.time w.tick) (env.uuid (suc w.tick)) msg

abbrev pub filling : Message → World → World
filling msg w = record w { tick = if msg.id == "" then suc (suc w.tick) else suc w.tick }

fill_message_lem :
    (env : Env) (msg : Message) (w : World)
    → fill_message env msg w ≡ (ok (filled env msg w), filling msg w)
unfolding fill_message Database.now new_uuid
fill_message_lem env msg w = ground arith

-- How a call of CreateMessage ends.
pub record Creates (env : Env) (msg : Message) (w : World)
    (p : Result (Message × Result (Unit {0})) × World) : Type 0 where
  pub outcome : Result (Unit {0})
  pub result : p.0 ≡ ok (filled env msg w, outcome)
  pub effect : Inserts (filled env msg w) w.tables outcome p.1.tables
  pub changes : p.1.changes ≡ w.changes

attempted :
    (env : Env) (msg : Message) (w : World) (r : Result (Unit {0})) (w' : World)
    → exec env (insert_message env (filled env msg w)) (filling msg w) ≡ (r, w')
    → create_message env msg w ≡ (ok (filled env msg w, r), w')
unfolding create_message
attempted env msg w r w' e = ground (arith, fill_message_lem env msg w)

created :
    (env : Env) (msg : Message) (w : World) (p : Result (Unit {0}) × World)
    → exec env (insert_message env (filled env msg w)) (filling msg w) ≡ p
    → Ends env (insert_message env (filled env msg w)) (filling msg w) p
    → Creates env msg w (create_message env msg w)
created env msg w p e (took tt t h q) =
    let (same, new) = insert_message-ok env (filled env msg w) _ _ w.tables t h in
    subst (Creates env msg w) (sym (attempted env msg w (ok tt) _ (e ∙ q))) (record {
      outcome = ok tt;
      result = refl;
      effect = inserted (env.time (filling msg w).tick) refl same new;
      changes = refl;
    })
created env msg w p e (Ends.failed x q) =
    subst (Creates env msg w) (sym (attempted env msg w (err x) _ (e ∙ q))) (record {
      outcome = err x;
      result = refl;
      effect = Inserts.failed x refl refl;
      changes = refl;
    })

-- CreateMessage on every branch: the message behind the pointer, with its defaults, and the error
-- are always handed back, and either the error is nil, the id was new and the table has the
-- message as its last row and the sender its last content, or there is an error and the tables
-- are as before. The queues stay.
pub create_message-Creates :
    (env : Env) (msg : Message) (w : World) → Creates env msg w (create_message env msg w)
create_message-Creates env msg w =
    created env msg w _ refl (exec-Ends env (insert_message env (filled env msg w)) (filling msg w))
