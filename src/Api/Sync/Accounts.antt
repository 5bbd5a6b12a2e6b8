-- ===== src/Api/Sync/Accounts.antt =====
-- handlers/sync.go: the account of an message by message.
use posduif.Common.{
  ℕ, ◌+◌, ◌==◌, ◌≡◌, refl, ap, ◌∙◌, none, List, [], ◌∷◌, arith, length, ◌⊎◌, ◌++◌, inl, inr,
  Bool-cases, eq_iff,
}
use mathlib.Core.List.{append_assoc}
use posduif.Models.{Message, FailedMessage}
use posduif.Errors
use posduif.Errors.{Result, ok, err, no_rows}
use posduif.Database.{Env, World}
use posduif.Database.Messages.Create.{Inserts, inserted, failed, filled, stored}
use posduif.Sync.Manager.{count}

-- How each message of an upload ended: the message as CreateMessage left it behind the pointer, and
-- the error.
abbrev pub Outcomes : Type 0
Outcomes = List (Message × Result (Unit {0}))

-- The rows of the messages that were stored.
abbrev pub kept : Outcomes → List Message
kept [] = []
kept ((m, ok _) ∷ outs) = record m { synced_at = none; read_at = none } ∷ kept outs
kept ((m, err e) ∷ outs) = kept outs

-- The id and the error's text of each of the others.
abbrev pub reported : Env → Outcomes → List FailedMessage
reported env [] = []
reported env ((m, ok _) ∷ outs) = reported env outs
reported env ((m, err e) ∷ outs) =
    record { message_id = m.id; error = Errors.text env.violation e } ∷ reported env outs

-- An outcome for each message, under its id if it has one.
abbrev pub Follows : List Message → Outcomes → Type 0
Follows [] [] = Unit
Follows [] ((n, r) ∷ outs) = ⊥
Follows (m ∷ ms) [] = ⊥
Follows (m ∷ ms) ((n, r) ∷ outs) =
    ((m.id ≡ "") ⊎ (n.id ≡ m.id))
    × (n.sender_id ≡ m.sender_id)
    × (n.recipient_id ≡ m.recipient_id)
    × (n.content ≡ m.content)
    × Follows ms outs

abbrev pub Counts : Type 0
Counts = ℕ × ℕ × List FailedMessage

-- What a run of the loop from these counters on does.
pub record Accounts (env : Env) (start : Counts) (msgs : List Message) (w : World)
    (p : Result Counts × World) : Type 0 where
  pub outs : Outcomes
  pub follows : Follows msgs outs
  pub total : length (kept outs) + length (reported env outs) ≡ length msgs
  pub result :
      p.0
      ≡ ok (
        start.0 + length (kept outs),
        start.1 + length (reported env outs),
        start.2 ++ reported env outs,
      )
  pub rows : p.1.tables.messages ≡ w.tables.messages ++ kept outs
  pub changes : p.1.changes ≡ w.changes

pub triple :
    {a b c d : ℕ} {xs ys : List FailedMessage}
    → a ≡ b
    → c ≡ d
    → xs ≡ ys
    → Path (Result Counts) (ok (a, c, xs)) (ok (b, d, ys))
triple h k l = rw (h, k, l) refl

filled_id : (env : Env) (m : Message) (w : World) → (m.id ≡ "") ⊎ ((filled env m w).id ≡ m.id)
filled_id env m w = elim (Bool-cases (m.id == "")) [
  | inl e ↦ inl ((eq_iff m.id "").0 e)
  | inr e ↦ inr (rw e refl)
]

-- One message in front, which was stored, or which failed.
pub extend :
    (env : Env) (start : Counts) (m : Message) (ms : List Message) (w v w1 : World)
    (r : Result (Unit {0})) (p : Result Counts × World)
    → Inserts (filled env m v) w.tables r w1.tables
    → w1.changes ≡ w.changes
    → Accounts env (count env start (filled env m v, r)) ms w1 p
    → Accounts env start (m ∷ ms) w p
extend env start m ms w v w1 (ok _) p (inserted at e same new) queues t = record {
  outs = (filled env m v, ok tt) ∷ t.outs;
  follows = (filled_id env m v, refl, refl, refl, t.follows);
  total = omega (arith, t.total);
  result = t.result ∙ triple (omega arith) refl refl;
  rows =
      t.rows
      ∙ ap (λ x. x.messages ++ kept t.outs) same
      ∙ append_assoc w.tables.messages (stored (filled env m v) ∷ []) (kept t.outs);
  changes = t.changes ∙ queues;
}
extend env start m ms w v w1 (ok _) p (failed x e same) queues t = absurd (ground arith)
extend env start m ms w v w1 (err e) p (inserted at h same new) queues t = absurd (ground arith)
extend env start m ms w v w1 (err e) p (failed x h same) queues t = record {
  outs = (filled env m v, err e) ∷ t.outs;
  follows = (filled_id env m v, refl, refl, refl, t.follows);
  total = omega (arith, t.total);
  result = t.result ∙ triple refl (omega arith) (append_assoc start.2 _ (reported env t.outs));
  rows = t.rows ∙ ap (λ x. x.messages ++ kept t.outs) same;
  changes = t.changes ∙ queues;
}

pub moved :
    (env : Env) (start : Counts) (msgs : List Message) (w w' : World) (p : Result Counts × World)
    → w'.tables.messages ≡ w.tables.messages
    → w'.changes ≡ w.changes
    → Accounts env start msgs w' p
    → Accounts env start msgs w p
moved env start msgs w w' p rows queues t = record {
  outs = t.outs;
  follows = t.follows;
  total = t.total;
  result = t.result;
  rows = t.rows ∙ ap (λ ms. ms ++ kept t.outs) rows;
  changes = t.changes ∙ queues;
}
