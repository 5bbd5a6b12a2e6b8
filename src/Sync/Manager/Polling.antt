-- ===== src/Sync/Manager/Polling.antt =====
-- manager.go: syncIncomingPolling hands out the pending messages of a device once.
use posduif.Common.{
  ℕ, suc, ◌≤◌, String, Bool, true, false, ◌==◌, ◌&&◌, ◌≡◌, refl, ap, sym, ◌∙◌, subst, List, [], ◌∷◌,
  map, arith, any, select, select-All, select-All_of, length, length-take-le, if◌then◌else◌, All,
  All-take, All-both, All-of_map, Bool-cases, inl, inr,
}
use posduif.Models.{Message}
use posduif.Errors.{Result, ok}
use posduif.Database.{Env, World, Tables, query, advance}
use posduif.Database.Messages.{
  set_status_of, pending, is_pending_for, get_pending_messages_for_device,
}
use posduif.Common.Sort.{All-order_by}
use posduif.Database.Messages.Order.{Sorted, Sorted-take, oldest_first-Sorted}
use posduif.Database.Messages.Status.{
  timeless, mark, timeless-set_status, update_message_status_lem,
}
use posduif.Sync.Manager.{mark_synced, sync_incoming_polling}
use posduif.Sync.Manager.Wal.{Quiet}

-- The column messages.id is of type UUID.
abbrev pub HasUuids : Env → List Message → Type 0
HasUuids env ms = All (λ m. env.is_uuid m.id ≡ true) ms

abbrev pub is_in : List Message → Message → Bool
is_in batch m = any (λ b. m.id == b.id) batch

-- The message is synced if it stands in the batch.
abbrev pub handed_out : List Message → Message → Message
handed_out batch m = if is_in batch m then record m { status = "synced" } else m

handed_out-mark :
    (b : Message) (batch ms : List Message)
    → map (handed_out batch) (map (mark "synced" b.id) ms) ≡ map (handed_out (b ∷ batch)) ms
handed_out-mark b batch [] = refl
handed_out-mark b batch (m ∷ ms) = ground (arith, handed_out-mark b batch ms)

handed_out_none : (ms : List Message) → map (handed_out []) ms ≡ ms
handed_out_none [] = refl
handed_out_none (m ∷ ms) = ap (λ t. m ∷ t) (handed_out_none ms)

-- What a run of the loop leaves, apart from times of updates.
record Marked (batch : List Message) (w : World) (p : Result (Unit {0}) × World) : Type 0 where
  succeeds : p.0 ≡ ok tt
  messages :
      map timeless p.1.tables.messages ≡ map (handed_out batch) (map timeless w.tables.messages)
  users : p.1.tables.users ≡ w.tables.users

abbrev synced_world : Env → Message → World → World
synced_world env b w = record w {
  tables = record w.tables {
    messages = map (set_status_of (env.time w.tick) b.id "synced") w.tables.messages;
  };
  tick = suc w.tick;
}

mark_synced_step :
    (env : Env) (b : Message) (batch : List Message) (w : World)
    → Quiet env
    → env.is_uuid b.id ≡ true
    → mark_synced env (b ∷ batch) w ≡ mark_synced env batch (synced_world env b w)
unfolding mark_synced
mark_synced_step env b batch w quiet valid =
    ground (arith, update_message_status_lem env b.id "synced" w (quiet w.tick) valid refl)

mark_synced-Marked :
    (env : Env) (batch : List Message) (w : World)
    → Quiet env
    → HasUuids env batch
    → Marked batch w (mark_synced env batch w)
unfolding mark_synced
mark_synced-Marked env [] w quiet valid = record {
  succeeds = refl;
  messages = sym (handed_out_none _);
  users = refl;
}
mark_synced-Marked env (b ∷ batch) w quiet valid =
    let w1 = synced_world env b w in
    let ih = mark_synced-Marked env batch w1 quiet valid.1 in
    subst (Marked (b ∷ batch) w) (sym (mark_synced_step env b batch w quiet valid.0)) (record {
      succeeds = ih.succeeds;
      messages =
          ih.messages
          ∙ ap (map (handed_out batch))
              (timeless-set_status (env.time w.tick) b.id "synced" w.tables.messages)
          ∙ handed_out-mark b batch (map timeless w.tables.messages);
      users = ih.users;
    })

-- What a call of syncIncomingPolling does: the returned batch is the device's pending messages,
-- at most `limit` and oldest first; afterwards their status is "synced" and all else about the
-- messages, but times of updates, is as before.
pub record HandsOut (device : String) (limit : ℕ) (w : World) (p : Result (List Message) × World)
    : Type 0 where
  pub result : p.0 ≡ ok (pending device limit w.tables)
  pub bounded : length (pending device limit w.tables) ≤ limit
  pub sorted : Sorted (pending device limit w.tables)
  pub all_pending :
      All (λ m. is_pending_for w.tables.users device m ≡ true) (pending device limit w.tables)
  pub messages :
      map timeless p.1.tables.messages
      ≡ map (handed_out (pending device limit w.tables)) (map timeless w.tables.messages)
  pub users : p.1.tables.users ≡ w.tables.users

pending-All :
    (P : Message → Type 0) (device : String) (limit : ℕ) (t : Tables)
    → All P (select (is_pending_for t.users device) t.messages)
    → All P (pending device limit t)
pending-All P device limit t h = All-take P limit _ (All-order_by _ P _ h)

polling_step :
    (env : Env) (device : String) (limit : ℕ) (w : World)
    → Quiet env
    → Marked
        (pending device limit w.tables)
        (advance w)
        (mark_synced env (pending device limit w.tables) (advance w))
    → let r = mark_synced env (pending device limit w.tables) (advance w) in
      sync_incoming_polling env device limit w ≡ (ok (pending device limit w.tables), r.1)
unfolding sync_incoming_polling get_pending_messages_for_device query
polling_step env device limit w quiet m = ground (arith, quiet w.tick, m.succeeds)

-- Against a working database, whose message ids are UUIDs, syncIncomingPolling succeeds with the
-- device's pending messages, at most `limit` and oldest first, and afterwards exactly those have
-- the status synced, while all else about the messages, but times of updates, and the users are
-- as before.
pub sync_incoming_polling-HandsOut :
    (env : Env) (device : String) (limit : ℕ) (w : World)
    → Quiet env
    → HasUuids env w.tables.messages
    → HandsOut device limit w (sync_incoming_polling env device limit w)
sync_incoming_polling-HandsOut env device limit w quiet valid =
    let batch = pending device limit w.tables in
    let chosen = is_pending_for w.tables.users device in
    let m = mark_synced-Marked env batch (advance w) quiet (
      pending-All _ device limit w.tables
        (select-All_of chosen (λ x. env.is_uuid x.id ≡ true) w.tables.messages valid)) in
    subst (HandsOut device limit w) (sym (polling_step env device limit w quiet m)) (record {
      result = refl;
      bounded = length-take-le limit _;
      sorted = Sorted-take limit _ (oldest_first-Sorted _);
      all_pending = pending-All _ device limit w.tables (select-All chosen w.tables.messages);
      messages = m.messages;
      users = m.users;
    })

-- The message is not both in the batch and pending.
abbrev IsSettled : List Message → Message → Type 0
IsSettled batch m = (is_in batch m && (m.status == "pending_sync")) ≡ false

handed_out-IsSettled : (batch ms : List Message) → All (IsSettled batch) (map (handed_out batch) ms)
handed_out-IsSettled batch [] = tt
handed_out-IsSettled batch (m ∷ ms) = elim (Bool-cases (is_in batch m)) [
  | inl e ↦ rw e (rw e refl, handed_out-IsSettled batch ms)
  | inr e ↦ rw e (rw e refl, handed_out-IsSettled batch ms)
]

pending-not-in :
    (batch : List Message) (device : String) (limit : ℕ) (t : Tables)
    → All (IsSettled batch) t.messages
    → All (λ m. is_in batch m ≡ false) (pending device limit t)
pending-not-in batch device limit t settled =
    let chosen = is_pending_for t.users device in
    pending-All _ device limit t (
      All-both (λ m. chosen m ≡ true) (IsSettled batch) (λ m. is_in batch m ≡ false)
        (λ m p q. ground arith) _ (select-All chosen t.messages)
        (select-All_of chosen (IsSettled batch) t.messages settled))

-- A message that syncIncomingPolling has returned is in no later batch: against a working
-- database, whose message ids are UUIDs, for every device and limit the pending messages after
-- the call share no id with those that it returned.
pub polling_once :
    (env : Env) (device other : String) (limit later : ℕ) (w : World)
    → Quiet env
    → HasUuids env w.tables.messages
    → All
        (λ m. is_in (pending device limit w.tables) m ≡ false)
        (pending other later (sync_incoming_polling env device limit w).1.tables)
polling_once env device other limit later w quiet valid =
    let batch = pending device limit w.tables in
    let after = (sync_incoming_polling env device limit w).1.tables in
    let h = sync_incoming_polling-HandsOut env device limit w quiet valid in
    pending-not-in batch other later after (
      All-of_map (IsSettled batch) timeless after.messages (
        subst (All (IsSettled batch)) (sym h.messages)
          (handed_out-IsSettled batch (map timeless w.tables.messages))))
