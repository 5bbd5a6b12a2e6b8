-- ===== src/Sync/Manager/Outgoing.antt =====
-- manager.go: SyncOutgoing counts what it stores.
use posduif.Common.{
  ℕ, ◌+◌, ◌≡◌, refl, ap, sym, ◌∙◌, subst, List, [], ◌∷◌, arith, length, length-append,
}
use posduif.Models.{Message, FailedMessage}
use posduif.Errors.{Result, ok, err}
use posduif.Database.{Env, World}
use posduif.Database.Messages.{create_message}
use posduif.Database.Messages.Create.{
  create_message-Creates, Inserts, inserted, failed, filled, stored,
}
use posduif.Sync.Manager.{count, sync_outgoing_from, sync_outgoing}

abbrev pub Counts : Type 0
Counts = ℕ × ℕ × List FailedMessage

-- What a run of the loop adds to the counters and to the table.
pub record Tallies (start : Counts) (msgs : List Message) (w : World) (p : Result Counts × World)
    : Type 0 where
  pub counts : Counts
  pub result : p.0 ≡ ok counts
  pub total : counts.0 + counts.1 ≡ start.0 + start.1 + length msgs
  pub failures : length counts.2 + start.1 ≡ counts.1 + length start.2
  pub rows : length p.1.tables.messages + start.0 ≡ length w.tables.messages + counts.0
  pub changes : p.1.changes ≡ w.changes

-- One message in front: it is stored and counted, or counted and reported.
pub extend :
    (env : Env) (start : Counts) (m n : Message) (ms : List Message) (w w1 : World)
    (r : Result (Unit {0})) (p : Result Counts × World)
    → Inserts n w.tables r w1.tables
    → w1.changes ≡ w.changes
    → Tallies (count env start (n, r)) ms w1 p
    → Tallies start (m ∷ ms) w p
extend env start m n ms w w1 (ok _) p (inserted at e same new) queues t = record {
  counts = t.counts;
  result = t.result;
  total = omega (arith, t.total);
  failures = t.failures;
  rows = omega (
    arith,
    t.rows,
    ap (λ x. length x.messages) same,
    length-append w.tables.messages (stored n ∷ []),
  );
  changes = t.changes ∙ queues;
}
extend env start m n ms w w1 (ok _) p (failed x e same) queues t = absurd (ground arith)
extend env start m n ms w w1 (err e) p (inserted at h same new) queues t = absurd (ground arith)
extend env start m n ms w w1 (err e) p (failed x h same) queues t = record {
  counts = t.counts;
  result = t.result;
  total = omega (arith, t.total);
  failures = omega (arith, t.failures, length-append {0} start.2);
  rows = omega (arith, t.rows, ap (λ x. length x.messages) same);
  changes = t.changes ∙ queues;
}

sync_outgoing_step :
    (env : Env) (start : Counts) (m : Message) (ms : List Message) (w : World)
    (r : Message × Result (Unit {0}))
    → (create_message env m w).0 ≡ ok r
    → sync_outgoing_from env start (m ∷ ms) w
      ≡ sync_outgoing_from env (count env start r) ms (create_message env m w).1
unfolding sync_outgoing_from
sync_outgoing_step env start m ms w r e = ground arith

sync_outgoing_from-Tallies :
    (env : Env) (start : Counts) (msgs : List Message) (w : World)
    → Tallies start msgs w (sync_outgoing_from env start msgs w)
unfolding sync_outgoing_from
sync_outgoing_from-Tallies env start [] w = record {
  counts = start;
  result = refl;
  total = omega arith;
  failures = omega arith;
  rows = omega arith;
  changes = refl;
}
sync_outgoing_from-Tallies env start (m ∷ ms) w =
    let c = create_message-Creates env m w in
    subst (Tallies start (m ∷ ms) w) (sym (sync_outgoing_step env start m ms w _ c.result)) (
      extend env start m (filled env m w) ms w (create_message env m w).1 c.outcome _ c.effect
        c.changes
        (sync_outgoing_from-Tallies env (count env start (filled env m w, c.outcome)) ms
          (create_message env m w).1))

-- SyncOutgoing never fails as a whole, whatever the database does: every message is counted once,
-- as synced or as failed, each failed one is reported, the table of messages grows by the number
-- of synced ones, and no queue of the tracker changes.
pub sync_outgoing_tally :
    (env : Env) (msgs : List Message) (w : World)
    → (synced failed : ℕ) × (failures : List FailedMessage) × ((sync_outgoing env msgs w).0
        ≡ ok (synced, failed, failures))
      × (synced + failed ≡ length msgs)
      × (length failures ≡ failed)
      × (length (sync_outgoing env msgs w).1.tables.messages ≡ length w.tables.messages + synced)
      × ((sync_outgoing env msgs w).1.changes ≡ w.changes)
unfolding sync_outgoing
sync_outgoing_tally env msgs w =
    let t = sync_outgoing_from-Tallies env (0, 0, []) msgs w in
    (
      t.counts.0,
      t.counts.1,
      t.counts.2,
      t.result,
      omega (arith, t.total),
      omega (arith, t.failures),
      omega (arith, t.rows),
      t.changes,
    )
