-- ===== src/Sync/Manager/Wal.antt =====
-- manager.go: syncIncomingWAL delivers a device's changes batch by batch.
use posduif.Common.{
  ℕ, zero, suc, ◌<◌, String, true, false, ◌==◌, ltb, ◌≡◌, refl, ap, ◌∙◌, sym, subst, none, List, [],
  ◌∷◌, arith, map, take, drop, select, select-whole, All, All-take, take-append-drop, if◌then◌else◌,
  Bool-cases, inl, inr, eq_iff,
}
use posduif.Common.Dict.{Dict, lookup}
use posduif.Models.{WalChange, Message, SyncMetadata}
use posduif.Errors.{Result, ok}
use posduif.Database.{Env, World, Tables, M, query, advance, errorf, attempt, ◌>>=◌}
use posduif.Database
use posduif.Database.Metadata.{find_metadata, get_sync_metadata, merge, fill}
use posduif.Database.Metadata.Laws.{update_sync_metadata_lem}
use posduif.Sync.Tracker.{
  is_newer, limit_changes, queue, or_nil, clear, get_changes_for_device, clear_changes_for_device,
  to_message,
}
use posduif.Sync.Tracker.Queues.{
  Ascending, Ascending-cut, limit_changes-take, queue-clear_self, lookup-clear_other,
}
use posduif.Sync.Manager.{collect, stamp, record_progress, finish_wal, sync_incoming_wal}
use posduif.Sync.Manager.Batch.{IsWrite, collect-messages, select-collect}

-- The database answers every statement.
abbrev pub Quiet : Env → Type 0
Quiet env = (t : ℕ) → env.fault t ≡ none

-- It answers the three statements of syncIncomingWAL: two reads of the metadata and the upsert.
pub record Answers (env : Env) (w : World) : Type 0 where
  pub reads : env.fault w.tick ≡ none
  pub reads_again : env.fault (suc w.tick) ≡ none
  pub writes : env.fault (suc (suc (suc (suc w.tick)))) ≡ none

pub Quiet-Answers : (env : Env) (w : World) → Quiet env → Answers env w
Quiet-Answers env w quiet = record { reads = quiet _; reads_again = quiet _; writes = quiet _ }

-- The world after record_progress, for the metadata that it found.
abbrev pub progressed : Env → String → ℕ → SyncMetadata → World → World
progressed env device lsn sm w = record {
  tables = record w.tables {
    metadata =
        merge (fill (env.time (suc (suc w.tick))) (stamp lsn (env.time (suc w.tick)) sm))
          (env.time (suc (suc (suc w.tick)))) (env.uuid (suc (suc (suc w.tick)))) w.tables.metadata;
  };
  changes = clear device lsn w.changes;
  tick = suc (suc (suc (suc w.tick)));
}

module _ (env : Env) (device : String) (sm : SyncMetadata) where
  get_changes_lem :
      (limit : ℕ) (w : World)
      → env.fault w.tick ≡ none
      → find_metadata device w.tables ≡ ok sm
      → get_changes_for_device env device limit w ≡ (
        ok (limit_changes limit (select (is_newer sm.last_synced_lsn) (queue w.changes device))),
        advance w,
      )
  unfolding get_changes_for_device get_sync_metadata query
  get_changes_lem limit w up e = ground (arith, up)

  record_progress_lem :
      (lsn : ℕ) (w : World)
      → env.fault w.tick ≡ none
      → env.fault (suc (suc (suc w.tick))) ≡ none
      → find_metadata device w.tables ≡ ok sm
      → record_progress env device lsn w ≡ (ok tt, progressed env device lsn sm w)
  unfolding record_progress get_sync_metadata query Database.now clear_changes_for_device
  record_progress_lem lsn w up again e = ground (
    arith,
    up,
    again,
    update_sync_metadata_lem env (stamp lsn (env.time (suc w.tick)) sm) (advance (advance w)) refl,
  )

  -- A run on a batch: an empty one leaves the world, any other ends in `progressed`.
  sync_batch :
      (limit : ℕ) (w : World) (batch : List WalChange)
      → env.fault w.tick ≡ none
      → find_metadata device w.tables ≡ ok sm
      → limit_changes limit (select (is_newer sm.last_synced_lsn) (queue w.changes device)) ≡ batch
      → sync_incoming_wal env device limit w ≡ finish_wal env device (collect 0 batch) (advance w)
  unfolding sync_incoming_wal
  sync_batch limit w batch up e b = ground (arith, get_changes_lem limit w up e)

  finish_cons :
      (r : List Message × ℕ) (m : Message) (ms : List Message) (w : World)
      → env.fault w.tick ≡ none
      → env.fault (suc (suc (suc w.tick))) ≡ none
      → find_metadata device w.tables ≡ ok sm
      → r.0 ≡ m ∷ ms
      → finish_wal env device r w ≡ (ok (m ∷ ms), progressed env device r.1 sm w)
  unfolding finish_wal
  finish_cons r m ms w up again e k = ground (arith, record_progress_lem r.1 w up again e)

-- What a call delivers and leaves: the messages of the batch, the rest of the device's queue, and
-- every other queue as it was.
abbrev pub Delivered :
    String → List WalChange → List WalChange → World → Result (List Message) × World → Type 0
Delivered device batch rest w p =
    (p.0 ≡ ok (map to_message batch))
    × ((d : String) → queue p.1.changes d ≡ (if device == d then rest else queue w.changes d))

queue_split :
    (device d : String) (rest : List WalChange) (before after : Dict (List WalChange))
    → queue after device ≡ rest
    → ((device == d) ≡ false → lookup d after ≡ lookup d before)
    → queue after d ≡ (if device == d then rest else queue before d)
queue_split device d rest before after own other = elim (Bool-cases (device == d)) [
  | inl e ↦ rw e (ap (queue after) (sym ((eq_iff _ _).0 e)) ∙ own)
  | inr e ↦ rw e (ap or_nil (other e))
]

-- The run on a batch that is not empty.
pub sync_incoming_wal_cons :
    (env : Env) (device : String) (sm : SyncMetadata) (limit : ℕ) (w : World) (up : Answers env w)
    (c : WalChange) (b : List WalChange)
    → find_metadata device w.tables ≡ ok sm
    → limit_changes limit (select (is_newer sm.last_synced_lsn) (queue w.changes device)) ≡ c ∷ b
    → All IsWrite (c ∷ b)
    → sync_incoming_wal env device limit w
      ≡ (ok (map to_message (c ∷ b)), progressed env device (collect 0 (c ∷ b)).1 sm (advance w))
sync_incoming_wal_cons env device sm limit w up c b found cut writes =
    sync_batch env device sm limit w (c ∷ b) up.reads found cut
    ∙ finish_cons env device sm (collect 0 (c ∷ b)) (to_message c) (map to_message b) (advance w)
        up.reads_again up.writes found (collect-messages 0 (c ∷ b) writes)

-- A call with a batch that is not empty keeps of the queue what lies above maxLSN.
pub batch-Delivered :
    (env : Env) (device : String) (sm : SyncMetadata) (limit : ℕ) (w : World) (up : Answers env w)
    (c : WalChange) (b kept : List WalChange)
    → find_metadata device w.tables ≡ ok sm
    → limit_changes limit (select (is_newer sm.last_synced_lsn) (queue w.changes device)) ≡ c ∷ b
    → All IsWrite (c ∷ b)
    → select (λ x. ltb (collect 0 (c ∷ b)).1 x.lsn) (queue w.changes device) ≡ kept
    → Delivered device (c ∷ b) kept w (sync_incoming_wal env device limit w)
batch-Delivered env device sm limit w up c b kept found cut writes rest =
    let last = (collect 0 (c ∷ b)).1 in
    let run = sync_incoming_wal_cons env device sm limit w up c b found cut writes in
    subst (Delivered device (c ∷ b) kept w) (sym run) (
      refl,
      λ d.
          queue_split device d kept w.changes _ (queue-clear_self device last w.changes ∙ rest)
            (lookup-clear_other device d last w.changes),
    )

-- The run without a change to hand out.
pub sync_incoming_wal_nil :
    (env : Env) (device : String) (sm : SyncMetadata) (limit : ℕ) (w : World) (up : Answers env w)
    → find_metadata device w.tables ≡ ok sm
    → queue w.changes device ≡ []
    → sync_incoming_wal env device limit w ≡ (ok [], advance w)
unfolding limit_changes finish_wal collect
sync_incoming_wal_nil env device sm limit w up found empty =
    sync_batch env device sm limit w [] up.reads found (rw empty (ground arith))

empty_lossless :
    (env : Env) (device : String) (sm : SyncMetadata) (limit : ℕ) (w : World) (up : Answers env w)
    → find_metadata device w.tables ≡ ok sm
    → queue w.changes device ≡ []
    → Delivered device [] [] w (sync_incoming_wal env device limit w)
empty_lossless env device sm limit w up found empty =
    let run = sync_incoming_wal_nil env device sm limit w up found empty in
    subst (Delivered device [] [] w) (sym run)
      (refl, λ d. queue_split device d [] w.changes _ empty (λ _. refl))

-- The batch of a queue of which nothing was synced.
pub batch_take :
    (sm : SyncMetadata) (limit : ℕ) (cs q : List WalChange)
    → cs ≡ q
    → 0 < limit
    → All (λ c. is_newer sm.last_synced_lsn c ≡ true) q
    → limit_changes limit (select (is_newer sm.last_synced_lsn) cs) ≡ take limit q
batch_take sm limit cs q e positive newer =
    rw e (
      rw (select-whole (is_newer sm.last_synced_lsn) q newer) (limit_changes-take limit q positive))

pub wal_lossless :
    (env : Env) (device : String) (sm : SyncMetadata) (limit : ℕ) (w : World) (q : List WalChange)
    → Answers env w
    → find_metadata device w.tables ≡ ok sm
    → 0 < limit
    → queue w.changes device ≡ q
    → All (λ c. is_newer sm.last_synced_lsn c ≡ true) q
    → All IsWrite q
    → Ascending q
    → Delivered device (take limit q) (drop limit q) w (sync_incoming_wal env device limit w)
wal_lossless env device sm zero w q up found positive e newer writes ascending =
    absurd (omega arith)
wal_lossless env device sm (suc n) w [] up found positive e newer writes ascending =
    empty_lossless env device sm (suc n) w up found e
wal_lossless env device sm (suc n) w (c ∷ q) up found positive e newer writes ascending =
    batch-Delivered env device sm (suc n) w up c (take n q) (drop n q) found
      (batch_take sm (suc n) (queue w.changes device) (c ∷ q) e positive newer)
      (All-take IsWrite (suc n) (c ∷ q) writes)
      (ap (select (λ x. ltb (collect 0 (c ∷ take n q)).1 x.lsn))
          (e ∙ ap (λ t. c ∷ t) (sym (take-append-drop n q)))
        ∙ select-collect c (take n q) (drop n q) (All-take IsWrite (suc n) (c ∷ q) writes)
            (Ascending-cut (suc n) (c ∷ q) ascending))

-- No change is lost: if a device has its row of metadata, and the changes queued for it are
-- INSERTs and UPDATEs, newer than its last LSN, with strictly growing LSNs, then a call with a
-- positive limit against a working database succeeds, returns the messages of the first `limit`
-- changes, and leaves exactly the others queued; the queues of other devices stay.
pub sync_incoming_wal_lossless :
    (env : Env) (device : String) (sm : SyncMetadata) (limit : ℕ) (w : World)
    → Quiet env
    → find_metadata device w.tables ≡ ok sm
    → 0 < limit
    → All (λ c. is_newer sm.last_synced_lsn c ≡ true) (queue w.changes device)
    → All IsWrite (queue w.changes device)
    → Ascending (queue w.changes device)
    → Delivered device
        (take limit (queue w.changes device))
        (drop limit (queue w.changes device))
        w
        (sync_incoming_wal env device limit w)
sync_incoming_wal_lossless env device sm limit w quiet found positive newer writes ascending =
    wal_lossless env device sm limit w (queue w.changes device) (Quiet-Answers env w quiet) found
      positive refl newer writes ascending
