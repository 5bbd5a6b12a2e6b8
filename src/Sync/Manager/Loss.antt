-- ===== src/Sync/Manager/Loss.antt =====
-- manager.go: where syncIncomingWAL loses changes, or never starts.
use posduif.Common.{
  ℕ, suc, ◌≤◌, String, true, false, ltb, ◌≡◌, ap, ◌∙◌, sym, ◌++◌, List, [], ◌∷◌, arith, take, drop,
  select, select-whole, select-nothing, All, All-append, All-take, take-append-drop,
}
use posduif.Models.{WalChange, SyncMetadata}
use posduif.Errors.{no_rows, wrapped, ok, err}
use posduif.Database.{Env, World, query}
use posduif.Database.Metadata.{find_metadata, get_sync_metadata}
use posduif.Sync.Tracker.{is_newer, queue, get_changes_for_device}
use posduif.Sync.Tracker.Queues.{limit_changes-take}
use posduif.Sync.Manager.{collect, sync_incoming_wal}
use posduif.Sync.Manager.Batch.{IsWrite, covered, collect-upper}
use posduif.Sync.Manager.Wal.{Quiet, Quiet-Answers, Delivered, batch-Delivered}

covered_by_first :
    (c : WalChange) (l : ℕ) (cs : List WalChange)
    → c.lsn ≤ l
    → All (λ e. e.lsn ≤ c.lsn) cs
    → All (λ e. ltb l e.lsn ≡ false) cs
covered_by_first c l [] h k = tt
covered_by_first c l (e ∷ cs) h k = (ground (arith, k.0), covered_by_first c l cs h k.1)

-- For a device with its row of metadata, while the database works: where the limit cuts a queue
-- of INSERTs and UPDATEs newer than the last LSN in front of changes whose LSNs do not exceed
-- that of the first change, a call delivers the changes in front of the cut and empties the
-- queue, so those behind the cut are dropped without being delivered; the queues of other devices
-- stay.
pub limit_drops_ties :
    (env : Env) (device : String) (sm : SyncMetadata) (n : ℕ) (w : World) (c : WalChange)
    (q : List WalChange)
    → Quiet env
    → find_metadata device w.tables ≡ ok sm
    → queue w.changes device ≡ c ∷ q
    → All (λ e. is_newer sm.last_synced_lsn e ≡ true) (c ∷ q)
    → All IsWrite (c ∷ q)
    → All (λ e. e.lsn ≤ c.lsn) (drop n q)
    → Delivered device (c ∷ take n q) [] w (sync_incoming_wal env device (suc n) w)
limit_drops_ties env device sm n w c q quiet found e newer writes behind =
    let batch_writes = All-take IsWrite (suc n) (c ∷ q) writes in
    let last = (collect 0 (c ∷ take n q)).1 in
    let above = λ (x : WalChange). ltb last x.lsn in
    let bounds = collect-upper 0 (c ∷ take n q) batch_writes in
    batch-Delivered env device sm (suc n) w (Quiet-Answers env w quiet) c (take n q) [] found
      (rw e (
        rw (select-whole (is_newer sm.last_synced_lsn) (c ∷ q) newer)
          (limit_changes-take (suc n) (c ∷ q) (omega arith))))
      batch_writes
      (ap (select above) (e ∙ ap (λ t. c ∷ t) (sym (take-append-drop n q)))
        ∙ select-nothing above ((c ∷ take n q) ++ drop n q) (
            All-append (λ x. above x ≡ false) (c ∷ take n q) (drop n q)
              (covered last (c ∷ take n q) bounds.1)
              (covered_by_first c last (drop n q) bounds.1.0 behind)))

-- A device without a row in sync_metadata receives no change by WAL, also while the database
-- works: the call fails and leaves the tables and the queues as they were, so it does not create
-- the row.
pub first_sync_fails :
    (env : Env) (device : String) (limit : ℕ) (w : World)
    → Quiet env
    → find_metadata device w.tables ≡ err no_rows
    → sync_incoming_wal env device limit w ≡ (
      err (wrapped "failed to get WAL changes" (wrapped "failed to get sync metadata" no_rows)),
      record w { tick = suc w.tick },
    )
unfolding sync_incoming_wal get_changes_for_device get_sync_metadata query
first_sync_fails env device limit w quiet missing = ground (arith, quiet w.tick)
