-- ===== src/Sync/Manager/Performing.antt =====
-- manager.go: PerformSync, and the position that it writes last.
use posduif.Common.{suc, String, Bool, ◌≡◌, refl, subst, some, Option, List, arith}
use posduif.Models.{SyncMetadata, Message}
use posduif.Errors.{Result, ok, err}
use posduif.Database.{Env, World, Tables, query, advance}
use posduif.Database
use posduif.Database.Metadata.{find_metadata, get_sync_metadata, fill, merge}
use posduif.Database.Metadata.Laws.{
  Shows, Shows-upsert, update_sync_metadata_lem, find_metadata-device_id,
}
use posduif.Sync.Manager.{sync_incoming, conclude, perform_sync}
use posduif.Sync.Manager.Wal.{Quiet}

-- The row of a device, with the LSN that a writer held.
abbrev KeepsLsn : String → Option String → Tables → Type 0
KeepsLsn device lsn t =
    (row : SyncMetadata) × (find_metadata device t ≡ ok row) × (row.last_synced_lsn ≡ lsn)

of_Shows :
    (sm : SyncMetadata) (t : Tables) → Shows sm t → KeepsLsn sm.device_id sm.last_synced_lsn t
of_Shows sm t s = (s.row, s.found, s.lsn)

conclude-KeepsLsn :
    (env : Env) (sm : SyncMetadata) (r : Result (List Message)) (w : World)
    → Quiet env
    → KeepsLsn sm.device_id sm.last_synced_lsn (conclude env sm r w).1.tables
unfolding conclude Database.now
conclude-KeepsLsn env sm (ok _) w quiet =
    let last = record sm {
      last_sync_timestamp = some (env.time w.tick);
      sync_status = "idle";
      pending_outgoing_count = 0;
    } in
    rw (update_sync_metadata_lem env last (advance w) refl (quiet (suc (suc w.tick))))
      (of_Shows last _ (Shows-upsert last w.tables _ _ _))
conclude-KeepsLsn env sm (err e) w quiet =
    let last = record sm { sync_status = "error" } in
    rw (update_sync_metadata_lem env last w refl (quiet (suc w.tick)))
      (of_Shows last _ (Shows-upsert last w.tables _ _ _))

abbrev started : SyncMetadata → SyncMetadata
started sm = record sm { sync_status = "syncing" }

-- The world in which PerformSync calls SyncIncoming.
abbrev marked : Env → SyncMetadata → World → World
marked env sm w = record w {
  tables = record w.tables {
    metadata =
        merge (fill (env.time (suc w.tick)) (started sm)) (env.time (suc (suc w.tick)))
          (env.uuid (suc (suc w.tick))) w.tables.metadata;
  };
  tick = suc (suc (suc w.tick));
}

perform_sync_lem :
    (env : Env) (wal_enabled : Bool) (device : String) (sm : SyncMetadata) (w : World)
    → Quiet env
    → find_metadata device w.tables ≡ ok sm
    → let r = sync_incoming env wal_enabled device 100 (marked env sm w) in
      perform_sync env wal_enabled device w
      ≡ conclude env (fill (env.time (suc w.tick)) (started sm)) r.0 r.1
unfolding perform_sync get_sync_metadata query
perform_sync_lem env wal_enabled device sm w quiet found = ground (
  arith,
  quiet w.tick,
  update_sync_metadata_lem env (started sm) (advance w) refl (quiet (suc (suc w.tick))),
)

-- PerformSync writes back the last synced LSN that it read at its start, whatever the sync in
-- between stored: against a working database, after it the device's row holds the LSN from before
-- the call, with WAL and without.
pub perform_sync_reverts_lsn :
    (env : Env) (wal_enabled : Bool) (device : String) (sm : SyncMetadata) (w : World)
    → Quiet env
    → find_metadata device w.tables ≡ ok sm
    → (row : SyncMetadata) × (find_metadata device (perform_sync env wal_enabled device w).1.tables
        ≡ ok row)
      × (row.last_synced_lsn ≡ sm.last_synced_lsn)
perform_sync_reverts_lsn env wal_enabled device sm w quiet found =
    let sm' = fill (env.time (suc w.tick)) (started sm) in
    let r = sync_incoming env wal_enabled device 100 (marked env sm w) in
    let own = find_metadata-device_id device w.tables sm found in
    rw (perform_sync_lem env wal_enabled device sm w quiet found) (
      subst (λ d. KeepsLsn d sm.last_synced_lsn (conclude env sm' r.0 r.1).1.tables) own
        (conclude-KeepsLsn env sm' r.0 r.1 quiet))
