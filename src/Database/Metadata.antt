-- ===== src/Database/Metadata.antt =====
-- sync-engine/internal/database/queries.go, the queries on sync_metadata, whose device_id is
-- unique. The column last_synced_lsn keeps the text that is written; PostgreSQL prints its pg_lsn
-- without leading zeros, which ParseLSN reads alike. Its type check is left out: the texts that the
-- code writes are printed by LSN.String or come from the column.
pub mod Laws
use posduif.Common.{ℕ, String, ◌==◌, nat_eq, ◌++◌, List, [], ◌∷◌, map, any, find, if◌then◌else◌}
use posduif.Models.{SyncMetadata}
use posduif.Errors.{Result, err, refused, check}
use posduif.Database.Schema.{is_sync_status}
use posduif.Database.{Env, Tables, M, pure, attempt, ◌>>=◌, now, query, exec, first_row, done}

-- DO UPDATE SET
abbrev pub overwrite : ℕ → SyncMetadata → SyncMetadata → SyncMetadata
overwrite now sm row = record row {
  last_sync_timestamp = sm.last_sync_timestamp;
  last_synced_lsn = sm.last_synced_lsn;
  pending_outgoing_count = sm.pending_outgoing_count;
  sync_status = sm.sync_status;
  updated_at = now;
}

abbrev pub set_metadata : ℕ → SyncMetadata → SyncMetadata → SyncMetadata
set_metadata now sm row = if row.device_id == sm.device_id then overwrite now sm row else row

-- INSERT … ON CONFLICT (device_id) DO UPDATE
unfoldable pub merge : SyncMetadata → ℕ → String → List SyncMetadata → List SyncMetadata
merge sm now fresh rows =
    if any (λ row. row.device_id == sm.device_id) rows
    then map (set_metadata now sm) rows
    else rows ++ record sm { id = fresh } ∷ []

unfoldable pub upsert : SyncMetadata → ℕ → String → Tables → Result (Unit {0} × Tables)
upsert sm now fresh t =
    if is_sync_status sm.sync_status
    then done (record t { metadata = merge sm now fresh t.metadata })
    else err (refused check)

abbrev pub fill : ℕ → SyncMetadata → SyncMetadata
fill t sm = record sm {
  created_at = if nat_eq sm.created_at 0 then t else sm.created_at;
  updated_at = t;
}

unfoldable pub find_metadata : String → Tables → Result SyncMetadata
find_metadata device t = first_row (find (λ row. row.device_id == device) t.metadata)

module _ (env : Env) where
  unfoldable pub get_sync_metadata : String → M SyncMetadata
  get_sync_metadata device = query env (find_metadata device)

  -- UpdateSyncMetadata: the metadata as the caller finds it behind the pointer, and the error.
  unfoldable pub update_sync_metadata : SyncMetadata → M (SyncMetadata × Result (Unit {0}))
  update_sync_metadata sm = do
    t ← now env
    r ← attempt (exec env (upsert (fill t sm)))
    pure (fill t sm, r)
