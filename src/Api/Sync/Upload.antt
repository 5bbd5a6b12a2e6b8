-- ===== src/Api/Sync/Upload.antt =====
-- handlers/sync.go: what an upload stores and counts, and what a status request creates.
use posduif.Common.{suc, String, false, ◌==◌, ◌≡◌, refl, none, List, arith}
use posduif.Errors.{Result, ok, err, no_rows}
use posduif.Database.{Env, World, advance, query}
use posduif.Database
use posduif.Database.Metadata.{find_metadata, get_sync_metadata}
use posduif.Database.Metadata.Laws.{Shows, Shows-upsert, update_sync_metadata_lem}
use posduif.Sync.Manager.{new_metadata}
use posduif.Sync.Manager.Wal.{Quiet}
use posduif.Api.{Request}
use posduif.Api.Sync.Accounts.{Accounts}
use posduif.Api.Sync.{or_created, get_sync_status}

-- The update of the sender always goes on, and leaves messages and queues.
record Continues (w : World) (p : Result (Unit {0}) × World) : Type 0 where
  result : p.0 ≡ ok tt
  messages : p.1.tables.messages ≡ w.tables.messages
  changes : p.1.changes ≡ w.changes

no_metadata :
    (env : Env) (device : String) (w : World)
    → env.fault w.tick ≡ none
    → find_metadata device w.tables ≡ err no_rows
    → get_sync_metadata env device w ≡ (err no_rows, advance w)
unfolding get_sync_metadata query
no_metadata env device w up missing = ground arith

-- A status request, with a device id, of a device that has no row in sync_metadata yet creates
-- the row, as idle and without an LSN, while the database works.
pub get_sync_status_creates :
    (env : Env) (r : Request) (w : World)
    → Quiet env
    → r.method ≡ "GET"
    → (r.header "X-Device-ID" == "") ≡ false
    → find_metadata (r.header "X-Device-ID") w.tables ≡ err no_rows
    → Shows (new_metadata (r.header "X-Device-ID") "idle") (get_sync_status env r w).1.tables
unfolding get_sync_status or_created
get_sync_status_creates env r w quiet get named missing =
    let sm = new_metadata (r.header "X-Device-ID") "idle" in
    rw (get, named, no_metadata env (r.header "X-Device-ID") w (quiet w.tick) missing)
      (rw (update_sync_metadata_lem env sm (advance w) refl (quiet (suc (suc w.tick))))
        (Shows-upsert sm w.tables _ _ _))
