-- ===== src/System/Syncing.antt =====
-- sync-engine/internal/sync: the manager and the tracker, on the tables.
use posduif.Common.{ℕ, String, Bool, true, false, List, [], ◌∷◌, some}
use posduif.Models.{Message, SyncMetadata, WalChange}
use posduif.Errors.{wrapped, Result, ok, err}
use posduif.Database.{Env}
use posduif.Database.Metadata.{get_sync_metadata}
use posduif.Database.Messages.{get_pending_messages_for_device}
use posduif.Sync.Tracker.{get_changes_for_device, clear_changes_for_device, add_change}
use posduif.Sync.Manager.{
  record_progress, finish_wal, sync_incoming_wal, mark_synced, sync_incoming_polling, sync_incoming,
  conclude, perform_sync, check, stamp, or_new, collect,
}
use posduif.Sync.Feed.Routing.{tables-add_change}
use posduif.System.Actions.{
  TableOrder, Within, same_tables, pure-Within, raise-Within, now-Within, query-Within, bind-Within,
  attempt-Within, errorf-Within,
}
use posduif.System.Queries.{Respects, update_sync_metadata-Within, update_message_status-Within}

module _ (env : Env) (o : TableOrder) (r : Respects env o) where
  get_sync_metadata-Within : (d : String) → Within o (get_sync_metadata env d)
  unfolding get_sync_metadata
  get_sync_metadata-Within d = query-Within env _

  check-Within : (s : String) (e : Result (Unit {0})) → Within o (check s e)
  check-Within s (ok x) = pure-Within tt
  check-Within s (err e) = raise-Within _ _

  clear-Within : (d : String) (lsn : ℕ) → Within o (clear_changes_for_device d lsn)
  unfolding clear_changes_for_device
  clear-Within d lsn = record { at = λ w. o.same w.tables }

  read_queue-Within : (d : String) (limit : ℕ) → Within o (get_changes_for_device env d limit)
  unfolding get_changes_for_device
  read_queue-Within d limit =
      bind-Within (errorf-Within _ (get_sync_metadata-Within d))
        λ sm. record { at = λ w. o.same w.tables }

  record_progress-Within : (d : String) (lsn : ℕ) → Within o (record_progress env d lsn)
  unfolding record_progress
  record_progress-Within d lsn = bind-Within (attempt-Within (get_sync_metadata-Within d)) λ found.
      bind-Within (now-Within env) λ t.
        bind-Within (update_sync_metadata-Within env o r (stamp lsn t (or_new d found))) λ p.
          bind-Within (check-Within "failed to update sync metadata" p.1) λ _. clear-Within d lsn

  finish_wal-Within : (d : String) (p : List Message × ℕ) → Within o (finish_wal env d p)
  unfolding finish_wal
  finish_wal-Within d ([], lsn) = pure-Within []
  finish_wal-Within d (m ∷ ms, lsn) =
      bind-Within (record_progress-Within d lsn) λ _. pure-Within (m ∷ ms)

  sync_incoming_wal-Within : (d : String) (limit : ℕ) → Within o (sync_incoming_wal env d limit)
  unfolding sync_incoming_wal
  sync_incoming_wal-Within d limit =
      bind-Within (errorf-Within _ (read_queue-Within d limit))
        λ cs. finish_wal-Within d (collect 0 cs)

  mark_synced-Within : (ms : List Message) → Within o (mark_synced env ms)
  unfolding mark_synced
  mark_synced-Within [] = pure-Within tt
  mark_synced-Within (m ∷ ms) =
      bind-Within (errorf-Within _ (update_message_status-Within env o r m.id "synced"))
        λ _. mark_synced-Within ms

  pub sync_incoming-Within :
      (wal_enabled : Bool) (d : String) (limit : ℕ)
      → Within o (sync_incoming env wal_enabled d limit)
  unfolding sync_incoming sync_incoming_polling get_pending_messages_for_device
  sync_incoming-Within true d limit = sync_incoming_wal-Within d limit
  sync_incoming-Within false d limit =
      bind-Within (errorf-Within _ (query-Within env _))
        λ ms. bind-Within (mark_synced-Within ms) λ _. pure-Within ms

  conclude-Within : (sm : SyncMetadata) (e : Result (List Message)) → Within o (conclude env sm e)
  unfolding conclude
  conclude-Within sm (ok ms) = bind-Within (now-Within env) λ t.
      bind-Within
        (update_sync_metadata-Within env o r (record sm {
          last_sync_timestamp = some t;
          sync_status = "idle";
          pending_outgoing_count = 0;
        }))
        λ _. pure-Within tt
  conclude-Within sm (err e) =
      bind-Within (update_sync_metadata-Within env o r (record sm { sync_status = "error" }))
        λ _. raise-Within _ (wrapped "failed to get incoming messages" e)

  pub perform_sync-Within :
      (wal_enabled : Bool) (d : String) → Within o (perform_sync env wal_enabled d)
  unfolding perform_sync
  perform_sync-Within wal_enabled d =
      bind-Within (attempt-Within (get_sync_metadata-Within d)) λ found.
        bind-Within
          (update_sync_metadata-Within env o r
            (record (or_new d found) { sync_status = "syncing" }))
          λ p.
            bind-Within (attempt-Within (sync_incoming-Within wal_enabled d 100))
              λ e. conclude-Within p.0 e

  pub add_change-Within : (c : WalChange) → Within o (add_change env c)
  add_change-Within c = record { at = λ w. same_tables o w.tables _ (tables-add_change env c w) }
