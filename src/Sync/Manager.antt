-- ===== src/Sync/Manager.antt =====
-- sync-engine/internal/sync/manager.go. What Go returns as (value, error) is an action of `M`;
-- calls whose error is dropped are under `attempt`.
pub mod Batch
pub mod Wal
pub mod Loss
pub mod Polling
pub mod Outgoing
pub mod Performing
use posduif.Common.{
  ℕ, suc, String, Bool, ltb, ◌++◌, Option, none, some, List, [], ◌∷◌, if◌then◌else◌,
}
use posduif.Models.{Message, SyncMetadata, FailedMessage, WalChange}
use posduif.Models.Lsn
use posduif.Errors.{Error, wrapped, Result, ok, err}
use posduif.Errors
use posduif.Database.{Env, M, pure, raise, attempt, errorf, ◌>>=◌, ◌>>◌, now}
use posduif.Database.Messages.{
  create_message, update_message_status, get_pending_messages_for_device,
}
use posduif.Database.Metadata.{get_sync_metadata, update_sync_metadata}
use posduif.Sync.Tracker.{convert, get_changes_for_device, clear_changes_for_device}

-- &models.SyncMetadata{DeviceID: deviceID, SyncStatus: status}
abbrev pub new_metadata : String → String → SyncMetadata
new_metadata device status = record {
  id = "";
  device_id = device;
  last_sync_timestamp = none;
  last_synced_lsn = none;
  pending_outgoing_count = 0;
  sync_status = status;
  created_at = 0;
  updated_at = 0;
}

abbrev pub or_new : String → Result SyncMetadata → SyncMetadata
or_new device (ok sm) = sm
or_new device (err e) = new_metadata device "syncing"

abbrev pub larger : ℕ → ℕ → ℕ
larger max lsn = if ltb max lsn then lsn else max

-- The loop of syncIncomingWAL over the changes: the messages, and maxLSN.
unfoldable pub collect : ℕ → List WalChange → List Message × ℕ
collect max [] = ([], max)
collect max (c ∷ cs) = elim (convert c) [
  | err e ↦ collect max cs
  | ok m ↦ let (ms, last) = collect (larger max c.lsn) cs in (m ∷ ms, last)
]

abbrev pub stamp : ℕ → ℕ → SyncMetadata → SyncMetadata
stamp lsn t sm = record sm {
  last_synced_lsn = some (Lsn.string lsn);
  last_sync_timestamp = some t;
  sync_status = "idle";
}

-- if err := …; err != nil { return fmt.Errorf("s: %w", err) }
abbrev pub check : String → Result (Unit {0}) → M (Unit {0})
check s (ok _) = pure tt
check s (err e) = raise (wrapped s e)

module _ (env : Env) where
  -- The update of the metadata and of the tracker at the end of syncIncomingWAL.
  unfoldable pub record_progress : String → ℕ → M (Unit {0})
  record_progress device lsn = do
    found ← attempt (get_sync_metadata env device)
    t ← now env
    (sm, e) ← update_sync_metadata env (stamp lsn t (or_new device found))
    check "failed to update sync metadata" e
    clear_changes_for_device device lsn

  unfoldable pub finish_wal : String → List Message × ℕ → M (List Message)
  finish_wal device ([], lsn) = pure []
  finish_wal device (m ∷ ms, lsn) = do record_progress device lsn; pure (m ∷ ms)

  unfoldable pub sync_incoming_wal : String → ℕ → M (List Message)
  sync_incoming_wal device limit = do
    changes ← errorf "failed to get WAL changes" (get_changes_for_device env device limit)
    finish_wal device (collect 0 changes)

  -- The loop of syncIncomingPolling.
  unfoldable pub mark_synced : List Message → M (Unit {0})
  mark_synced [] = pure tt
  mark_synced (m ∷ ms) = do
    errorf "failed to update message status" (update_message_status env m.id "synced")
    mark_synced ms

  unfoldable pub sync_incoming_polling : String → ℕ → M (List Message)
  sync_incoming_polling device limit = do
    messages ←
        errorf "failed to get pending messages" (get_pending_messages_for_device env device limit)
    mark_synced messages
    pure messages

  unfoldable pub sync_incoming : Bool → String → ℕ → M (List Message)
  sync_incoming wal_enabled device limit =
      if wal_enabled then sync_incoming_wal device limit else sync_incoming_polling device limit

  -- The two endings of PerformSync.
  unfoldable pub conclude : SyncMetadata → Result (List Message) → M (Unit {0})
  conclude sm (err e) = do
    _ ← update_sync_metadata env (record sm { sync_status = "error" })
    raise (wrapped "failed to get incoming messages" e)
  conclude sm (ok _) = do
    t ← now env
    _ ← update_sync_metadata env (record sm {
      last_sync_timestamp = some t;
      sync_status = "idle";
      pending_outgoing_count = 0;
    })
    pure tt

  unfoldable pub perform_sync : Bool → String → M (Unit {0})
  perform_sync wal_enabled device = do
    found ← attempt (get_sync_metadata env device)
    (sm, _) ← update_sync_metadata env (record (or_new device found) { sync_status = "syncing" })
    r ← attempt (sync_incoming wal_enabled device 100)
    conclude sm r

  -- The counters and the list of SyncOutgoing.
  abbrev pub count :
      ℕ × ℕ × List FailedMessage → Message × Result (Unit {0}) → ℕ × ℕ × List FailedMessage
  count (synced, failed, failures) (m, ok _) = (suc synced, failed, failures)
  count (synced, failed, failures) (m, err e) = (
    synced,
    suc failed,
    failures ++ record { message_id = m.id; error = Errors.text env.violation e } ∷ [],
  )

  unfoldable pub sync_outgoing_from :
      ℕ × ℕ × List FailedMessage → List Message → M (ℕ × ℕ × List FailedMessage)
  sync_outgoing_from counts [] = pure counts
  sync_outgoing_from counts (msg ∷ msgs) = do
    r ← create_message env msg
    sync_outgoing_from (count counts r) msgs

  unfoldable pub sync_outgoing : List Message → M (ℕ × ℕ × List FailedMessage)
  sync_outgoing msgs = sync_outgoing_from (0, 0, []) msgs
