-- ===== src/Tests/Sync.antt =====
-- The theorems on the change tracker and the sync manager, on the sample tenant.
use posduif.Common.{true, false, ◌≡◌, refl, none, [], ◌∷◌, arith, inl, take, drop, All}
use posduif.Common.Dict.{lookup}
use posduif.Models.{SyncMetadata}
use posduif.Errors.{ok}
use posduif.Database.{World}
use posduif.Database.Users.{find_user}
use posduif.Database.Messages.{pending}
use posduif.Database.Metadata.{find_metadata}
use posduif.Sync.Tracker.{sender, is_newer, queue, add_change}
use posduif.Sync.Tracker.Echo.{no_echo}
use posduif.Sync.Manager.{sync_incoming_wal, sync_incoming_polling, perform_sync}
use posduif.Sync.Manager.Wal.{Delivered, sync_incoming_wal_lossless}
use posduif.Sync.Manager.Loss.{limit_drops_ties}
use posduif.Sync.Manager.Polling.{HandsOut, is_in, polling_once, sync_incoming_polling-HandsOut}
use posduif.Sync.Manager.Performing.{perform_sync_reverts_lsn}
use posduif.Tests.{ne_of, env, alice, progress, insert_of, world}

-- alice writes to bob: her own device gets nothing.
no_echo_example :
    lookup "phone-a" (add_change env (insert_of 30 "alice" "bob") world).1.changes
    ≡ lookup "phone-a" world.changes
unfolding sender find_user lookup
no_echo_example =
    no_echo env (insert_of 30 "alice" "bob") "alice" "phone-a" alice world (inl refl)
      (ne_of "alice" "" refl) refl refl (ne_of "phone-a" "" refl)

-- Two changes are queued; a call with limit 1 takes the first.
sync_incoming_wal_lossless_example :
    Delivered "phone-b"
      (take 1 (queue world.changes "phone-b"))
      (drop 1 (queue world.changes "phone-b"))
      world
      (sync_incoming_wal env "phone-b" 1 world)
unfolding find_metadata is_newer lookup
sync_incoming_wal_lossless_example =
    sync_incoming_wal_lossless env "phone-b" progress 1 world (λ t. refl) refl (omega arith)
      (refl, (refl, tt)) (refl, (refl, tt)) ((omega arith, tt), (tt, tt))

abbrev crowded : World
crowded = record world {
  changes = ("phone-b", insert_of 10 "carol" "bob" ∷ insert_of 10 "alice" "bob" ∷ []) ∷ [];
}

limit_drops_ties_example :
    Delivered "phone-b"
      (insert_of 10 "carol" "bob" ∷ [])
      []
      crowded
      (sync_incoming_wal env "phone-b" 1 crowded)
unfolding find_metadata is_newer lookup
limit_drops_ties_example =
    limit_drops_ties env "phone-b" progress 0 crowded (insert_of 10 "carol" "bob")
      (insert_of 10 "alice" "bob" ∷ []) (λ t. refl) refl refl (refl, (refl, tt)) (refl, (refl, tt))
      (omega arith, tt)

sync_incoming_polling-HandsOut_example :
    HandsOut "phone-b" 5 world (sync_incoming_polling env "phone-b" 5 world)
sync_incoming_polling-HandsOut_example =
    sync_incoming_polling-HandsOut env "phone-b" 5 world (λ t. refl) (refl, tt)

polling_once_example :
    All
      (λ m. is_in (pending "phone-b" 5 world.tables) m ≡ false)
      (pending "phone-b" 9 (sync_incoming_polling env "phone-b" 5 world).1.tables)
polling_once_example = polling_once env "phone-b" "phone-b" 5 9 world (λ t. refl) (refl, tt)

perform_sync_reverts_lsn_example :
    (row : SyncMetadata) × (find_metadata "phone-b" (perform_sync env true "phone-b" world).1.tables
      ≡ ok row)
    × (row.last_synced_lsn ≡ none)
unfolding find_metadata
perform_sync_reverts_lsn_example =
    perform_sync_reverts_lsn env true "phone-b" progress world (λ t. refl) refl
