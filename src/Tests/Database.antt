-- ===== src/Tests/Database.antt =====
-- The theorems on the queries, on the sample tenant.
use posduif.Common.{nat_eq, true, ◌⊎◌, some, none, ◌≡◌, refl, arith, if◌then◌else◌}
use posduif.Errors.{Error, ok, err, driver, wrapped}
use posduif.Database.{Env, World, exec, query, transaction, tx_exec, tx_query, new_uuid}
use posduif.Database
use posduif.Database.Messages.{create_message}
use posduif.Database.Messages.Create.{Creates, create_message-Creates}
use posduif.Database.Metadata.{find_metadata, update_sync_metadata}
use posduif.Database.Metadata.Laws.{position, update_sync_metadata_reads_back}
use posduif.Models.Lsn.{string}
use posduif.Database.Tokens.{
  complete_enrollment, enrollment_body, use_token, link_user, find_token, find_device, enroll,
  insert_or_adopt,
}
use posduif.Database.Tokens.Atomic.{Unanswered, complete_enrollment_atomic}
use posduif.Database.Tokens.SingleUse.{enrollment_single_use}
use posduif.Models.{SyncMetadata}
use posduif.Tests.{env, hello, progress, world}

-- dave enrolls a new phone; his id is the UUID that the clock gives.
abbrev enrolled : World
enrolled = (complete_enrollment env "secret" "phone-d" "dave" world).1

dave_enrolls : complete_enrollment env "secret" "phone-d" "dave" world ≡ (ok "3f0e", enrolled)
unfolding complete_enrollment enrollment_body use_token link_user find_token find_device enroll
    insert_or_adopt exec query transaction tx_exec tx_query new_uuid Database.now
dave_enrolls = refl

enrollment_single_use_example :
    (e : Error) × ((complete_enrollment env "secret" "phone-e" "eve" enrolled).0 ≡ err e)
    × ((complete_enrollment env "secret" "phone-e" "eve" enrolled).1.tables ≡ enrolled.tables)
unfolding complete_enrollment enrollment_body use_token link_user find_token find_device enroll
    insert_or_adopt exec query transaction tx_exec tx_query new_uuid Database.now
enrollment_single_use_example =
    enrollment_single_use env "secret" "phone-d" "dave" "3f0e" "phone-e" "eve" world enrolled
      dave_enrolls (omega arith)

-- The connection breaks at the commit, which takes effect.
abbrev lost : Env
lost = record env {
  fault = λ t. if nat_eq t 7 then some "connection reset" else none;
  commits = λ t. true;
}

complete_enrollment_atomic_example :
    let after = (complete_enrollment lost "secret" "phone-d" "dave" world).1.tables in
    (after ≡ world.tables)
    ⊎ Unanswered 1000 "phone-d" "secret" world.tables after
        (wrapped "failed to commit transaction" (driver "connection reset"))
unfolding complete_enrollment enrollment_body use_token link_user find_token find_device enroll
    insert_or_adopt tx_exec tx_query transaction new_uuid Database.now
complete_enrollment_atomic_example =
    complete_enrollment_atomic lost "secret" "phone-d" "dave" world
      (wrapped "failed to commit transaction" (driver "connection reset")) refl

create_message-Creates_example : Creates env hello world (create_message env hello world)
create_message-Creates_example = create_message-Creates env hello world

abbrev synced_at_26 : SyncMetadata
synced_at_26 = record progress { last_synced_lsn = some (string 26) }

update_sync_metadata_reads_back_example :
    (row : SyncMetadata) × (find_metadata "phone-b"
        (update_sync_metadata env synced_at_26 world).1.tables
      ≡ ok row)
    × (row.last_sync_timestamp ≡ none)
    × (position row ≡ some 26)
    × (row.pending_outgoing_count ≡ 0)
    × (row.sync_status ≡ "idle")
    × (find_metadata "phone-a" (update_sync_metadata env synced_at_26 world).1.tables
        ≡ find_metadata "phone-a" world.tables)
update_sync_metadata_reads_back_example =
    update_sync_metadata_reads_back env synced_at_26 (some 26) world "phone-a" (refl, omega arith)
      refl refl refl
