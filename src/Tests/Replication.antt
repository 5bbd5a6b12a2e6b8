-- ===== src/Tests/Replication.antt =====
-- The theorems on LSNs, on the background reader and on the replication stream, at sample values.
use posduif.Common.{ℕ, ◌≡◌, refl, true, false, some, List, [], ◌∷◌, arith, length, take, drop}
use posduif.Models.Lsn.{parse, string}
use posduif.Models.Lsn.RoundTrip.{parse-string}
use posduif.Sync.Tracker.{add_change}
use posduif.Sync.WalReader.{
  create_standby_status_update, read_be, put_be, micros_since_2000, process_copy_data,
}
use posduif.Sync.WalReader.Words.{status_update_layout}
use posduif.Sync.WalReader.Pipeline.{decoded_changes_dropped}
use posduif.Sync.WalService.{WalService, returned, panicked, start, stop, created, next, starts}
use posduif.Sync.WalService.Life.{IsSingle, Reach-IsSingle, restart_then_stop_panics}
use posduif.Tests.{env, world}

parse-string_example : parse (string 5000000000) ≡ some 5000000000
parse-string_example = parse-string 5000000000 (omega arith)

abbrev running : WalService
running = record { running = true; closed = false; readers = 1 }

abbrev stopped : WalService
stopped = record { running = false; closed = true; readers = 1 }

Reach-IsSingle_example : IsSingle running
unfolding start
Reach-IsSingle_example = Reach-IsSingle (next created (starts refl))

restart_then_stop_panics_example :
    (ws2 : WalService) × (start stopped ≡ returned ws2) × (stop ws2 ≡ panicked)
unfolding stop
restart_then_stop_panics_example = restart_then_stop_panics running stopped refl refl

status_update_layout_example :
    let buf = create_standby_status_update 63082281600000001000 77 in
    (length buf ≡ 25)
    × (take 1 buf ≡ b'r' ∷ [])
    × (read_be 0 (take 8 (drop 1 buf)) ≡ 77)
    × (read_be 0 (take 8 (drop 9 buf)) ≡ 77)
    × (drop 17 buf ≡ put_be 8 (micros_since_2000 63082281600000001000))
    × (read_be 0 (drop 17 buf) ≡ micros_since_2000 63082281600000001000)
status_update_layout_example = status_update_layout 63082281600000001000 77 (omega arith)

abbrev data_message : List ℕ
data_message =
    b'w' ∷ 0 ∷ 0 ∷ 0 ∷ 0 ∷ 0 ∷ 0 ∷ 0 ∷ 77 ∷ 0 ∷ 0 ∷ 0 ∷ 0 ∷ 0 ∷ 0 ∷ 0 ∷ 9 ∷ 0 ∷ 0 ∷ 0 ∷ 0 ∷ 0 ∷ 0
    ∷ 0 ∷ 0 ∷ 0 ∷ b'I' ∷ []

decoded_changes_dropped_example :
    ((process_copy_data env (add_change env) data_message world).1.changes ≡ world.changes)
    × ((process_copy_data env (add_change env) data_message world).1.tables ≡ world.tables)
decoded_changes_dropped_example = decoded_changes_dropped env data_message world
