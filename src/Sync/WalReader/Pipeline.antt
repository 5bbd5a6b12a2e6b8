-- ===== src/Sync/WalReader/Pipeline.antt =====
-- wal_reader.go and change_tracker.go: what the decoded changes do in AddChange.
use posduif.Common.{
  ℕ, String, ◌≡◌, refl, List, [], ◌∷◌, arith, Bool-cases, inl, inr, length, drop, ltb,
}
use posduif.Errors.{ok}
use posduif.Database.{Env, World, now}
use posduif.Sync.Tracker.{add_change}
use posduif.Sync.WalReader.{
  bare_change, handle, parse_pgoutput_message, process_wal_data, process_keepalive,
  process_copy_data,
}

bare_dropped :
    (env : Env) (op : String) (lsn time : ℕ) (w : World)
    → add_change env (bare_change op lsn time) w ≡ (ok tt, w)
unfolding add_change
bare_dropped env op lsn time w = refl

handled :
    (env : Env) (bytes : List ℕ) (lsn time : ℕ) (w : World)
    → handle (add_change env) (parse_pgoutput_message bytes lsn time) w ≡ (ok tt, w)
unfolding parse_pgoutput_message
handled env [] lsn time w = refl
handled env (b ∷ bytes) lsn time w = ground (
  arith,
  bare_dropped env "INSERT" lsn time w,
  bare_dropped env "UPDATE" lsn time w,
  bare_dropped env "DELETE" lsn time w,
)

wal_data_dropped :
    (env : Env) (bytes : List ℕ) (w : World)
    → process_wal_data (add_change env) bytes w ≡ (ok tt, w)
unfolding process_wal_data
wal_data_dropped env bytes w = elim (Bool-cases (ltb (length bytes) 25)) [
  | inl e ↦ rw e
  | inr e ↦ rw e (handled env (drop 25 bytes) _ _ w)
]

-- With AddChange as the handler no message of the replication stream, whatever its bytes, changes
-- a queue or a table.
pub decoded_changes_dropped :
    (env : Env) (bytes : List ℕ) (w : World)
    → ((process_copy_data env (add_change env) bytes w).1.changes ≡ w.changes)
      × ((process_copy_data env (add_change env) bytes w).1.tables ≡ w.tables)
unfolding process_copy_data process_keepalive now
decoded_changes_dropped env [] w = (refl, refl)
decoded_changes_dropped env (b ∷ bytes) w =
    (ground (arith, wal_data_dropped env bytes w), ground (arith, wal_data_dropped env bytes w))
