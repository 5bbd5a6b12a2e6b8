-- ===== src/Sync/WalReader.antt =====
-- sync-engine/internal/sync/wal_reader.go: the decoder of the replication stream. Data are lists
-- of bytes, numbers below 256; time stamps are nanoseconds since Go's zero time. StartReplication
-- and ReadChanges only return an error; the connection is not modelled.
pub mod Words
pub mod Pipeline
use posduif.Common.{
  ℕ, zero, suc, ◌+◌, ◌-◌, ◌*◌, ◌/◌, ◌%◌, ◌^◌, String, Bool, ltb, leb, nat_eq, ◌++◌, Option, none,
  some, List, [], ◌∷◌, take, drop, length, if◌then◌else◌,
}
use posduif.Models.{WalChange}
use posduif.Errors.{message}
use posduif.Database.{Env, M, pure, raise, ◌>>=◌, now}
use Prim.Native.Nat.{min}

-- binary.BigEndian.Uint64 and Uint32, of the bytes that they are given
unfoldable pub read_be : ℕ → List ℕ → ℕ
read_be acc [] = acc
read_be acc (b ∷ bs) = read_be (acc * 256 + b) bs

-- binary.BigEndian.PutUint64 and PutUint32: k bytes, the most significant first
unfoldable pub put_be : ℕ → ℕ → List ℕ
put_be zero v = []
put_be (suc k) v = v / 256 ^ k % 256 ∷ put_be k v

-- time.Unix(0, 0) and 2000-01-01, in nanoseconds since the zero time
abbrev unix_epoch : ℕ
unix_epoch = 62135596800 * 10 ^ 9

abbrev epoch2000 : ℕ
epoch2000 = 63082281600 * 10 ^ 9

-- time.Unix(0, timestampMicros*1000): the product wraps as an int64.
unfoldable pub commit_time : ℕ → ℕ
commit_time micros =
    let ns = micros * 1000 % 2 ^ 64 in
    if ltb ns (2 ^ 63) then unix_epoch + ns else unix_epoch - (2 ^ 64 - ns)

-- uint64(time.Since(epoch2000).Microseconds()); a time.Duration stays within an int64.
unfoldable pub micros_since_2000 : ℕ → ℕ
micros_since_2000 t =
    if leb epoch2000 t
    then min (t - epoch2000) (2 ^ 63 - 1) / 1000
    else (2 ^ 64 - min (epoch2000 - t) (2 ^ 63) / 1000) % 2 ^ 64

-- Bytes copied over the front of a buffer, and from an offset on.
overlay : List ℕ → List ℕ → List ℕ
overlay [] buf = buf
overlay (b ∷ bs) [] = []
overlay (b ∷ bs) (x ∷ buf) = b ∷ overlay bs buf

put_at : ℕ → List ℕ → List ℕ → List ℕ
unfolding overlay
put_at zero bs buf = overlay bs buf
put_at (suc n) bs [] = []
put_at (suc n) bs (x ∷ buf) = x ∷ put_at n bs buf

-- make([]byte, n)
zero_bytes : ℕ → List ℕ
zero_bytes zero = []
zero_bytes (suc n) = 0 ∷ zero_bytes n

-- createStandbyStatusUpdate at the time `t`. The last write goes to the bytes 17 to 24.
unfoldable pub create_standby_status_update : ℕ → ℕ → List ℕ
unfolding put_be put_at zero_bytes
create_standby_status_update t lsn =
    let buf0 = put_at 0 (b'r' ∷ []) (zero_bytes 25) in
    let buf1 = put_at 1 (put_be 8 lsn) buf0 in
    let buf9 = put_at 9 (put_be 8 lsn) buf1 in
    let buf17 = put_at 17 (put_be 4 (lsn / 2 ^ 32 % 2 ^ 32)) buf9 in
    put_at 17 (put_be 8 (micros_since_2000 t)) buf17

-- parseInsert, parseUpdate and parseDelete differ in the operation alone.
abbrev pub bare_change : String → ℕ → ℕ → WalChange
bare_change operation lsn time = record {
  lsn = lsn;
  schema = "";
  table = "";
  operation = operation;
  columns = [];
  old_columns = [];
  commit_time = time;
}

-- parsePgoutputMessage, which never returns an error
unfoldable pub parse_pgoutput_message : List ℕ → ℕ → ℕ → Option WalChange
parse_pgoutput_message [] lsn time = none
parse_pgoutput_message (msg_type ∷ bytes) lsn time =
    if nat_eq msg_type b'I'
    then some (bare_change "INSERT" lsn time)
    else if nat_eq msg_type b'U'
    then some (bare_change "UPDATE" lsn time)
    else if nat_eq msg_type b'D'
    then some (bare_change "DELETE" lsn time)
    else none

abbrev pub handle : (WalChange → M (Unit {0})) → Option WalChange → M (Unit {0})
handle handler none = pure tt
handle handler (some c) = handler c

-- processWALData
unfoldable pub process_wal_data : (WalChange → M (Unit {0})) → List ℕ → M (Unit {0})
process_wal_data handler bytes =
    if ltb (length bytes) 25
    then pure tt
    else handle handler (
        parse_pgoutput_message (drop 25 bytes) (read_be 0 (take 8 bytes))
          (commit_time (read_be 0 (take 8 (drop 8 bytes)))))

module _ (env : Env) where
  -- processKeepalive: the status update that it builds at this time is dropped.
  unfoldable pub process_keepalive : List ℕ → M (Unit {0})
  process_keepalive bytes =
      if ltb (length bytes) 9
      then pure tt
      else do _ ← now env; raise (message "keepalive processing not yet fully implemented")

  -- processCopyData
  unfoldable pub process_copy_data : (WalChange → M (Unit {0})) → List ℕ → M (Unit {0})
  process_copy_data handler [] = pure tt
  process_copy_data handler (msg_type ∷ bytes) =
      if nat_eq msg_type b'w'
      then process_wal_data handler bytes
      else if nat_eq msg_type b'k'
      then process_keepalive bytes
      else pure tt
