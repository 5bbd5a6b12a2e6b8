-- ===== src/Sync/WalService.antt =====
-- sync-engine/internal/sync/wal_service.go: the life of the background reader, and GetStartLSN.
-- A goroutine is a number that counts the runs of runWALReader which have not returned. The work
-- of a tick, readWALChanges, acquires a connection and reads nothing: readChangesViaQuery returns
-- nil.
pub mod Life
use posduif.Common.{ℕ, suc, String, Bool, true, false, ◌==◌, ◌≡◌, Option, none, some, if◌then◌else◌}
use posduif.Models.Lsn
use posduif.Errors.{Error, message, wrapped, Result, ok, err}

-- `closed` says that stopChan is closed.
pub record WalService : Type 0 where
  pub running : Bool
  pub closed : Bool
  pub readers : ℕ

-- A panic of the Go runtime is a result of its own.
pub data Outcome : Type 0 where
  returned : WalService → Outcome
  failed : WalService → Error → Outcome
  panicked : Outcome

-- NewWALService, after the slot was created
abbrev pub new_service : WalService
new_service = record { running = false; closed = false; readers = 0 }

-- Start
unfoldable pub start : WalService → Outcome
start ws =
    if ws.running
    then failed ws (message "WAL service already running")
    else returned (record ws { running = true; readers = suc ws.readers })

-- close of a closed channel panics
close_stop : WalService → Outcome
close_stop ws =
    if ws.closed then panicked else returned (record ws { closed = true; running = false })

-- Stop
unfoldable pub stop : WalService → Outcome
unfolding close_stop
stop ws = if ws.running then close_stop ws else returned ws

-- What may happen to the service: the calls, and in the select of runWALReader the end of the
-- context, the closed channel, and a tick, which changes nothing here.
pub data Step (ws ws' : WalService) : Type 0 where
  starts : start ws ≡ returned ws' → Step ws ws'
  refuses : (e : Error) → start ws ≡ failed ws' e → Step ws ws'
  stops : stop ws ≡ returned ws' → Step ws ws'
  context_done : (n : ℕ) → ws.readers ≡ suc n → ws' ≡ record ws { readers = n } → Step ws ws'
  notices :
      (n : ℕ)
      → ws.closed ≡ true
      → ws.readers ≡ suc n
      → ws' ≡ record ws { readers = n }
      → Step ws ws'
  ticks : ws' ≡ ws → Step ws ws'

-- All states of a service, from the one that NewWALService gives.
pub data Reach : WalService → Type 0 where
  created : Reach new_service
  next : {ws ws' : WalService} → Reach ws → Step ws ws' → Reach ws'

abbrev parse_or : String → Option ℕ → Result ℕ
parse_or s none = err (wrapped s (message "invalid LSN"))
parse_or s (some l) = ok l

current_lsn : Result String → Result ℕ
current_lsn (err e) = err (wrapped "failed to get current WAL LSN" e)
current_lsn (ok s) = parse_or "failed to parse current LSN" (Lsn.parse s)

-- GetStartLSN, given what GetSlotInfo finds under confirmed_flush_lsn ("" for NULL) and what
-- pg_current_wal_lsn() answers. The three errors of ParseLSN are one here.
unfoldable pub get_start_lsn : Result String → Result String → Result ℕ
unfolding current_lsn
get_start_lsn (err e) current = err (wrapped "failed to get slot info" e)
get_start_lsn (ok s) current =
    if s == "" then current_lsn current else parse_or "failed to parse LSN" (Lsn.parse s)
