-- ===== src/Sync/WalService/Life.antt =====
-- wal_service.go: how often the reader runs, where Stop panics, and where replication starts.
use posduif.Common.{ℕ, suc, ◌≤◌, ◌<◌, ◌^◌, String, Bool, true, false, ◌≡◌, refl, arith}
use posduif.Models.Lsn
use posduif.Models.Lsn.RoundTrip.{parse-string, string_nonempty}
use posduif.Errors.{Result, ok}
use posduif.Sync.WalService.{
  WalService, returned, panicked, start, stop, Step, starts, refuses, stops, context_done, notices,
  ticks, Reach, created, next, get_start_lsn,
}

-- While the stop channel is open, a service that is not running has no reader, and a running one
-- has one at most (none once the context has ended).
abbrev pub Single : Bool → Bool → ℕ → Type 0
Single true running n = Unit
Single false false n = n ≡ 0
Single false true n = n ≤ 1

abbrev pub IsSingle : WalService → Type 0
IsSingle ws = Single ws.closed ws.running ws.readers

fewer : (closed running : Bool) (n : ℕ) → Single closed running (suc n) → Single closed running n
fewer true running n h = tt
fewer false false n h = absurd (omega arith)
fewer false true n h = omega arith

Step-IsSingle : {ws ws' : WalService} → Step ws ws' → IsSingle ws → IsSingle ws'
unfolding start stop
Step-IsSingle (starts e) s = ground arith
Step-IsSingle (refuses x e) s = ground arith
Step-IsSingle (stops e) s = ground arith
Step-IsSingle {ws} (context_done n h e) s = rw e (fewer ws.closed ws.running n (rw h at s))
Step-IsSingle {ws} (notices n c h e) s = rw e (fewer ws.closed ws.running n (rw h at s))
Step-IsSingle (ticks e) s = rw e s

-- Until Stop closes the channel, no history of calls and of the reader's own endings leads to two
-- readers at once.
pub Reach-IsSingle : {ws : WalService} → Reach ws → IsSingle ws
Reach-IsSingle created = refl
Reach-IsSingle (next r st) = Step-IsSingle st (Reach-IsSingle r)

-- A service that was stopped starts again without an error, and the next Stop panics, since the
-- channel that it closes was closed by the first.
pub restart_then_stop_panics :
    (ws ws1 : WalService)
    → ws.running ≡ true
    → stop ws ≡ returned ws1
    → (ws2 : WalService) × (start ws1 ≡ returned ws2) × (stop ws2 ≡ panicked)
unfolding start stop
restart_then_stop_panics ws ws1 on e =
    (record ws1 { running = true; readers = suc ws1.readers }, ground arith, ground arith)

-- GetStartLSN gives back the slot's confirmed LSN, as LSN.String prints it, and does not look at
-- the current one then.
pub get_start_lsn_confirmed :
    (l : ℕ) (current : Result String)
    → l < 2 ^ 64
    → get_start_lsn (ok (Lsn.string l)) current ≡ ok l
unfolding get_start_lsn
get_start_lsn_confirmed l current h = rw (string_nonempty l h) (rw (parse-string l h))
