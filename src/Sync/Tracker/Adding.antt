-- ===== src/Sync/Tracker/Adding.antt =====
-- change_tracker.go: what AddChange does to the queues, on every branch.
use posduif.Common.{String, Bool, not, ◌&&◌, ◌==◌, ◌++◌, ◌≡◌, List, arith}
use posduif.Common.Dict.{Dict}
use posduif.Models.{WalChange}
use posduif.Errors.{Result, ok}
use posduif.Database.{Env, World, advance}
use posduif.Sync.Tracker.{sender, old_sender, is_nonempty, without, enqueue, route}
use posduif.Sync.Tracker.Devices.{
  devices_at, get_devices_lem, label, later, sender_result, sender_devices_lem,
}

abbrev pub asks_old : WalChange → Bool
asks_old c = is_nonempty (old_sender c) && not (old_sender c == sender c)

-- The three searches of AddChange, in order, each from the world that the one before leaves.
module _ (env : Env) (c : WalChange) (r : String) (w : World) where
  abbrev pub recipients : Result (List String)
  recipients = label "failed to get devices for recipient" (devices_at env r w.tick w.tables)

  abbrev pub senders : Result (List String)
  senders =
      sender_result env "failed to get devices for sender" (is_nonempty (sender c)) (sender c)
        (advance w)

  abbrev pub old_senders : Result (List String)
  old_senders =
      sender_result env "failed to get devices for old sender" (asks_old c) (old_sender c)
        (later (is_nonempty (sender c)) (advance w))

-- The end of AddChange, given what the searches found.
abbrev pub deliver :
    WalChange
    → Result (List String)
    → Result (List String)
    → Result (List String)
    → Dict (List WalChange)
    → Dict (List WalChange)
deliver c (ok ds) (ok ss) (ok os) changes = enqueue c (without (ss ++ os) ds) changes
deliver c _ _ _ changes = changes

pub changes-route :
    (env : Env) (c : WalChange) (r : String) (w : World)
    → (route env c r w).1.changes
      ≡ deliver c (recipients env c r w) (senders env c r w) (old_senders env c r w) w.changes
unfolding route
changes-route env c r w = ground (
  arith,
  get_devices_lem env r w,
  sender_devices_lem env "failed to get devices for sender" (is_nonempty (sender c)) (sender c)
      (advance w),
  sender_devices_lem env "failed to get devices for old sender" (asks_old c) (old_sender c)
      (later (is_nonempty (sender c)) (advance w)),
)
