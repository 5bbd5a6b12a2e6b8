-- ===== src/Sync/Tracker.antt =====
-- sync-engine/internal/sync/change_tracker.go. The map `changes` is a field of the world; a
-- device without a queue is a missing key. `changesLock` is held over each access, so an access
-- is one step; the database is read before the lock is taken.
pub mod Devices
pub mod Adding
pub mod Delivery
pub mod Echo
pub mod Queues
pub mod Convert
use Prim.Native.String.{◌++◌ as append}
use posduif.Common.{
  ℕ, String, Bool, true, false, not, ◌&&◌, ◌||◌, ◌==◌, ltb, ◌++◌, Option, none, some, List, [], ◌∷◌,
  length, take, any, select, if◌then◌else◌,
}
use posduif.Common.Dict.{Dict, lookup, insert}
use posduif.Models.{User, Message, SyncMetadata, Value, text, time, other, WalChange}
use posduif.Models.Lsn
use posduif.Errors.{Error, message, is_no_rows, Result, ok, err}
use posduif.Database.{Env, World, M, pure, raise, attempt, errorf, ◌>>=◌, ◌>>◌}
use posduif.Database.Users.{get_user_by_id}
use posduif.Database.Metadata.{get_sync_metadata}

abbrev pub as_string : Option Value → Option String
as_string (some (text s)) = some s
as_string _ = none

abbrev pub as_time : Option Value → Option ℕ
as_time (some (time t)) = some t
as_time _ = none

abbrev pub or_empty : Option String → String
or_empty none = ""
or_empty (some s) = s

abbrev or_else : Option Value → Option Value → Option Value
or_else none v = v
or_else (some u) v = some u

-- change.Table and change.Operation, the first two tests of AddChange
abbrev pub is_tracked : WalChange → Bool
is_tracked c = (c.table == "messages") && (c.operation == "INSERT" || c.operation == "UPDATE")

-- recipient_id of the new row, or of the old one of an UPDATE; `none` where AddChange returns.
unfoldable pub recipient : WalChange → Option String
unfolding lookup
recipient c =
    let new = lookup "recipient_id" c.columns in
    as_string
      (if c.operation == "UPDATE" then or_else new (lookup "recipient_id" c.old_columns) else new)

-- senderIDStr
unfoldable pub sender : WalChange → String
unfolding lookup
sender c = or_empty (as_string (lookup "sender_id" c.columns))

-- oldSenderIDStr
unfoldable pub old_sender : WalChange → String
unfolding lookup
old_sender c =
    if c.operation == "UPDATE" then or_empty (as_string (lookup "sender_id" c.old_columns)) else ""

abbrev pub is_nonempty : String → Bool
is_nonempty s = not (s == "")

-- The devices of a user row: none for a web user.
abbrev pub devices_of : User → List String
devices_of u = elim u.device_id [ none ↦ [] | some d ↦ if d == "" then [] else d ∷ [] ]

-- The test of an error in getDevicesForRecipient and getDevicesForSender.
abbrev pub devices_or_none : Result User → M (List String)
devices_or_none (ok u) = pure (devices_of u)
devices_or_none (err e) = if is_no_rows e then pure [] else raise e

-- The map senderDeviceMap, as the list of its keys.
abbrev pub contains : List String → String → Bool
contains ds d = any (λ e. e == d) ds

abbrev pub without : List String → List String → List String
without excluded ds = select (λ d. not (contains excluded d)) ds

abbrev pub or_nil : Option (List WalChange) → List WalChange
or_nil none = []
or_nil (some q) = q

-- A read of a queue, with a missing key for nil.
abbrev pub queue : Dict (List WalChange) → String → List WalChange
queue changes d = or_nil (lookup d changes)

-- The loop at the end of AddChange, under the lock.
unfoldable pub enqueue : WalChange → List String → Dict (List WalChange) → Dict (List WalChange)
enqueue c [] changes = changes
enqueue c (d ∷ ds) changes = enqueue c ds (insert d (queue changes d ++ c ∷ []) changes)

abbrev pub put_change : WalChange → List String → M (Unit {0})
put_change c ds w = (ok tt, record w { changes = enqueue c ds w.changes })

module _ (env : Env) where
  -- getDevicesForRecipient, and getDevicesForSender, which has the same body
  unfoldable pub get_devices : String → M (List String)
  get_devices id = do r ← attempt (get_user_by_id env id); devices_or_none r

  -- The devices of one sender, if it is to be looked up.
  unfoldable pub sender_devices : String → Bool → String → M (List String)
  sender_devices what test id = if test then errorf what (get_devices id) else pure []

  -- AddChange after its early returns.
  unfoldable pub route : WalChange → String → M (Unit {0})
  route c r = do
    recipients ← errorf "failed to get devices for recipient" (get_devices r)
    senders ← sender_devices "failed to get devices for sender" (is_nonempty (sender c)) (sender c)
    old_senders ←
        sender_devices "failed to get devices for old sender"
          (is_nonempty (old_sender c) && not (old_sender c == sender c)) (old_sender c)
    put_change c (without (senders ++ old_senders) recipients)

  -- AddChange
  unfoldable pub add_change : WalChange → M (Unit {0})
  add_change c = if not (is_tracked c) then pure tt else elim (recipient c) [
    | none ↦ pure tt
    | some r ↦ if (sender c == "") && (old_sender c == "") then pure tt else route c r
  ]

-- The filter of GetChangesForDevice by the last synced LSN.
unfoldable pub is_newer : Option String → WalChange → Bool
is_newer none c = true
is_newer (some s) c =
    if s == "" then true else elim (Lsn.parse s) [ none ↦ true | some last ↦ ltb last c.lsn ]

unfoldable pub limit_changes : ℕ → List WalChange → List WalChange
limit_changes limit cs = if ltb 0 limit && ltb limit (length cs) then take limit cs else cs

abbrev pub read_queue : String → ℕ → SyncMetadata → M (List WalChange)
read_queue device limit sm w =
    (ok (limit_changes limit (select (is_newer sm.last_synced_lsn) (queue w.changes device))), w)

unfoldable pub get_changes_for_device : Env → String → ℕ → M (List WalChange)
get_changes_for_device env device limit = do
  sm ← errorf "failed to get sync metadata" (get_sync_metadata env device)
  read_queue device limit sm

-- ClearChangesForDevice
unfoldable pub clear : String → ℕ → Dict (List WalChange) → Dict (List WalChange)
clear device synced changes = elim (lookup device changes) [
  | none ↦ changes
  | some q ↦ insert device (select (λ c. ltb synced c.lsn) q) changes
]

unfoldable pub clear_changes_for_device : String → ℕ → M (Unit {0})
clear_changes_for_device device synced w =
    (ok tt, record w { changes = clear device synced w.changes })

abbrev or_time : Option ℕ → ℕ → ℕ
or_time none t = t
or_time (some s) t = s

-- The message that ConvertWALChangeToMessage builds.
unfoldable pub to_message : WalChange → Message
to_message c =
    let field = λ (name : String). as_string (lookup name c.columns) in
    let instant = λ (name : String). as_time (lookup name c.columns) in
    record {
      id = or_empty (field "id");
      sender_id = or_empty (field "sender_id");
      recipient_id = or_empty (field "recipient_id");
      content = or_empty (field "content");
      status = elim (field "status") [ none ↦ "pending_sync" | some s ↦ s ];
      created_at = or_time (instant "created_at") c.commit_time;
      updated_at = or_time (instant "updated_at") c.commit_time;
      synced_at = instant "synced_at";
      read_at = instant "read_at";
    }

-- ConvertWALChangeToMessage
unfoldable pub convert : WalChange → Result Message
convert c =
    if c.operation == "INSERT" || c.operation == "UPDATE"
    then ok (to_message c)
    else err (message (append "unsupported operation: " c.operation))
