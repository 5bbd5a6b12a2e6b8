-- ===== src/Sync/Feed.antt =====
-- The feed of one device, over change_tracker.go and manager.go together: what AddChange queues
-- and what the calls of syncIncomingWAL hand out, one after the other, as the lock of the tracker
-- orders them.
pub mod Routing
pub mod Turns
pub mod Fifo
pub mod Refinement
use posduif.Common.{
  ℕ, suc, String, Bool, true, false, not, ◌&&◌, ◌||◌, ◌==◌, ◌++◌, none, some, List, [], ◌∷◌, take,
  drop, if◌then◌else◌,
}
use posduif.Models.{User, Message, WalChange}
use posduif.Errors.{is_no_rows, Result, ok, err}
use posduif.Database.{Env, World}
use posduif.Sync.Tracker.{
  is_tracked, recipient, sender, old_sender, devices_of, contains, add_change,
}
use posduif.Sync.Manager.{sync_incoming_wal}

-- A change arrives from the log, or the device calls with the limit n + 1.
pub data Event : Type 0 where
  add : WalChange → Event
  sync : ℕ → Event

-- What the handler of the call has to send.
abbrev pub messages_of : Result (List Message) → List Message
messages_of (ok ms) = ms
messages_of (err e) = []

-- The code run on a sequence of events: all that the device received, and the last world.
unfoldable pub run : Env → String → List Event → World → List Message × World
run env device [] w = ([], w)
run env device (add c ∷ es) w = run env device es (add_change env c w).1
run env device (sync n ∷ es) w =
    let r = sync_incoming_wal env device (suc n) w in
    let rest = run env device es r.1 in (messages_of r.0 ++ rest.0, rest.1)

-- The specification: a first-in first-out queue of the changes that are for the device.
unfoldable pub serve :
    (WalChange → Bool) → List Event → List WalChange → List WalChange × List WalChange
serve p [] q = ([], q)
serve p (add c ∷ es) q = serve p es (if p c then q ++ c ∷ [] else q)
serve p (sync n ∷ es) q =
    let rest = serve p es (drop (suc n) q) in (take (suc n) q ++ rest.0, rest.1)

abbrev pub added : List Event → List WalChange
added [] = []
added (add c ∷ es) = c ∷ added es
added (sync n ∷ es) = added es

abbrev pub owns : String → Result User → Bool
owns d (ok u) = contains (devices_of u) d
owns d (err e) = false

-- The search did not fail, and did not find the device.
abbrev pub spares : String → Result User → Bool
spares d (ok u) = not (contains (devices_of u) d)
spares d (err e) = is_no_rows e

abbrev pub spared : String → (String → Result User) → String → Bool
spared d search id = (id == "") || spares d (search id)

-- Which changes are for a device, given the users: a write to `messages` with a sender whose
-- recipient has the device, while neither its sender nor the sender before has it.
unfoldable pub goes_to : String → (String → Result User) → WalChange → Bool
goes_to d search c = is_tracked c && elim (recipient c) [
  | none ↦ false
  | some r ↦
      not ((sender c == "") && (old_sender c == ""))
      && (owns d (search r) && (spared d search (sender c) && spared d search (old_sender c)))
]
