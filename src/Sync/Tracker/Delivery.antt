-- ===== src/Sync/Tracker/Delivery.antt =====
-- change_tracker.go: which queues AddChange extends.
use posduif.Common.{
  suc, String, true, false, ◌++◌, ◌≡◌, ◌≢◌, ◌∙◌, none, some, List, [], ◌∷◌, arith, eq_iff, eq_of_ne,
  inl, inr, Option-cases,
}
use posduif.Common.Dict.{insert}
use posduif.Models.{User, WalChange}
use posduif.Errors.{ok}
use posduif.Database.{Env, World, advance}
use posduif.Database.Users.{find_user}
use posduif.Sync.Tracker.{
  is_tracked, recipient, sender, old_sender, is_nonempty, devices_of, contains, without, enqueue,
  queue, get_devices, sender_devices, route, add_change,
}
use posduif.Sync.Tracker.Devices.{contains-append, get_devices_lem, sender_devices_lem}
use posduif.Sync.Tracker.Adding.{asks_old}

old_sender_of_insert : (c : WalChange) → c.operation ≡ "INSERT" → old_sender c ≡ ""
unfolding old_sender
old_sender_of_insert c e = rw e

is_tracked_of_insert :
    (c : WalChange) → c.table ≡ "messages" → c.operation ≡ "INSERT" → is_tracked c ≡ true
is_tracked_of_insert c e h = rw (e, h)

not_excluded : (v : User) (d : String) → v.device_id ≢ some d → contains (devices_of v) d ≡ false
not_excluded v d h = elim (Option-cases v.device_id) [
  | inl e ↦ ground arith
  | inr (e, eq) ↦ ground (arith, eq_iff e d)
]

without_other :
    (v : User) (d : String) → v.device_id ≢ some d → without (devices_of v ++ []) (d ∷ []) ≡ d ∷ []
without_other v d h = rw (contains-append (devices_of v) [] d, not_excluded v d h)

devices_of-some : (u : User) (d : String) → u.device_id ≡ some d → d ≢ "" → devices_of u ≡ d ∷ []
devices_of-some u d e h = ground (arith, eq_iff d "")

-- A run of `route` in which the three searches succeed.
route_lem :
    (env : Env) (c : WalChange) (r : String) (w w1 w2 w3 : World) (ds ss os : List String)
    → get_devices env r w ≡ (ok ds, w1)
    → sender_devices env "failed to get devices for sender" (is_nonempty (sender c)) (sender c) w1
      ≡ (ok ss, w2)
    → sender_devices env "failed to get devices for old sender" (asks_old c) (old_sender c) w2
      ≡ (ok os, w3)
    → route env c r w
      ≡ (ok tt, record w3 { changes = enqueue c (without (ss ++ os) ds) w3.changes })
unfolding route
route_lem env c r w w1 w2 w3 ds ss os p q s = ground arith

-- With no failure an INSERT to a mobile recipient, sent by a user on another device or on none,
-- is appended to the queue of the recipient's device, and nothing else changes.
pub add_change_delivers :
    (env : Env) (c : WalChange) (r d : String) (u v : User) (w : World)
    → c.table ≡ "messages"
    → c.operation ≡ "INSERT"
    → recipient c ≡ some r
    → sender c ≢ ""
    → find_user env r w.tables ≡ ok u
    → u.device_id ≡ some d
    → d ≢ ""
    → find_user env (sender c) w.tables ≡ ok v
    → v.device_id ≢ some d
    → env.fault w.tick ≡ none
    → env.fault (suc w.tick) ≡ none
    → add_change env c w ≡ (
      ok tt,
      record w {
        changes = insert d (queue w.changes d ++ c ∷ []) w.changes;
        tick = suc (suc w.tick);
      },
    )
unfolding add_change enqueue
add_change_delivers env c r d u v w table op to from found_r device named found_s other f0 f1 =
    rw (is_tracked_of_insert c table op, to, eq_of_ne (sender c) "" from)
      (route_lem env c r w (advance w) (advance (advance w)) (advance (advance w)) (d ∷ [])
          (devices_of v) [] recipient_found sender_found no_old_sender
        ∙ rw (without_other v d other))
  where
    recipient_found : get_devices env r w ≡ (ok (d ∷ []), advance w)
    recipient_found = ground (arith, get_devices_lem env r w, devices_of-some u d device named)

    sender_found :
        sender_devices env "failed to get devices for sender"
          (is_nonempty (sender c))
          (sender c)
          (advance w)
        ≡ (ok (devices_of v), advance (advance w))
    sender_found = rw (eq_of_ne (sender c) "" from) (
        ground (
          arith,
          sender_devices_lem env "failed to get devices for sender" true (sender c) (advance w),
        ))

    no_old_sender :
        sender_devices env "failed to get devices for old sender"
          (asks_old c)
          (old_sender c)
          (advance (advance w))
        ≡ (ok [], advance (advance w))
    no_old_sender =
        rw (old_sender_of_insert c op)
          (sender_devices_lem env "failed to get devices for old sender" false "" _)
