-- ===== src/Sync/Feed/Refinement.antt =====
-- The change tracker and syncIncomingWAL together refine a first-in first-out queue.
use posduif.Common.{
  ℕ, suc, ◌*◌, ◌≤◌, String, Bool, ◌≡◌, refl, ap, ◌∙◌, sym, subst, List, [], ◌∷◌, ◌++◌, map, take,
  drop, select, length, if◌then◌else◌,
}
use mathlib.Core.List.{append-nil}
use posduif.Models.{Message, WalChange}
use posduif.Database.{Env, World}
use posduif.Database.Users.{find_user}
use posduif.Database.Metadata.{find_metadata}
use posduif.Sync.Tracker.{queue, to_message, add_change}
use posduif.Sync.Manager.{sync_incoming_wal}
use posduif.Sync.Manager.Wal.{Quiet}
use posduif.Sync.Feed.{Event, add, sync, messages_of, run, serve, added, goes_to}
use posduif.Sync.Feed.Routing.{queue-add_change, tables-add_change}
use posduif.Sync.Feed.Fifo.{todo_add, calls, served_in_order, drains, added-calls}
use posduif.Sync.Feed.Turns.{Sound, Sound-back, Ready, split_todo, sync_incoming_wal-Turn}

-- The code's run and the specification's agree: on what was sent, and on what is queued.
abbrev pub Agrees : String → List Message × World → List WalChange × List WalChange → Type 0
Agrees device p r = (p.0 ≡ map to_message r.0) × (queue p.1.changes device ≡ r.1)

-- What the log promises of the queue and of all that it will add, for the first of these.
abbrev pub Promised : String → World → List WalChange → Type 0
Promised device w todo = Sound todo × Ready device todo w

map-append :
    (xs ys : List WalChange) → map to_message (xs ++ ys) ≡ map to_message xs ++ map to_message ys
map-append [] ys = refl
map-append (x ∷ xs) ys = ap (λ t. to_message x ∷ t) (map-append xs ys)

module _ (env : Env) (quiet : Quiet env) (device : String) where
  abbrev wanted : World → WalChange → Bool
  wanted w = goes_to device (λ id. find_user env id w.tables)

  Ready-tables :
      (todo : List WalChange) (w w' : World)
      → w'.tables ≡ w.tables
      → Ready device todo w
      → Ready device todo w'
  Ready-tables todo w w' same r = record {
    sm = r.sm;
    found = ap (λ t. find_metadata device t) same ∙ r.found;
    newer = r.newer;
  }

  agrees :
      (p : WalChange → Bool) (es : List Event) (w : World) (q : List WalChange)
      → ((v : World) → v.tables.users ≡ w.tables.users → (c : WalChange) → wanted v c ≡ p c)
      → queue w.changes device ≡ q
      → Promised device w (q ++ select p (added es))
      → Agrees device (run env device es w) (serve p es q)
  unfolding run serve
  agrees p [] w q same e h = (refl, e)
  agrees p (add c ∷ es) w q same e h =
      let next = (add_change env c w).1 in
      let tables = tables-add_change env c w in
      agrees p es next (if p c then q ++ c ∷ [] else q)
        (λ v k. same v (k ∙ ap (λ t. t.users) tables))
        (queue-add_change env quiet c device w ∙ rw (same w refl c, e))
        (subst (Promised device next) (todo_add p q c (added es))
          (h.0, Ready-tables _ w next tables h.1))
  agrees p (sync n ∷ es) w q same e h =
      let later = select p (added es) in
      let t = sync_incoming_wal-Turn env quiet device n q later w h.0 h.1 e in
      let rest =
        agrees p es (sync_incoming_wal env device (suc n) w).1 (drop (suc n) q)
          (λ v k. same v (k ∙ t.users)) t.left
          (Sound-back (take (suc n) q) _ (subst Sound (split_todo (suc n) q later) h.0), t.ready) in
      (
        ap (λ r. messages_of r ++ (run env device es (sync_incoming_wal env device (suc n) w).1).0)
              t.sent
            ∙ ap (λ ms. map to_message (take (suc n) q) ++ ms) rest.0
            ∙ sym (map-append (take (suc n) q) _),
        rest.1,
      )

module _ (env : Env) (device : String) where
  -- Which changes are for the device, by the users of a world.
  abbrev pub wants : World → WalChange → Bool
  wants w = goes_to device (λ id. find_user env id w.tables)

  wants_same :
      (v w : World) → v.tables.users ≡ w.tables.users → (c : WalChange) → wants v c ≡ wants w c
  unfolding find_user
  wants_same v w e c =
      ap (λ us. goes_to device (λ id. find_user env id (record w.tables { users = us })) c) e

-- The tracker and the manager refine a first-in first-out queue. Let a device have its row of
-- metadata, and let the changes that are queued for it and those that will arrive for it be
-- writes newer than its last synced LSN, with uint64 LSNs that grow strictly. Then, while the
-- database works and for every interleaving of AddChange with calls of syncIncomingWAL that have
-- a positive limit, the calls hand out exactly the messages that the queue specification hands
-- out, and the device's queue holds exactly the changes that the specification holds.
pub run_refines :
    (env : Env) (device : String) (es : List Event) (w : World)
    → Quiet env
    → Promised device w (queue w.changes device ++ select (wants env device w) (added es))
    → Agrees device (run env device es w) (serve (wants env device w) es (queue w.changes device))
run_refines env device es w quiet h =
    agrees env quiet device (wants env device w) es w (queue w.changes device)
      (λ v e. wants_same env device v w e) refl h

-- Exactly once and in order: under the same conditions, what the calls handed out, followed by
-- what is still queued, is what was queued at the start followed by the arrived changes that are
-- for the device.
pub feed_exactly_once :
    (env : Env) (device : String) (es : List Event) (w : World)
    → Quiet env
    → Promised device w (queue w.changes device ++ select (wants env device w) (added es))
    → (run env device es w).0 ++ map to_message (queue (run env device es w).1.changes device)
      ≡ map to_message (queue w.changes device ++ select (wants env device w) (added es))
feed_exactly_once env device es w quiet h =
    let (sent, left) = run_refines env device es w quiet h in
    rw (sent, left)
      (sym (map-append (serve (wants env device w) es (queue w.changes device)).0 _)
        ∙ ap (map to_message) (served_in_order (wants env device w) es (queue w.changes device)))

-- Every change is delivered: under the same conditions, if the device makes k more calls with the
-- limit n + 1, and k * (n + 1) is at least the number of changes, then after these calls it has
-- received the message of every change that is for it, in order, and its queue is empty.
pub feed_drains :
    (env : Env) (device : String) (es : List Event) (k n : ℕ) (w : World)
    → Quiet env
    → Promised device w (queue w.changes device ++ select (wants env device w) (added es))
    → length (queue w.changes device ++ select (wants env device w) (added es)) ≤ k * suc n
    → ((run env device (es ++ calls k n) w).0
        ≡ map to_message (queue w.changes device ++ select (wants env device w) (added es)))
      × (queue (run env device (es ++ calls k n) w).1.changes device ≡ [])
feed_drains env device es k n w quiet h enough =
    let p = wants env device w in
    let todo = λ (cs : List WalChange). queue w.changes device ++ select p cs in
    let later = added-calls es k n in
    let kept = subst (λ cs. Promised device w (todo cs)) (sym later) h in
    let once = feed_exactly_once env device (es ++ calls k n) w quiet kept in
    let none_left =
      (run_refines env device (es ++ calls k n) w quiet kept).1
      ∙ drains p es k n (queue w.changes device) enough in
    (
      sym (append-nil (run env device (es ++ calls k n) w).0)
          ∙ ap (λ q. (run env device (es ++ calls k n) w).0 ++ map to_message q) (sym none_left)
          ∙ once
          ∙ ap (λ cs. map to_message (todo cs)) later,
      none_left,
    )
