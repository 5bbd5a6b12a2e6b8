-- ===== src/WebApi/Delivery.antt =====
-- The way of a message from the web API's CreateMessage to the device of its recipient, by
-- syncIncomingPolling of the sync engine over the same database.
use mathlib.Core.List.{Mem}
use mathlib.Core.List.Perm
use posduif.Common.{
  ℕ, ◌≤◌, String, Bool, true, false, ◌==◌, ◌&&◌, ◌≡◌, refl, ap, ◌∙◌, sym, subst, List, some, [],
  ◌∷◌, ◌++◌, any, arith, select, All, length, take_all,
}
use posduif.Common.Sort.{order_by-perm}
use posduif.Models.{Message}
use posduif.Errors.{ok}
use posduif.Database.{Env, World, Tables}
use posduif.Database.Users.{has_device}
use posduif.Database.Messages.{is_pending_for, oldest_first, pending}
use posduif.Sync.Manager.{sync_incoming_polling}
use posduif.Sync.Manager.Wal.{Quiet}
use posduif.Sync.Manager.Polling.{HasUuids, is_in, polling_once, sync_incoming_polling-HandsOut}
use posduif.Api.{Request, reply}
use posduif.Api.Messages.{CreateMessageRequest}
use posduif.WebApi.Handlers.{handle_create_message}
use posduif.WebApi.Posting.{Posts, stored, refused, web_message-Posts}
use posduif.WebApi.Listing.{select_last, same_reply}

-- The row that stands behind an answer 201.
posted_row :
    (user : String) (body : CreateMessageRequest) (before : Tables) (m : Message) (w1 : World)
    → Posts user (some body) before (ok (reply 201 m), w1)
    → (w1.tables.messages ≡ before.messages ++ m ∷ []) × (m.status ≡ "pending_sync")
posted_row user body before m w1 (stored n b decoded p same new from to content status) =
    let e = same_reply m n p in
    (same ∙ ap (λ x. before.messages ++ x ∷ []) (sym e), ap (λ x. x.status) e ∙ status)
posted_row user body before m w1 (refused status s p same) = absurd (ground (arith, p))

both_hold :
    (a : Bool) (s : String) → a ≡ true → s ≡ "pending_sync" → (a && (s == "pending_sync")) ≡ true
both_hold a s h k = rw (h, k) refl

all_pending :
    (device : String) (limit : ℕ) (t : Tables)
    → length (oldest_first (select (is_pending_for t.users device) t.messages)) ≤ limit
    → pending device limit t ≡ oldest_first (select (is_pending_for t.users device) t.messages)
all_pending device limit t h = take_all limit _ h

last_pending :
    (device : String) (limit : ℕ) (t : Tables) (ms : List Message) (m : Message)
    → t.messages ≡ ms ++ m ∷ []
    → is_pending_for t.users device m ≡ true
    → length (oldest_first (select (is_pending_for t.users device) t.messages)) ≤ limit
    → Mem m (pending device limit t)
last_pending device limit t ms m same p h =
    let chosen = select_last (is_pending_for t.users device) ms m p in
    rw (all_pending device limit t h) (
      (Perm.mem_iff (order_by-perm _ _)).1
        (subst (λ x. Mem m (select (is_pending_for t.users device) x)) (sym same) chosen))

-- A message posted on the web reaches the phone, once. If CreateMessage of the web API answered
-- 201 with a message, and the recipient has the device in the table of users, then the next
-- syncIncomingPolling for the device, with a limit that is not smaller than the number of messages
-- due, against a working database whose message ids are UUIDs, succeeds with a batch that has this
-- very message in it; and after that call no batch, for any device and limit, has an id of that
-- batch.
pub post_then_poll :
    (env : Env) (r : Request) (body : CreateMessageRequest) (w w1 : World) (m : Message)
    (device other : String) (limit later : ℕ)
    → handle_create_message env r (some body) w ≡ (ok (reply 201 m), w1)
    → any (λ u. (u.id == m.recipient_id) && has_device device u) w1.tables.users ≡ true
    → length (oldest_first (select (is_pending_for w1.tables.users device) w1.tables.messages))
      ≤ limit
    → Quiet env
    → HasUuids env w1.tables.messages
    → let p = sync_incoming_polling env device limit w1 in
      (batch : List Message) × (p.0 ≡ ok batch)
      × Mem m batch
      × All (λ n. is_in batch n ≡ false) (pending other later p.1.tables)
post_then_poll env r body w w1 m device other limit later run owns enough quiet valid =
    let user = r.header "X-User-ID" in
    let posts =
      subst (Posts user (some body) w.tables) run (web_message-Posts env r (some body) w) in
    let row = posted_row user body w.tables m w1 posts in
    (
      pending device limit w1.tables,
      (sync_incoming_polling-HandsOut env device limit w1 quiet valid).result,
      last_pending device limit w1.tables w.tables.messages m row.0
          (both_hold _ m.status owns row.1) enough,
      polling_once env device other limit later w1 quiet valid,
    )
