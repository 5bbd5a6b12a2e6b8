-- ===== src/Api/Sync/Incoming.antt =====
-- handlers/sync.go: GetIncoming hands out the changes of the device's queue.
use posduif.Common.{
  ℕ, ◌<◌, true, false, ◌==◌, ◌≡◌, refl, ap, ◌∙◌, none, some, Option, List, map, take, drop, arith,
  All, inl, inr, ltb, Bool-cases, eq_refl,
}
use posduif.Models.{Message, SyncMetadata}
use posduif.Errors.{Result, ok}
use posduif.Database.{Env, World, query}
use posduif.Database
use posduif.Database.Metadata.{find_metadata}
use posduif.Database.Users.Search.{Order, get_users}
use posduif.Sync.Tracker.{is_newer, queue, to_message}
use posduif.Sync.Tracker.Queues.{Ascending}
use posduif.Sync.Manager.{sync_incoming, sync_incoming_wal}
use posduif.Sync.Manager.Batch.{IsWrite}
use posduif.Sync.Manager.Wal.{Answers, wal_lossless}
use posduif.Api.{Request, Response, reply}
use posduif.Api.Messages.{limit_or, atoi, positive_or}
use posduif.Api.Sync.{SyncIncomingResponse, no_filter, users_or_none, answer_incoming, get_incoming}

limit_positive : (o : Option ℕ) → 0 < positive_or 100 o
limit_positive none = omega arith
limit_positive (some n) = elim (Bool-cases (ltb 0 n)) [
  | inl e ↦ rw e (ground (arith, e))
  | inr e ↦ rw e (omega arith)
]

-- An answer with these messages, and the queues as they were.
pub record Sends (order : Order) (env : Env) (ms : List Message) (w : World)
    (p : Result (Response SyncIncomingResponse) × World) : Type 0 where
  pub instant : ℕ
  pub result :
      p.0
      ≡ ok (
          reply 200 (record {
            messages = ms;
            users = users_or_none (get_users order env no_filter w).0;
            compressed = false;
            sync_timestamp = instant;
          }))
  pub changes : p.1.changes ≡ w.changes

answered :
    (env : Env) (order : Order) (ms : List Message) (w : World)
    → Sends order env ms w (answer_incoming env order (ok ms) w)
unfolding answer_incoming get_users query Database.now
answered env order ms w = record {
  instant = env.time (get_users order env no_filter w).1.tick;
  result = refl;
  changes = ground arith;
}

get_incoming_lem :
    (env : Env) (order : Order) (r : Request) (ms : List Message) (w : World)
    → r.method ≡ "GET"
    → (r.header "X-Device-ID" == "") ≡ false
    → (sync_incoming_wal env (r.header "X-Device-ID") (limit_or 100 (r.parameter "limit")) w).0
      ≡ ok ms
    → get_incoming env order true r w
      ≡ answer_incoming env order
          (ok ms)
          (sync_incoming_wal env (r.header "X-Device-ID") (limit_or 100 (r.parameter "limit")) w).1
unfolding get_incoming sync_incoming
get_incoming_lem env order r ms w get named e = rw (get, named) (ground (arith, e))

-- A device's request is answered with its changes: with WAL, under the conditions under which
-- syncIncomingWAL loses nothing, GetIncoming answers 200 with the messages of the first changes
-- queued for the device of the header, as many as the positive limit of the query, or 100, and
-- leaves exactly the others queued, if the database answers the three statements of
-- syncIncomingWAL. The answer lists the users that the query after it finds, or none if that query
-- fails.
pub get_incoming_delivers :
    (env : Env) (order : Order) (r : Request) (sm : SyncMetadata) (w : World)
    → Answers env w
    → r.method ≡ "GET"
    → (r.header "X-Device-ID" == "") ≡ false
    → find_metadata (r.header "X-Device-ID") w.tables ≡ ok sm
    → All (λ c. is_newer sm.last_synced_lsn c ≡ true) (queue w.changes (r.header "X-Device-ID"))
    → All IsWrite (queue w.changes (r.header "X-Device-ID"))
    → Ascending (queue w.changes (r.header "X-Device-ID"))
    → (t : ℕ) × ((get_incoming env order true r w).0
        ≡ ok (
            reply 200 (record {
              messages = map to_message (
                  take
                    (limit_or 100 (r.parameter "limit"))
                    (queue w.changes (r.header "X-Device-ID")));
              users =
                  users_or_none
                    (get_users order env no_filter
                      (sync_incoming_wal env
                        (r.header "X-Device-ID")
                        (limit_or 100 (r.parameter "limit"))
                        w).1).0;
              compressed = false;
              sync_timestamp = t;
            })))
      × (queue (get_incoming env order true r w).1.changes (r.header "X-Device-ID")
          ≡ drop (limit_or 100 (r.parameter "limit")) (queue w.changes (r.header "X-Device-ID")))
get_incoming_delivers env order r sm w up get named found newer writes ascending =
    let device = r.header "X-Device-ID" in
    let limit = limit_or 100 (r.parameter "limit") in
    let (sent, left) =
      wal_lossless env device sm limit w (queue w.changes device) up found
        (limit_positive (atoi (r.parameter "limit"))) refl newer writes ascending in
    let run = get_incoming_lem env order r _ w get named sent in
    let a = answered env order _ (sync_incoming_wal env device limit w).1 in
    (
      a.instant,
      ap (λ p. p.0) run ∙ a.result,
      ap (λ p. queue p.1.changes device) run
          ∙ ap (λ q. queue q device) a.changes
          ∙ left device
          ∙ rw (eq_refl device),
    )
