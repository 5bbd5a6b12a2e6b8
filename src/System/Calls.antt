-- ===== src/System/Calls.antt =====
-- The calls of both servers that can write, in any order, and what a run of them keeps. The other
-- handlers only query: ListMessages, GetUnreadCount, GetMessage, ListUsers, GetUser,
-- GetEnrollment, the sync engine's Login, and the lists of the web API.
use posduif.Common.{String, Bool, Option, List, [], ◌∷◌}
use posduif.Models.{Message, WalChange}
use posduif.Database.{Env, World}
use posduif.Database.Users.Search.{Order}
use posduif.Enrollment.{CompleteEnrollmentRequest}
use posduif.Sync.Tracker.{add_change}
use posduif.Sync.Manager.{perform_sync}
use posduif.Api.{Request}
use posduif.Api.Messages.{CreateMessageRequest, handle_create_message, mark_as_read}
use posduif.Api.Enrollments.{handle_create_enrollment, handle_complete_enrollment}
use posduif.Api.Sync.{get_incoming, upload_outgoing, get_sync_status}
use posduif.WebApi.Handlers.{login, handle_create_message as handle_web_message}
use posduif.System.Actions.{TableOrder}
use posduif.System.Queries.{Respects}
use posduif.System.Syncing.{perform_sync-Within, add_change-Within}
use posduif.System.Handlers.{
  handle_create_message-Within, mark_as_read-Within, upload_outgoing-Within,
}
use posduif.System.Enrolling.{
  handle_create_enrollment-Within, handle_complete_enrollment-Within, get_sync_status-Within,
  get_incoming-Within,
}
use posduif.System.WebHandlers.{
  login-Within, handle_create_message-Within as handle_web_message-Within,
}
use posduif.System.Uses.{Uses, uses, uses-Respects}
use posduif.System.History.{Extends, history}
use posduif.System.History.Statements.{history-Respects}

-- The arguments are those of the handlers: a request, with its decoded body where it has one.
pub data Call : Type 0 where
  send : Request → Option CreateMessageRequest → Call
  read : Request → Call
  upload : Request → Option (List Message) → Call
  incoming : Order → Bool → Request → Call
  status : Request → Call
  invite : String → String → Request → Call
  enroll : Request → Option CompleteEnrollmentRequest → Call
  sync : Bool → String → Call
  change : WalChange → Call
  web_login : Request → Option String → Call
  web_send : Request → Option CreateMessageRequest → Call

module _ (env : Env) where
  -- The world after a call.
  unfoldable pub perform : Call → World → World
  perform (send q body) w = (handle_create_message env q body w).1
  perform (read q) w = (mark_as_read env q w).1
  perform (upload q body) w = (upload_outgoing env q body w).1
  perform (incoming order wal_enabled q) w = (get_incoming env order wal_enabled q w).1
  perform (status q) w = (get_sync_status env q w).1
  perform (invite db port q) w = (handle_create_enrollment env db port q w).1
  perform (enroll q body) w = (handle_complete_enrollment env q body w).1
  perform (sync wal_enabled device) w = (perform_sync env wal_enabled device w).1
  perform (change c) w = (add_change env c w).1
  perform (web_login q body) w = (login env q body w).1
  perform (web_send q body) w = (handle_web_message env q body w).1

  unfoldable pub run : List Call → World → World
  run [] w = w
  run (c ∷ cs) w = run cs (perform c w)

  module _ (o : TableOrder) (r : Respects env o) where
    perform-R : (c : Call) (w : World) → o.R w.tables (perform c w).tables
    unfolding perform
    perform-R (send q body) w = (handle_create_message-Within env o r q body).at w
    perform-R (read q) w = (mark_as_read-Within env o r q).at w
    perform-R (upload q body) w = (upload_outgoing-Within env o r q body).at w
    perform-R (incoming order wal_enabled q) w =
        (get_incoming-Within env o r order wal_enabled q).at w
    perform-R (status q) w = (get_sync_status-Within env o r q).at w
    perform-R (invite db port q) w = (handle_create_enrollment-Within env o r db port q).at w
    perform-R (enroll q body) w = (handle_complete_enrollment-Within env o r q body).at w
    perform-R (sync wal_enabled device) w = (perform_sync-Within env o r wal_enabled device).at w
    perform-R (change c) w = (add_change-Within env o r c).at w
    perform-R (web_login q body) w = (login-Within env o r q body).at w
    perform-R (web_send q body) w = (handle_web_message-Within env o r q body).at w

    pub run-R : (cs : List Call) (w : World) → o.R w.tables (run cs w).tables
    unfolding run
    run-R [] w = o.same w.tables
    run-R (c ∷ cs) w =
        o.chain w.tables (perform c w).tables _ (perform-R c w) (run-R cs (perform c w))

-- Nothing is lost: whatever calls of the two servers and of the background code follow each other,
-- and whatever fails in them, the tables afterwards begin with the rows of before, in their order:
-- each message with its id, sender, recipient, content and creation time, each user with its id
-- and creation time, each enrollment token with its id, text, creator, tenant and expiry, and each
-- row of sync_metadata with its id, device and creation time.
pub run-Extends : (env : Env) (cs : List Call) (w : World) → Extends w.tables (run env cs w).tables
run-Extends env cs w = run-R env history (history-Respects env) cs w

-- An enrollment token is used once, and in time: whatever calls of the two servers and of the
-- background code follow each other, and whatever fails in them, each token of before is there
-- afterwards, in its place and with its text and expiry, and either its use is as before, with the
-- time and the device if it was used, or it was unused and is now used by a device, at a time
-- before its expiry.
pub run-Uses :
    (env : Env) (cs : List Call) (w : World) → Uses w.tables.tokens (run env cs w).tables.tokens
run-Uses env cs w = run-R env uses (uses-Respects env) cs w
