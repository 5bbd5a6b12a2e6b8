-- ===== src/Api/Sse.antt =====
-- sync-engine/internal/api/sse/web.go and mobile.go: the streams of server-sent events. An event
-- stands as a value for the lines that Fprintf writes; the headers of the stream are left out.
-- main.go registers neither handler, so the paths are those that the handlers cut the ids from.
pub mod Loop
pub mod Starving
use posduif.Common.{
  ℕ, suc, String, Bool, not, ◌&&◌, ◌==◌, ltb, Option, none, some, List, [], ◌∷◌, ◌++◌, map,
  if◌then◌else◌,
}
use posduif.Models.{Message}
use posduif.Errors.{Result, ok, err}
use posduif.Database.{Env, M, pure, attempt, ◌>>=◌}
use posduif.Database.Messages.{get_unread_count, get_pending_messages_for_device}
use posduif.Api.{Request, Response, refuse, respond}
use posduif.Api.Messages.{after}

pub data SseEvent : Type 0 where
  connected : String → SseEvent
  ping : SseEvent
  new_message : ℕ → SseEvent
  message : String → SseEvent

-- What a round of the loop is woken by: the ticker, or time.After.
pub data Wake : Type 0 where
  tick timeout : Wake

-- The ids of the two paths: userID and deviceID
abbrev pub web_user_id : Request → String
web_user_id r = after 9 r.path

abbrev pub mobile_device_id : Request → String
mobile_device_id r = after 12 r.path

abbrev is_user : Option String → String → Bool
is_user none id = Bool.false
is_user (some user) id = user == id

-- Both handlers up to the loop; `can_flush` says whether the writer is an http.Flusher. The answer
-- is the first event of the stream.
unfoldable pub open_web : Bool → Request → M (Response SseEvent)
open_web can_flush r =
    if web_user_id r == ""
    then refuse 400 "User ID required"
    else if not (is_user r.user (web_user_id r))
    then refuse 401 "Unauthorized"
    else if not can_flush
    then refuse 500 "Streaming not supported"
    else respond 200 (connected (web_user_id r))

unfoldable pub open_mobile : Bool → Request → M (Response SseEvent)
open_mobile can_flush r =
    if mobile_device_id r == ""
    then refuse 400 "Device ID required"
    else if not (r.header "X-Device-ID" == mobile_device_id r)
    then refuse 400 "Device ID mismatch"
    else if not can_flush
    then refuse 500 "Streaming not supported"
    else respond 200 (connected (mobile_device_id r))

abbrev pub unread_event : Result ℕ → List SseEvent
unread_event (err e) = []
unread_event (ok n) = if ltb 0 n then new_message n ∷ [] else []

abbrev pub message_events : Result (List Message) → List SseEvent
message_events (err e) = []
message_events (ok ms) = map (λ m. message m.id) ms

module _ (env : Env) where
  -- A round of the loop of WebSSEHandler
  unfoldable pub web_round : String → Wake → M (List SseEvent)
  web_round user tick = pure (ping ∷ [])
  web_round user timeout = do n ← attempt (get_unread_count env user); pure (unread_event n)

  -- A round of the loop of MobileSSEHandler
  unfoldable pub mobile_round : String → Wake → M (List SseEvent)
  mobile_round device tick = pure (ping ∷ [])
  mobile_round device timeout = do
    ms ← attempt (get_pending_messages_for_device env device 10)
    pure (message_events ms)

  -- The rounds of a loop until the client is gone.
  unfoldable pub rounds : (Wake → M (List SseEvent)) → List Wake → M (List SseEvent)
  rounds round [] = pure []
  rounds round (w ∷ ws) = do events ← round w; more ← rounds round ws; pure (events ++ more)
