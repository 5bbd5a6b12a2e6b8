-- ===== src/Tests/WebApi.antt =====
-- The theorems on the web API, on the sample tenant.
use mathlib.Core.List.{Perm, Mem}
use posduif.Common.{
  ◌⊎◌, ◌≤◌, String, false, ◌==◌, ◌≡◌, refl, none, some, List, [], ◌∷◌, ◌++◌, arith, inr, length,
  select, All, if◌then◌else◌,
}
use posduif.Models.{User, Message}
use posduif.Errors
use posduif.Errors.{ok}
use posduif.Database
use posduif.Database.{World, advance, exec, query, new_uuid}
use posduif.Common.Sort.{Ordered, insert_by, order_by}
use posduif.Database.Messages.{insert_message, pending}
use posduif.Database.Users.{set_users, find_user}
use posduif.Api.{Request, reply}
use posduif.Api.Messages.{CreateMessageRequest, limit_or}
use posduif.WebApi.Queries.{
  get_user_by_username, get_user_by_id, create_message, create_user, insert_or_touch, web_user,
  get_messages, fill_message, after_insert, remember_last, update_user,
}
use posduif.WebApi.Handlers.{
  login, logged_in, registered, is_connection_error, handle_create_message, list_messages,
  get_available_web_users, post,
}
use posduif.WebApi.Login.{LogsIn, login-LogsIn, login_again, login_registers}
use posduif.WebApi.Posting.{Posts, web_message-Posts}
use posduif.WebApi.Listing.{list_messages_own, post_then_list, available_web_users-perm}
use posduif.WebApi.Delivery.{post_then_poll}
use posduif.Sync.Manager.{sync_incoming_polling}
use posduif.Sync.Manager.Polling.{is_in}
use posduif.Tests.{env, world, hello}

abbrev ask : String → String → Request
ask method user = record {
  method = method;
  path = "";
  header = λ name. if name == "X-User-ID" then user else "";
  parameter = λ name. "";
  user = none;
}

login-LogsIn_example : LogsIn "dora" world.tables (login env (ask "POST" "") (some "dora") world)
login-LogsIn_example = login-LogsIn env (ask "POST" "") "dora" world refl

login_again_example :
    login env (ask "POST" "") (some "dora") (login env (ask "POST" "") (some "dora") world).1 ≡ (
      ok (reply 200 (record { user_id = "3f0e"; username = "dora"; user_type = "web" })),
      advance (login env (ask "POST" "") (some "dora") world).1,
    )
unfolding login logged_in registered is_connection_error Errors.text get_user_by_username query
    create_user new_uuid Database.now exec insert_or_touch
login_again_example =
    login_again env (ask "POST" "") "dora" world
      (record { user_id = "3f0e"; username = "dora"; user_type = "web" }) refl refl refl

login_registers_example : login env (ask "POST" "") (some "dora") world ≡ (
  ok (reply 200 (record { user_id = "3f0e"; username = "dora"; user_type = "web" })),
  record world {
    tables = record world.tables { users = world.tables.users ++ web_user "3f0e" "dora" 1002 ∷ [] };
    tick = 4;
  },
)
login_registers_example =
    login_registers env (ask "POST" "") "dora" world refl (λ t. refl) refl refl refl

abbrev body : CreateMessageRequest
body = record { recipient_id = "bob"; content = "again" }

web_message-Posts_example :
    Posts "carol"
      (some body)
      world.tables
      (handle_create_message env (ask "POST" "carol") (some body) world)
web_message-Posts_example = web_message-Posts env (ask "POST" "carol") (some body) world

abbrev again : Message
again = record {
  id = "3f0e";
  sender_id = "carol";
  recipient_id = "bob";
  content = "again";
  status = "pending_sync";
  created_at = 1001;
  updated_at = 1001;
  synced_at = none;
  read_at = none;
}

abbrev posted : World
posted = (handle_create_message env (ask "POST" "carol") (some body) world).1

post_then_list_example :
    (ms : List Message) × (list_messages env (ask "GET" "bob") posted
      ≡ (ok (reply 200 ms), advance posted))
    × Mem again ms
unfolding handle_create_message post create_message fill_message after_insert remember_last
    update_user set_users find_user get_user_by_id query exec insert_message new_uuid Database.now
    insert_by order_by
post_then_list_example =
    post_then_list env (ask "POST" "carol") (ask "GET" "bob") body world posted again refl refl
      (inr refl) refl refl refl refl (omega arith)

-- carol posts on the web, and bob's phone asks for messages.
post_then_poll_example :
    (batch : List Message) × ((sync_incoming_polling env "phone-b" 5 posted).0 ≡ ok batch)
    × Mem again batch
    × All
        (λ n. is_in batch n ≡ false)
        (pending "phone-b" 9 (sync_incoming_polling env "phone-b" 5 posted).1.tables)
unfolding handle_create_message post create_message fill_message after_insert remember_last
    update_user set_users find_user get_user_by_id query exec insert_message new_uuid Database.now
    insert_by order_by
post_then_poll_example =
    post_then_poll env (ask "POST" "carol") body world posted again "phone-b" "phone-b" 5 9 refl
      refl (omega arith) (λ t. refl) (refl, (refl, tt))

list_messages_own_example :
    All (λ m. (m.sender_id ≡ "bob") ⊎ (m.recipient_id ≡ "bob")) (hello ∷ [])
    × (length (hello ∷ []) ≤ limit_or 50 "")
    × Ordered (λ m n. n.created_at ≤ m.created_at) (hello ∷ [])
unfolding list_messages get_messages query insert_by order_by
list_messages_own_example =
    list_messages_own env (ask "GET" "bob") world 200 (hello ∷ []) refl refl refl refl

available_web_users-perm_example :
    (us : List User) × (get_available_web_users env (λ a b. false) (ask "GET" "") world
      ≡ (ok (reply 200 us), advance world))
    × Perm us (select (λ u. u.user_type == "web") world.tables.users)
available_web_users-perm_example =
    available_web_users-perm env (λ a b. false) (ask "GET" "") world refl refl
