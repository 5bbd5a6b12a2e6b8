-- ===== src/Tests/System.antt =====
-- The theorems on both servers together, on the migrations and on the start of the process, at sample values.
use posduif.Common.{
  ℕ, zero, suc, String, true, false, ◌==◌, ◌≡◌, ◌≢◌, refl, none, some, List, [], ◌∷◌, arith, All,
  nat_eq, select, map, take, drop, if◌then◌else◌,
}
use mathlib.Core.List.{Perm}
use posduif.Common.Dict.{lookup}
use posduif.Models.{User}
use posduif.Errors.{ok}
use posduif.Database.{Env}
use posduif.Database.Metadata.{find_metadata}
use posduif.Database.Users.Search.{Order, is_wanted, OnlineFirst}
use posduif.Database.Migrations.{Catalog, run_migrations}
use posduif.Database.Migrations.Reruns.{rerun_completes}
use posduif.Database.Slots.{slot_name, underscored, append}
use posduif.Database.Slots.Server.{Server, is_slot_name}
use posduif.Config.{Config, with_defaults, load_config}
use posduif.Startup.{Site, new_db, new_client, start_up}
use posduif.Startup.Again.{Serves, start_up_again}
use posduif.Sync.Tracker.{is_newer, queue, to_message}
use posduif.Api.{Request, reply}
use posduif.Api.Sync.{get_incoming, no_filter, users_or_none}
use posduif.Sync.Manager.{sync_incoming_wal}
use posduif.Database.Users.Search.{get_users}
use posduif.Api.Sync.Incoming.{get_incoming_delivers}
use posduif.Api.Users.{filter_of, list_users}
use posduif.Api.Users.Excluding.{list_users_for_device}
use posduif.System.History.{Extends}
use posduif.System.Uses.{Uses}
use posduif.System.Calls.{
  Call, web_login, web_send, read, incoming, sync, change, enroll, run, run-Extends, run-Uses,
}
use posduif.Tests.{env, bob, progress, insert_of, world}

abbrev plain : Order
plain = record { before = λ a b. false; ilike = λ name pattern. true }

abbrev of_device : String → Request
of_device d = record {
  method = "GET";
  path = "";
  header = λ name. if name == "X-Device-ID" then d else "";
  parameter = λ name. "";
  user = none;
}

abbrev of_web : String → Request
of_web user = record {
  method = "POST";
  path = "/api/messages/m1/read";
  header = λ name. if name == "X-User-ID" then user else "";
  parameter = λ name. "";
  user = some user;
}

-- dora logs in and writes, a change arrives, bob's device fetches and syncs, a message is read.
abbrev calls : List Call
calls =
    web_login (of_web "") (some "dora")
    ∷ web_send (of_web "carol") (some (record { recipient_id = "bob"; content = "hi" }))
    ∷ change (insert_of 30 "alice" "bob")
    ∷ incoming plain true (of_device "phone-b")
    ∷ sync false "phone-b"
    ∷ read (record (of_web "bob") { method = "PUT" })
    ∷ []

-- A phone enrolls with the token, and another tries the same.
abbrev redeems : List Call
redeems =
    enroll (of_web "")
      (some (record { token = "secret"; device_id = "phone-d"; username = "dave" }))
    ∷ enroll (of_web "")
        (some (record { token = "secret"; device_id = "phone-e"; username = "eve" }))
    ∷ []

run-Extends_example : Extends world.tables (run env calls world).tables
run-Extends_example = run-Extends env calls world

run-Uses_example : Uses world.tables.tokens (run env redeems world).tables.tokens
run-Uses_example = run-Uses env redeems world

-- The query on users fails, which is the one after the statements of the sync.
abbrev no_users : Env
no_users = record env { fault = λ t. if nat_eq t 5 then some "connection reset" else none }

get_incoming_delivers_example :
    (t : ℕ) × ((get_incoming no_users plain true (of_device "phone-b") world).0
      ≡ ok (
          reply 200 (record {
            messages = map to_message (take 100 (queue world.changes "phone-b"));
            users =
                users_or_none
                  (get_users plain no_users no_filter
                    (sync_incoming_wal no_users "phone-b" 100 world).1).0;
            compressed = false;
            sync_timestamp = t;
          })))
    × (queue (get_incoming no_users plain true (of_device "phone-b") world).1.changes "phone-b"
        ≡ drop 100 (queue world.changes "phone-b"))
unfolding find_metadata is_newer lookup
get_incoming_delivers_example =
    get_incoming_delivers no_users plain (of_device "phone-b") progress world
      (record { reads = refl; reads_again = refl; writes = refl }) refl refl refl (refl, (refl, tt))
      (refl, (refl, tt)) ((omega arith, tt), (tt, tt))

list_users_for_device_example :
    (us : List User) × ((list_users env plain (of_device "phone-b") world).0 ≡ ok (reply 200 us))
    × Perm us (select (is_wanted plain (filter_of (of_device "phone-b") "bob")) world.tables.users)
    × OnlineFirst us
    × All (λ v. v.id ≢ "bob") us
list_users_for_device_example =
    list_users_for_device env plain (of_device "phone-b") bob world (λ t. refl) refl refl refl refl
      refl refl

-- A connection that is lost at the second statement.
abbrev cut : Env
cut = record env { fault = λ t. elim t [ zero ↦ none | suc n ↦ some "connection reset" ] }

abbrev bare : Catalog
bare = record { lsn_column = false; lsn_index = false; tick = 0 }

rerun_completes_example :
    ((run_migrations env (run_migrations cut bare).1).0 ≡ ok tt)
    × ((run_migrations env (run_migrations cut bare).1).1.lsn_column ≡ true)
    × ((run_migrations env (run_migrations cut bare).1).1.lsn_index ≡ true)
rerun_completes_example = rerun_completes cut env bare (λ h. h) (λ t. refl)

abbrev server : Server
server = record { slots = []; position = λ t. "0/0000001A"; tick = 0 }

abbrev settings : Config
settings = record {
  postgres_db = "acme-eu";
  wal_enabled = true;
  postgres_port = 0;
  postgres_max_connections = 0;
  redis_port = 0;
  sse_port = 0;
  sync_batch_size = 0;
  wal_batch_size = 0;
  wal_read_interval = "";
  jwt_expiration = 0;
  allowed_methods = [];
  allowed_headers = [];
}

abbrev site : Site
site = record {
  file = ok "postgres: …";
  unmarshal = λ text. ok settings;
  parse_dsn = λ c. ok tt;
  new_pool = ok tt;
  ping = ok tt;
  ping_redis = ok tt;
}

-- First a connection that breaks in the second migration, then a start that meets nothing.
start_up_again_example :
    Serves
      (with_defaults settings)
      (start_up env site (start_up cut site (record { catalog = bare; server = server })).1)
unfolding load_config new_db new_client is_slot_name slot_name append underscored with_defaults
start_up_again_example =
    start_up_again cut env site site (with_defaults settings)
      (record { catalog = bare; server = server }) (λ h. h, tt) (λ t. refl)
      (record { config = refl; database = refl; redis = refl; slot = refl })
