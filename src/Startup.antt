-- ===== src/Startup.antt =====
-- sync-engine/cmd/sync-engine/main.go: the start of the process up to the server's listening, and
-- its end. log.Fatalf is a result of its own; what is deferred does not run after it. NewDB of
-- sync-engine/internal/database/postgres.go and NewClient of sync-engine/internal/redis/client.go
-- are modelled by what the drivers answer. The health check and the log are left out.
pub mod Again
use posduif.Common.{String, Bool, true, false, Option, none, some, if◌then◌else◌}
use posduif.Errors.{Error, wrapped, Result, ok, err}
use posduif.Config.{Config, load_config}
use posduif.Database.{Env}
use posduif.Database.Migrations.{Catalog, run_migrations}
use posduif.Database.Slots.Server.{Server, create_replication_slot}
use posduif.Sync.WalService.{
  WalService, Outcome, returned, failed, panicked, new_service, start, stop,
}

-- What the process finds: the file, and the answers of the YAML library and the drivers.
pub record Site : Type 0 where
  pub file : Result String
  pub unmarshal : String → Result Config
  pub parse_dsn : Config → Result (Unit {0})
  pub new_pool : Result (Unit {0})
  pub ping : Result (Unit {0})
  pub ping_redis : Result (Unit {0})

-- The parts of the database server that a start changes.
pub record Machine : Type 0 where
  pub catalog : Catalog
  pub server : Server

pub data Started : Type 0 where
  fatal : String → Error → Started
  crashed : Started
  serving : Option WalService → Started

abbrev labelled : String → Result (Unit {0}) → Result (Unit {0})
labelled what (ok _) = ok tt
labelled what (err e) = err (wrapped what e)

abbrev and_then : Result (Unit {0}) → Result (Unit {0}) → Result (Unit {0})
and_then (ok _) next = next
and_then (err e) next = err e

-- NewDB
unfoldable pub new_db : Site → Config → Result (Unit {0})
new_db site cfg = and_then (labelled "failed to parse database config" (site.parse_dsn cfg)) (
    and_then (labelled "failed to create connection pool" site.new_pool)
      (labelled "failed to ping database" site.ping))

-- NewClient
unfoldable pub new_client : Site → Result (Unit {0})
new_client site = labelled "failed to connect to Redis" site.ping_redis

abbrev pub serviced : Result String × Server → Result WalService × Server
serviced (ok name, s) = (ok new_service, s)
serviced (err e, s) = (err (wrapped "failed to create replication slot" e), s)

abbrev begun : Outcome → Started
begun (returned ws) = serving (some ws)
begun (failed ws e) = fatal "Failed to start WAL service" e
begun panicked = crashed

abbrev pub with_service : Result WalService × Server → Started × Server
with_service (ok ws, s) = (begun (start ws), s)
with_service (err e, s) = (fatal "Failed to create WAL service" e, s)

module _ (env : Env) where
  -- NewWALService, which creates the slot once more
  unfoldable pub new_wal_service : String → Server → Result WalService × Server
  new_wal_service db s = serviced (create_replication_slot env db s)

  abbrev pub with_slot : String → Result String × Server → Started × Server
  with_slot db (ok name, s) = with_service (new_wal_service db s)
  with_slot db (err e, s) = (fatal "Failed to create replication slot" e, s)

  -- "Initialize WAL components if enabled"
  unfoldable pub wal_components : Config → Server → Started × Server
  wal_components cfg s =
      if cfg.wal_enabled
      then with_slot cfg.postgres_db (create_replication_slot env cfg.postgres_db s)
      else (serving none, s)

  abbrev pub with_redis : Config → Result (Unit {0}) → Server → Started × Server
  with_redis cfg (ok _) s = wal_components cfg s
  with_redis cfg (err e) s = (fatal "Failed to connect to Redis" e, s)

  abbrev pub on : Catalog → Started × Server → Started × Machine
  on c (r, s) = (r, record { catalog = c; server = s })

  abbrev pub migrated : Site → Config → Server → Result (Unit {0}) × Catalog → Started × Machine
  migrated site cfg s (ok _, c) = on c (with_redis cfg (new_client site) s)
  migrated site cfg s (err e, c) = on c (fatal "Failed to run migrations" e, s)

  abbrev pub with_db : Site → Config → Result (Unit {0}) → Machine → Started × Machine
  with_db site cfg (ok _) m = migrated site cfg m.server (run_migrations env m.catalog)
  with_db site cfg (err e) m = (fatal "Failed to connect to database" e, m)

  abbrev pub with_config : Site → Result Config → Machine → Started × Machine
  with_config site (ok cfg) m = with_db site cfg (new_db site cfg) m
  with_config site (err e) m = (fatal "Failed to load config" e, m)

  -- main, up to "Start server"
  unfoldable pub start_up : Site → Machine → Started × Machine
  start_up site m = with_config site (load_config site.unmarshal site.file) m

pub data Ended : Type 0 where
  forced : Error → Option WalService → Ended
  panics : Ended
  exited : Option WalService → Ended

abbrev stopped : Outcome → Ended
stopped (returned ws) = exited (some ws)
stopped (failed ws e) = exited (some ws)
stopped panicked = panics

abbrev deferred : Option WalService → Ended
deferred none = exited none
deferred (some ws) = stopped (stop ws)

-- main, from the signal on, given what srv.Shutdown returns
unfoldable pub shut_down : Option WalService → Result (Unit {0}) → Ended
shut_down service (err e) = forced e service
shut_down service (ok _) = deferred service
