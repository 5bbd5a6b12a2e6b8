-- ===== src/Lib.antt =====
-- The two servers of posduif, the sync engine and the web API: messages between web users and
-- phones, through one PostgreSQL database per tenant. A phone is a device; it enrolls with a
-- token, uploads its messages and fetches those for its user, either from queues that are fed by
-- the write-ahead log or by a query on pending messages.
--
-- Parts, and the files that model them:
-- - Models: the rows and values (sync-engine/internal/models). Models/Lsn: LSN.String and
--   ParseLSN (sync-engine/internal/models/lsn.go) as `string` and `parse`.
-- - Errors: Go's error values; a call that returns (value, error) gives a Result.
-- - Database: the connection (sync-engine/internal/database/postgres.go) as a state monad over
--   the tables, the queues of the tracker and a counter of interactions. Database/Schema:
--   constraints and triggers of config/database-init.sql. Database/Users, Database/Messages,
--   Database/Tokens and Database/Metadata: one function per method of
--   sync-engine/internal/database/queries.go, in snake_case (CreateMessage is create_message),
--   each statement a function on the tables.
-- - Sync/Tracker: sync-engine/internal/sync/change_tracker.go (AddChange is add_change, the two
--   searches for devices are get_devices). Sync/Manager: sync-engine/internal/sync/manager.go.
--   Sync/WalReader: sync-engine/internal/sync/wal_reader.go, on lists of bytes. Sync/WalService:
--   sync-engine/internal/sync/wal_service.go, as a step relation.
-- - Enrollment: sync-engine/internal/enrollment/service.go. Api: the decoded requests and answers
--   of sync-engine/internal/api; Api/Auth, Api/Messages, Api/Enrollments and Api/Sync: its
--   handlers and the auth middleware, Api/Cors: the CORS middleware (the handlers that share a
--   name with a query are handle_create_message and so on). Api/Router: the routes of
--   sync-engine/cmd/sync-engine/main.go. Api/Users: sync-engine/internal/api/handlers/users.go,
--   on Database/Users/Search (GetUsers). Api/Sse: the streams of sync-engine/internal/api/sse,
--   with their select as a step relation.
-- - Sync/Feed: the tracker and the manager together: an abstract queue per device (`serve`), and
--   runs of AddChange and syncIncomingWAL in any order.
-- - Startup: the start and the end of sync-engine/cmd/sync-engine/main.go, with NewDB, NewClient
--   and NewWALService. Config: LoadConfig of sync-engine/internal/config/config.go.
--   Database/Slots: slot names and slots of sync-engine/internal/database/replication.go.
--   Database/Migrations: sync-engine/internal/database/migrations.go.
-- - WebApi: web-api, with WebApi/Queries for web-api/internal/database/queries.go,
--   WebApi/Handlers for web-api/internal/api/handlers, and WebApi/Routes for
--   web-api/cmd/web-api/main.go and web-api/internal/api/middleware/cors.go. WebApi/Config:
--   web-api/internal/config/config.go. WebApi/Delivery: messages on their way from the web to a
--   phone, through the manager of the sync engine.
-- - System: all calls of both servers over one database (System/Calls), and the interface
--   (System/Queries: Respects) by which a relation on tables that every SQL statement respects
--   holds along every run. System/History and System/Uses are two such relations: rows that only
--   grow, and the uses of enrollment tokens.
-- - Tests: a sample tenant, on which the theorems with hypotheses are applied.
--
-- The manager calls the tracker and the queries, the tracker calls the queries, and the reader
-- hands its changes to AddChange. Each call is a function from the world before to the result and
-- the world after.
--
-- What is outside the repository is a field of Env: the clock, fresh UUIDs, failures of the
-- connection (at any interaction, by its number), the texts of PostgreSQL's refusals, what it
-- takes for a UUID, what a TIMESTAMP column keeps of an instant of the program, and whether a
-- Commit took effect whose answer was lost. A failed statement has no effect. A transaction
-- (Database: Tx) has its own tables, which its statements see and change; a statement on the pool
-- in its body would change the tables outside. A theorem that needs a working database says so by
-- the hypothesis Quiet, or names the statements that must be answered.
--
-- Bounds: numbers are natural numbers. An LSN is below 2 ^ 64; time stamps are nanoseconds since
-- Go's zero time. to_hex runs on 15 rounds after the first, enough for any value below 16 ^ 16,
-- and it is given values below 2 ^ 32. All other loops are structural recursion.
--
-- Not modelled: limits of VARCHAR columns, the type check of pg_lsn and the rounding of timestamps
-- to microseconds; the zone of times other than the expiry of a token (they hold as in UTC); other
-- clients of the database between the statements of a call; the spelling in which PostgreSQL
-- prints a pg_lsn; JSON and YAML, Redis, gzip, log output and the replication connection; the
-- text of server-sent events; the start and the shutdown of the web API. JWT is a parameter of
-- Api/Auth, PostgreSQL's collation and ILIKE are arguments of the queries that sort or match
-- names.
pub mod Common
pub mod Models
pub mod Errors
pub mod Database
pub mod Startup
pub mod Sync
pub mod Enrollment
pub mod Config
pub mod Api
pub mod WebApi
pub mod System
pub mod Tests
