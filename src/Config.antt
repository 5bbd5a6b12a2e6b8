-- ===== src/Config.antt =====
-- sync-engine/internal/config/config.go: LoadConfig, with the YAML library as an argument.
pub mod Defaults
use posduif.Errors.{Result, ok, err, wrapped}
use posduif.Common.{ℕ, String, Bool, ◌==◌, nat_eq, List, [], ◌∷◌, if◌then◌else◌}

-- The fields of Config that LoadConfig looks at, by the path of their names, and those by which
-- main creates the replication slot.
pub record Config : Type 0 where
  pub postgres_db : String
  pub wal_enabled : Bool
  pub postgres_port : ℕ
  pub postgres_max_connections : ℕ
  pub redis_port : ℕ
  pub sse_port : ℕ
  pub sync_batch_size : ℕ
  pub wal_batch_size : ℕ
  pub wal_read_interval : String
  pub jwt_expiration : ℕ
  pub allowed_methods : List String
  pub allowed_headers : List String

abbrev pub or_number : ℕ → ℕ → ℕ
or_number default n = if nat_eq n 0 then default else n

abbrev pub or_text : String → String → String
or_text default s = if s == "" then default else s

abbrev pub or_list : List String → List String → List String
or_list default [] = default
or_list default (s ∷ strs) = s ∷ strs

-- LoadConfig, from "Set defaults" on
unfoldable pub with_defaults : Config → Config
with_defaults c = record {
  postgres_db = c.postgres_db;
  wal_enabled = c.wal_enabled;
  postgres_port = or_number 5432 c.postgres_port;
  postgres_max_connections = or_number 25 c.postgres_max_connections;
  redis_port = or_number 6379 c.redis_port;
  sse_port = or_number 8080 c.sse_port;
  sync_batch_size = or_number 100 c.sync_batch_size;
  wal_batch_size = or_number 100 c.wal_batch_size;
  wal_read_interval = or_text "1s" c.wal_read_interval;
  jwt_expiration = or_number 3600 c.jwt_expiration;
  allowed_methods = or_list ("GET" ∷ "POST" ∷ "PUT" ∷ "DELETE" ∷ "OPTIONS" ∷ []) c.allowed_methods;
  allowed_headers =
      or_list ("Content-Type" ∷ "Authorization" ∷ "X-Device-ID" ∷ []) c.allowed_headers;
}

abbrev decoded : (String → Result Config) → Result String → Result Config
decoded unmarshal (err e) = err (wrapped "failed to read config file" e)
decoded unmarshal (ok text) = elim (unmarshal text) [
  | err e ↦ err (wrapped "failed to parse config file" e)
  | ok c ↦ ok (with_defaults c)
]

-- LoadConfig, given yaml.Unmarshal and what os.ReadFile returns
unfoldable pub load_config : (String → Result Config) → Result String → Result Config
load_config unmarshal file = decoded unmarshal file
