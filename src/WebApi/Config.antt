-- ===== src/WebApi/Config.antt =====
-- web-api/internal/config/config.go: LoadConfig, with the YAML library as an argument, and the part
-- of fmt.Sscanf that reads a port.
pub mod Scanning
use Prim.Native.String.{[], ◌∷◌}
use posduif.Common.{
  ℕ, suc, code, String, Bool, true, false, ◌&&◌, ◌||◌, ◌==◌, ◌+◌, ◌*◌, ◌-◌, ◌^◌, nat_eq, ltb, leb,
  Option, none, some, if◌then◌else◌,
}
use posduif.Errors.{Result, ok, err, wrapped}

-- int; `negsuc n` is -(n + 1).
pub data ℤ : Type 0 where
  pos negsuc : ℕ → ℤ

pub record PostgresConfig : Type 0 where
  pub host : String
  pub port : ℤ
  pub user : String
  pub password : String
  pub db : String

pub record Config : Type 0 where
  pub port : ℤ
  pub postgres : PostgresConfig

abbrev pub is_digit : ℕ → Bool
is_digit c = leb b'0' c && leb c b'9'

-- isSpace of fmt
abbrev pub is_space : ℕ → Bool
is_space c =
    (leb 9 c && leb c 13)
    || nat_eq c 32
    || nat_eq c 133
    || nat_eq c 160
    || nat_eq c 5760
    || (leb 8192 c && leb c 8202)
    || nat_eq c 8232
    || nat_eq c 8233
    || nat_eq c 8239
    || nat_eq c 8287
    || nat_eq c 12288

-- ParseInt of the digits in front; scanNumber stops at the first other character.
unfoldable pub digits_value : ℕ → String → ℕ
digits_value n [] = n
digits_value n (c ∷ s) = if is_digit (code c) then digits_value (10 * n + (code c - b'0')) s else n

-- "expected integer", or the value of one digit or more
abbrev pub magnitude : String → Option ℕ
magnitude [] = none
magnitude (c ∷ s) = if is_digit (code c) then some (digits_value 0 (c ∷ s)) else none

-- The range of int64
abbrev positive : Option ℕ → Option ℤ
positive none = none
positive (some n) = if ltb n (2 ^ 63) then some (pos n) else none

abbrev negative : Option ℕ → Option ℤ
negative none = none
negative (some n) =
    if nat_eq n 0 then some (pos 0) else if leb n (2 ^ 63) then some (negsuc (n - 1)) else none

abbrev pub signed : String → Option ℤ
signed [] = none
signed (c ∷ s) =
    if nat_eq (code c) b'+'
    then positive (magnitude s)
    else if nat_eq (code c) b'-'
    then negative (magnitude s)
    else positive (magnitude (c ∷ s))

-- Sscanf(s, "%d", &n): white space, but no end of line, a sign and digits; what follows is not read.
unfoldable pub scan_int : String → Option ℤ
scan_int [] = none
scan_int (c ∷ s) =
    let rest = scan_int s in
    if nat_eq (code c) 10 then none else if is_space (code c) then rest else signed (c ∷ s)

-- if v := os.Getenv(…); v != "" { field = v }
abbrev pub text_from : String → String → String
text_from v field = if v == "" then field else v

abbrev pub scanned : ℤ → Option ℤ → ℤ
scanned field none = field
scanned field (some n) = n

-- if v := os.Getenv(…); v != "" { if _, err := fmt.Sscanf(…); err == nil { field = port } }
abbrev pub port_from : String → ℤ → ℤ
port_from v field = if v == "" then field else scanned field (scan_int v)

abbrev pub or_default : ℤ → ℤ
or_default (pos n) = if nat_eq n 0 then pos 8081 else pos n
or_default (negsuc n) = negsuc n

-- LoadConfig, from "Set defaults" on; `getenv` is os.Getenv.
unfoldable pub with_environment : (String → String) → Config → Config
with_environment getenv cfg = record {
  port = port_from (getenv "PORT") (or_default cfg.port);
  postgres = record {
    host = text_from (getenv "POSTGRES_HOST") cfg.postgres.host;
    port = port_from (getenv "POSTGRES_PORT") cfg.postgres.port;
    user = text_from (getenv "POSTGRES_USER") cfg.postgres.user;
    password = text_from (getenv "POSTGRES_PASSWORD") cfg.postgres.password;
    db = text_from (getenv "POSTGRES_DB") cfg.postgres.db;
  };
}

abbrev decoded : (String → String) → Result Config → Result Config
decoded getenv (err e) = err (wrapped "failed to parse config" e)
decoded getenv (ok cfg) = ok (with_environment getenv cfg)

-- LoadConfig, given os.Getenv, yaml.Unmarshal and what os.ReadFile returns
unfoldable pub load_config :
    (String → String) → (String → Result Config) → Result String → Result Config
load_config getenv unmarshal (err e) = err (wrapped "failed to read config file" e)
load_config getenv unmarshal (ok text) = decoded getenv (unmarshal text)
