-- ===== src/Errors.antt =====
-- Go's error values as the sync engine makes and tests them: pgx.ErrNoRows, an error of the
-- driver or of PostgreSQL, fmt.Errorf with and without %w.
use posduif.Common.{String, Bool, true, false}
use Prim.Native.String.{◌++◌}

-- What PostgreSQL refuses by the schema of config/database-init.sql.
pub data Violation : Type 0 where
  unique_key foreign_key check invalid_text : Violation

pub data Error : Type 0 where
  no_rows : Error
  driver : String → Error
  refused : Violation → Error
  message : String → Error
  wrapped : String → Error → Error

pub data Result (A : Type 0) : Type 0 where
  ok : A → Result A
  err : Error → Result A

-- err.Error(); the texts of PostgreSQL are a parameter. %w is always last, after ": ".
unfoldable pub text : (Violation → String) → Error → String
text texts no_rows = "no rows in result set"
text texts (driver s) = s
text texts (refused v) = texts v
text texts (message s) = s
text texts (wrapped s e) = s ++ (": " ++ text texts e)

-- errors.Is(err, pgx.ErrNoRows), and err == pgx.ErrNoRows where nothing wraps the error.
abbrev pub is_no_rows : Error → Bool
is_no_rows no_rows = true
is_no_rows _ = false
