-- ===== src/Enrollment/Errors.antt =====
-- service.go: the search for the token.
use posduif.Common.{String, ◌≡◌, arith}
use posduif.Database.{Env, World, query, advance}
use posduif.Database.Tokens.{get_enrollment_token}

pub get_enrollment_token_lem :
    (env : Env) (token : String) (w : World)
    → get_enrollment_token env token w ≡ ((get_enrollment_token env token w).0, advance w)
unfolding get_enrollment_token query
get_enrollment_token_lem env token w = ground arith
