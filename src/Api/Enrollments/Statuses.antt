-- ===== src/Api/Enrollments/Statuses.antt =====
-- handlers/enrollment.go: the answers to a token that is used up or expired.
use posduif.Common.{suc, String, true, false, ◌==◌, ◌≡◌, refl, ap, none, some, arith, any}
use posduif.Models.{EnrollmentToken}
use posduif.Errors.{Error, Result, ok, err, message, wrapped}
use posduif.Errors
use posduif.Database.{Env, World, query, tx_exec, transaction, advance}
use posduif.Database.Tokens.{
  is_usable, use_token, find_token, get_enrollment_token, enrollment_body, complete_enrollment,
}
use posduif.Database.Tokens.Body.{no_usable}
use posduif.Enrollment.{CompleteEnrollmentRequest, enroll_named, complete}
use posduif.Api.{Request, failure}
use posduif.Api.Enrollments.{has_prefix, contains_text, status_of, handle_complete_enrollment}

abbrev spent_error : Error
spent_error =
    wrapped "failed to complete enrollment" (message "enrollment token not found or already used")

database_refuses :
    (env : Env) (token device username : String) (w : World)
    → env.fault w.tick ≡ none
    → env.fault (suc w.tick) ≡ none
    → env.is_uuid token ≡ true
    → any (is_usable (env.time w.tick) token) w.tables.tokens ≡ false
    → (complete_enrollment env token device username w).0
      ≡ err (message "enrollment token not found or already used")
unfolding complete_enrollment transaction enrollment_body tx_exec use_token
database_refuses env token device username w up up' valid spent =
    ground (arith, no_usable (env.time w.tick) token w.tables.tokens spent)

status_of_spent :
    (texts : Errors.Violation → String) (w : World)
    → status_of (Errors.text texts spent_error) w
      ≡ (ok (failure 404 "Enrollment token not found or expired"), w)
unfolding status_of contains_text has_prefix Errors.text
status_of_spent texts w = refl

service_refuses :
    (env : Env) (req : CompleteEnrollmentRequest) (et : EnrollmentToken) (w : World)
    → (req.username == "") ≡ false
    → env.fault w.tick ≡ none
    → find_token env req.token w.tables ≡ ok et
    → (complete_enrollment env req.token req.device_id req.username (advance w)).0
      ≡ err (message "enrollment token not found or already used")
    → (complete env req w).0 ≡ err spent_error
unfolding complete get_enrollment_token query enroll_named
service_refuses env req et w named up found refused = ground arith

is_uuid_of_found :
    (env : Env) (token : String) (w : World) (et : EnrollmentToken)
    → find_token env token w.tables ≡ ok et
    → env.is_uuid token ≡ true
unfolding find_token
is_uuid_of_found env token w et found = ground arith

answers :
    (env : Env) (r : Request) (req : CompleteEnrollmentRequest) (w : World)
    → r.method ≡ "POST"
    → (complete env req w).0 ≡ err spent_error
    → (handle_complete_enrollment env r (some req) w).0
      ≡ ok (failure 404 "Enrollment token not found or expired")
unfolding handle_complete_enrollment
answers env r req w post refused =
    rw (post, refused) (ap (λ p. p.0) (status_of_spent env.violation (complete env req w).1))

-- A known token that was used or has expired is answered with 404, not with the 400 that the
-- handler has for "already used": the text of the error has "not found" in it, which is tested
-- first. This holds for every POST with a username while the database answers.
pub used_token_is_not_found :
    (env : Env) (r : Request) (req : CompleteEnrollmentRequest) (et : EnrollmentToken) (w : World)
    → r.method ≡ "POST"
    → (req.username == "") ≡ false
    → env.fault w.tick ≡ none
    → env.fault (suc w.tick) ≡ none
    → env.fault (suc (suc w.tick)) ≡ none
    → find_token env req.token w.tables ≡ ok et
    → any (is_usable (env.time (suc w.tick)) req.token) w.tables.tokens ≡ false
    → (handle_complete_enrollment env r (some req) w).0
      ≡ ok (failure 404 "Enrollment token not found or expired")
used_token_is_not_found env r req et w post named up up' up'' found spent =
    answers env r req w post (
      service_refuses env req et w named up found (
        database_refuses env req.token req.device_id req.username (advance w) up' up''
          (is_uuid_of_found env req.token w et found) spent))
