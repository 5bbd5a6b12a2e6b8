-- ===== src/Api/Enrollments.antt =====
-- sync-engine/internal/api/handlers/enrollment.go.
pub mod Statuses
use Prim.Native.String.{[], ◌∷◌, ◌++◌ as append}
use posduif.Common.{
  ℕ, code, String, Bool, true, false, not, ◌&&◌, ◌||◌, ◌==◌, nat_eq, Option, none, some,
  if◌then◌else◌,
}
use posduif.Errors.{Error, Result, ok, err}
use posduif.Errors
use posduif.Database.{Env, M, attempt, ◌>>=◌}
use posduif.Enrollment.{
  EnrollmentResponse, EnrollmentDetails, EnrollmentResult, CompleteEnrollmentRequest,
  create_enrollment, get_enrollment, complete,
}
use posduif.Api.{Request, Response, refuse, respond}
use posduif.Api.Messages.{after}

-- strings.HasPrefix and strings.Contains
unfoldable pub has_prefix : String → String → Bool
has_prefix [] s = true
has_prefix (p ∷ ps) [] = false
has_prefix (p ∷ ps) (c ∷ s) = nat_eq (code p) (code c) && has_prefix ps s

unfoldable pub contains_text : String → String → Bool
unfolding has_prefix
contains_text part [] = has_prefix part []
contains_text part (c ∷ s) = has_prefix part (c ∷ s) || contains_text part s

-- The status for the text of an error of CompleteEnrollment.
unfoldable pub status_of : String → M (Response EnrollmentResult)
status_of s =
    if contains_text "not found" s
    then refuse 404 "Enrollment token not found or expired"
    else if contains_text "already used" s
    then refuse 400 "Enrollment token already used"
    else if contains_text "unique" s || contains_text "duplicate" s
    then refuse 409 "Device already enrolled"
    else refuse 500 (append "Failed to complete enrollment: " s)

abbrev pub handed_out : Result EnrollmentResponse → M (Response EnrollmentResponse)
handed_out (err e) = refuse 500 "Failed to create enrollment"
handed_out (ok out) = respond 201 out

abbrev pub shown : Result EnrollmentDetails → M (Response EnrollmentDetails)
shown (err e) = refuse 404 "Enrollment token not found"
shown (ok d) =
    if d.valid then respond 200 d else refuse 400 "Enrollment token expired or already used"

abbrev pub finished : Env → Result EnrollmentResult → M (Response EnrollmentResult)
finished env (err e) = status_of (Errors.text env.violation e)
finished env (ok res) = respond 200 res

module _ (env : Env) where
  -- CreateEnrollment of the handler, with the database's name and the port of the configuration
  unfoldable pub handle_create_enrollment :
      String → String → Request → M (Response EnrollmentResponse)
  handle_create_enrollment db port r =
      if not (r.method == "POST") then refuse 405 "Method not allowed" else elim r.user [
        | none ↦ refuse 401 "Unauthorized"
        | some user ↦ do out ← attempt (create_enrollment env db port user); handed_out out
      ]

  -- GetEnrollment of the handler; the router hands it only paths under /api/enrollment/.
  unfoldable pub handle_get_enrollment : Request → M (Response EnrollmentDetails)
  handle_get_enrollment r =
      if not (r.method == "GET")
      then refuse 405 "Method not allowed"
      else if after 16 r.path == ""
      then refuse 400 "Token required"
      else do d ← attempt (get_enrollment env (after 16 r.path)); shown d

  abbrev pub complete_decoded : Option CompleteEnrollmentRequest → M (Response EnrollmentResult)
  complete_decoded none = refuse 400 "Invalid request body"
  complete_decoded (some req) = do res ← attempt (complete env req); finished env res

  -- CompleteEnrollment of the handler
  unfoldable pub handle_complete_enrollment :
      Request → Option CompleteEnrollmentRequest → M (Response EnrollmentResult)
  handle_complete_enrollment r body =
      if not (r.method == "POST") then refuse 405 "Method not allowed" else complete_decoded body
