-- ===== src/Enrollment.antt =====
-- sync-engine/internal/enrollment/service.go. Of the configuration the service reads the name of
-- the database, as the tenant id, and the port that it puts into the enrollment URL.
pub mod Errors
pub mod Life
use Prim.Native.String.{◌++◌ as append}
use posduif.Common.{
  ℕ, ◌+◌, ◌*◌, ◌^◌, String, Bool, true, false, ◌&&◌, ◌==◌, ltb, Option, none, some, if◌then◌else◌,
}
use posduif.Models.{EnrollmentToken}
use posduif.Errors.{message}
use posduif.Database.{Env, M, pure, raise, errorf, ◌>>=◌, now}
use posduif.Database.Tokens.{
  create_enrollment_token, get_enrollment_token, complete_enrollment as complete_in_database,
}

-- EnrollmentResponse, with the three entries of its QRCodeData.
pub record EnrollmentResponse : Type 0 where
  pub token : String
  pub enrollment_url : String
  pub qr_token : String
  pub qr_tenant_id : String
  pub expires_at : ℕ

pub record EnrollmentDetails : Type 0 where
  pub token : String
  pub tenant_id : String
  pub created_by : String
  pub expires_at : ℕ
  pub used_at : Option ℕ
  pub valid : Bool

-- CompleteEnrollmentRequest; the service does not read its DeviceInfo.
pub record CompleteEnrollmentRequest : Type 0 where
  pub token : String
  pub device_id : String
  pub username : String

pub record EnrollmentResult : Type 0 where
  pub user_id : String
  pub device_id : String
  pub tenant_id : String

-- 1 * time.Hour
abbrev pub hour : ℕ
hour = 3600 * 10 ^ 9

-- `port` is the text that %d gives.
abbrev pub enrollment_url_of : String → String → String
enrollment_url_of port token =
    append "http://localhost:" (append port (append "/api/enrollment/" token))

abbrev pub respond : String → EnrollmentToken → EnrollmentResponse
respond port token = record {
  token = token.token;
  enrollment_url = enrollment_url_of port token.token;
  qr_token = token.token;
  qr_tenant_id = token.tenant_id;
  expires_at = token.expires_at;
}

abbrev pub new_token : String → String → ℕ → EnrollmentToken
new_token db user expires_at = record {
  id = "";
  token = "";
  created_by = user;
  tenant_id = db;
  expires_at = expires_at;
  used_at = none;
  device_id = none;
  created_at = 0;
  updated_at = 0;
}

abbrev pub is_unused : Option ℕ → Bool
is_unused none = true
is_unused (some t) = false

-- The details of a token at the time `t`.
abbrev pub details_at : ℕ → EnrollmentToken → EnrollmentDetails
details_at t et = record {
  token = et.token;
  tenant_id = et.tenant_id;
  created_by = et.created_by;
  expires_at = et.expires_at;
  used_at = et.used_at;
  valid = ltb t et.expires_at && is_unused et.used_at;
}

module _ (env : Env) where
  -- CreateEnrollment
  unfoldable pub create_enrollment : String → String → String → M EnrollmentResponse
  create_enrollment db port user = do
    t ← now env
    token ←
        errorf "failed to create enrollment token"
          (create_enrollment_token env (new_token db user (t + hour)))
    pure (respond port token)

  -- GetEnrollment
  unfoldable pub get_enrollment : String → M EnrollmentDetails
  get_enrollment token = do
    et ← errorf "enrollment token not found" (get_enrollment_token env token)
    t ← now env
    pure (details_at t et)

  unfoldable pub enroll_named : CompleteEnrollmentRequest → EnrollmentToken → M EnrollmentResult
  enroll_named req et = do
    id ←
        errorf "failed to complete enrollment"
          (complete_in_database env req.token req.device_id req.username)
    pure (record { user_id = id; device_id = req.device_id; tenant_id = et.tenant_id })

  -- CompleteEnrollment
  unfoldable pub complete : CompleteEnrollmentRequest → M EnrollmentResult
  complete req = do
    et ← errorf "enrollment token not found" (get_enrollment_token env req.token)
    if req.username == "" then raise (message "username is required") else enroll_named req et
