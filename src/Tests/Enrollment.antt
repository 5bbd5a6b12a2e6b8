-- ===== src/Tests/Enrollment.antt =====
-- The theorems on the enrollment service, on the sample tenant.
use posduif.Common.{◌+◌, ◌*◌, ◌^◌, ◌≡◌, refl, false, none, true, arith}
use posduif.Errors.{ok}
use posduif.Database.{World, exec, query, transaction, tx_exec, tx_query, new_uuid}
use posduif.Database
use posduif.Database.Tokens.{
  complete_enrollment, enrollment_body, use_token, link_user, find_token, find_device, enroll,
  insert_or_adopt, insert_token, create_enrollment_token, get_enrollment_token,
}
use posduif.Enrollment.{
  EnrollmentResponse, EnrollmentDetails, EnrollmentResult, CompleteEnrollmentRequest,
  create_enrollment, get_enrollment, enroll_named, complete,
}
use posduif.Enrollment.Life.{created_is_valid, completed_is_spent}
use posduif.Tests.{env, world}

abbrev created : World
created = (create_enrollment env "acme" "8080" "carol" world).1

abbrev invitation : EnrollmentResponse
invitation = record {
  token = "3f0e";
  enrollment_url = "http://localhost:8080/api/enrollment/3f0e";
  qr_token = "3f0e";
  qr_tenant_id = "acme";
  expires_at = 1000 + 3600 * 10 ^ 9;
}

carol_invites : create_enrollment env "acme" "8080" "carol" world ≡ (ok invitation, created)
unfolding create_enrollment create_enrollment_token insert_token exec new_uuid Database.now
carol_invites = refl

created_is_valid_example :
    (invitation.expires_at ≡ 1000 + 3600 * 10 ^ 9)
    × ((get_enrollment env "3f0e" created).0
        ≡ ok (record {
          token = "3f0e";
          tenant_id = "acme";
          created_by = "carol";
          expires_at = 1000 + 3600 * 10 ^ 9;
          used_at = none;
          valid = true;
        }))
unfolding create_enrollment create_enrollment_token insert_token exec new_uuid Database.now
created_is_valid_example =
    created_is_valid env "acme" "8080" "carol" world invitation created carol_invites refl
      (λ t. refl) (omega arith)

abbrev dave : CompleteEnrollmentRequest
dave = record { token = "secret"; device_id = "phone-d"; username = "dave" }

abbrev enrolled : World
enrolled = (complete env dave world).1

abbrev account : EnrollmentResult
account = record { user_id = "3f0e"; device_id = "phone-d"; tenant_id = "acme" }

dave_accepts : complete env dave world ≡ (ok account, enrolled)
unfolding complete enroll_named get_enrollment_token complete_enrollment enrollment_body use_token
    link_user find_token find_device enroll insert_or_adopt exec query transaction tx_exec tx_query
    new_uuid Database.now
dave_accepts = refl

completed_is_spent_example :
    (d : EnrollmentDetails) × ((get_enrollment env "secret" enrolled).0 ≡ ok d) × (d.valid ≡ false)
unfolding complete enroll_named get_enrollment_token complete_enrollment enrollment_body use_token
    link_user find_token find_device enroll insert_or_adopt exec query transaction tx_exec tx_query
    new_uuid Database.now
completed_is_spent_example =
    completed_is_spent env dave world account enrolled dave_accepts refl (omega arith)

abbrev nameless : CompleteEnrollmentRequest
nameless = record dave { username = "" }
