-- ===== src/Enrollment/Life.antt =====
-- service.go: what GetEnrollment says of a token after CreateEnrollment and CompleteEnrollment.
use posduif.Common.{
  ℕ, suc, ◌+◌, ◌*◌, ◌^◌, ◌<◌, ◌≤◌, String, Bool, true, false, ◌||◌, ◌==◌, ◌≡◌, refl, ap, ◌∙◌, ◌++◌,
  none, some, List, [], ◌∷◌, map, any, find, arith, eq_iff, nat_eq, Option-cases, inl, inr, lt→ltb,
  if◌then◌else◌,
}
use posduif.Models.{EnrollmentToken}
use posduif.Errors.{Result, ok, err}
use posduif.Database.{Env, World, Tables, query, exec, advance, first_row, new_uuid}
use posduif.Database
use posduif.Database.Statements.{Ends, exec-Ends}
use posduif.Database.Tokens.{
  new_row, mark_used, insert_token, create_enrollment_token, find_token, get_enrollment_token,
  complete_enrollment,
}
use posduif.Database.Tokens.SingleUse.{complete_enrollment_redeems}
use posduif.Enrollment.{
  EnrollmentResponse, EnrollmentDetails, CompleteEnrollmentRequest, EnrollmentResult, respond,
  new_token, details_at, hour, create_enrollment, get_enrollment, enroll_named, complete,
}
use posduif.Enrollment.Errors.{get_enrollment_token_lem}

abbrev of_token : String → EnrollmentToken → Bool
of_token token e = e.token == token

find-append_fresh :
    (token : String) (ts : List EnrollmentToken) (x : EnrollmentToken)
    → any (λ t. (t.id == x.id) || (t.token == x.token)) ts ≡ false
    → x.token ≡ token
    → find (of_token token) (ts ++ x ∷ []) ≡ some x
find-append_fresh token [] x fresh e = ground (arith, eq_iff x.token token)
find-append_fresh token (t ∷ ts) x fresh e =
    ground (arith, find-append_fresh token ts x, eq_iff t.token token, eq_iff t.token x.token)

find-mark_used :
    (at : ℕ) (device token : String) (ts : List EnrollmentToken)
    → find (of_token token) (map (mark_used at device token) ts)
      ≡ (elim (find (of_token token) ts) [
        | none ↦ none
        | some t ↦ some (mark_used at device token t)
      ])
find-mark_used at device token [] = refl
find-mark_used at device token (t ∷ ts) = ground (arith, find-mark_used at device token ts)

find_sound :
    (token : String) (ts : List EnrollmentToken) (t : EnrollmentToken)
    → find (of_token token) ts ≡ some t
    → (t.token == token) ≡ true
find_sound token [] t e = cc
find_sound token (x ∷ ts) t e = ground (arith, find_sound token ts t)

insert_token-ok :
    (env : Env) (e : EnrollmentToken) (at : ℕ) (fresh : String) (t t' : Tables)
    → insert_token env e at fresh t ≡ ok (tt, t')
    → (env.is_uuid e.token ≡ true)
      × (any (λ x. (x.id == e.id) || (x.token == e.token)) t.tokens ≡ false)
      × (t'.tokens ≡ t.tokens ++ new_row env e ∷ [])
unfolding insert_token
insert_token-ok env e at fresh t t' h = (ground arith, ground arith, ground arith)

-- A stored token was new, and the search finds it.
find_inserted :
    (env : Env) (e : EnrollmentToken) (at : ℕ) (fresh : String) (t t' : Tables)
    → insert_token env e at fresh t ≡ ok (tt, t')
    → find_token env e.token t' ≡ ok (new_row env e)
unfolding find_token
find_inserted env e at fresh t t' h =
    let (valid, new, rows) = insert_token-ok env e at fresh t t' h in
    rw (valid, rows) (ap first_row (find-append_fresh e.token t.tokens (new_row env e) new refl))

-- The token that CreateEnrollment stores at a tick.
abbrev token_at : Env → String → String → ℕ → EnrollmentToken
token_at env db user tick = record (new_token db user (env.time tick + hour)) {
  id = env.uuid (suc (suc tick));
  token = env.uuid (suc (suc (suc tick)));
  created_at = if nat_eq 0 0 then env.time (suc tick) else 0;
  updated_at = env.time (suc tick);
}

abbrev stored_from : World → World
stored_from w = record w { tick = suc (suc (suc (suc w.tick))) }

create_run :
    (env : Env) (db port user : String) (w : World) (r : Result (Unit {0})) (w' : World)
    (out : EnrollmentResponse) (w2 : World)
    → exec env (insert_token env (token_at env db user w.tick)) (stored_from w) ≡ (r, w')
    → create_enrollment env db port user w ≡ (ok out, w2)
    → (r ≡ ok tt) × (out ≡ respond port (token_at env db user w.tick)) × (w2 ≡ w')
unfolding create_enrollment create_enrollment_token Database.now new_uuid
create_run env db port user w (ok _) w' out w2 run e = (refl, ground arith, ground arith)
create_run env db port user w (err x) w' out w2 run e = absurd (ground arith)

-- What GetEnrollment answers, given what the search finds.
get_found :
    (env : Env) (token : String) (et : EnrollmentToken) (w : World)
    → env.fault w.tick ≡ none
    → find_token env token w.tables ≡ ok et
    → (get_enrollment env token w).0 ≡ ok (details_at (env.time (suc w.tick)) et)
unfolding get_enrollment get_enrollment_token query Database.now
get_found env token et w up found = ground arith

created_found :
    (env : Env) (db port user : String) (w : World) (p : Result (Unit {0}) × World)
    (out : EnrollmentResponse) (w' : World)
    → exec env (insert_token env (token_at env db user w.tick)) (stored_from w) ≡ p
    → Ends env (insert_token env (token_at env db user w.tick)) (stored_from w) p
    → create_enrollment env db port user w ≡ (ok out, w')
    → (out ≡ respond port (token_at env db user w.tick))
      × (find_token env (token_at env db user w.tick).token w'.tables
          ≡ ok (new_row env (token_at env db user w.tick)))
created_found env db port user w p out w' run (Ends.took a t h q) e =
    let (good, same, world) = create_run env db port user w _ _ out w' (run ∙ q) e in
    (
      same,
      ap (λ x. find_token env (token_at env db user w.tick).token x.tables) world
          ∙ find_inserted env (token_at env db user w.tick) _ _ _ t h,
    )
created_found env db port user w p out w' run (Ends.failed x q) e =
    let (good, same, world) = create_run env db port user w _ _ out w' (run ∙ q) e in
    absurd (ground (arith, good))

-- The process runs in UTC, so that TIMESTAMP columns keep its instants.
abbrev pub IsUtc : Env → Type 0
IsUtc env = (t : ℕ) → env.stamp t ≡ t

-- A token that CreateEnrollment has handed out is valid for 3600 seconds from the begin of the
-- call, which is what the answer says, if the process runs in UTC: a GetEnrollment right after it,
-- if it reads the table without a failure and in that time, finds the token unused, under the
-- tenant and the user for which it was made.
pub created_is_valid :
    (env : Env) (db port user : String) (w : World) (out : EnrollmentResponse) (w' : World)
    → create_enrollment env db port user w ≡ (ok out, w')
    → env.fault w'.tick ≡ none
    → IsUtc env
    → env.time (suc w'.tick) < env.time w.tick + 3600 * 10 ^ 9
    → (out.expires_at ≡ env.time w.tick + 3600 * 10 ^ 9)
      × ((get_enrollment env out.token w').0
          ≡ ok (record {
            token = out.token;
            tenant_id = db;
            created_by = user;
            expires_at = env.time w.tick + 3600 * 10 ^ 9;
            used_at = none;
            valid = true;
          }))
created_is_valid env db port user w out w' e up utc soon =
    let (same, found) =
      created_found env db port user w _ out w' refl
        (exec-Ends env (insert_token env (token_at env db user w.tick)) (stored_from w)) e in
    let token = token_at env db user w.tick in
    (
      ap (λ o. o.expires_at) same,
      rw same (
          get_found env token.token (new_row env token) w' up found
          ∙ rw (utc (env.time w.tick + hour))
              (rw (lt→ltb (env.time (suc w'.tick)) (env.time w.tick + hour) soon))),
    )

-- A run of `complete` that succeeds, taken apart.
completed :
    (env : Env) (req : CompleteEnrollmentRequest) (w : World) (r : Result EnrollmentToken)
    (q : Result String) (w1 w' : World) (res : EnrollmentResult)
    → get_enrollment_token env req.token w ≡ (r, advance w)
    → complete_enrollment env req.token req.device_id req.username (advance w) ≡ (q, w1)
    → complete env req w ≡ (ok res, w')
    → (et : EnrollmentToken) × (id : String) × (r ≡ ok et) × (q ≡ ok id) × (w1 ≡ w')
unfolding complete enroll_named
completed env req w (err x) q w1 w' res found run e = absurd (ground arith)
completed env req w (ok et) (err x) w1 w' res found run e = absurd (ground arith)
completed env req w (ok et) (ok id) w1 w' res found run e = (et, id, refl, refl, ground arith)

find_token-ok :
    (env : Env) (token : String) (w : World) (et : EnrollmentToken)
    → get_enrollment_token env token w ≡ (ok et, advance w)
    → (env.is_uuid token ≡ true) × (find (of_token token) w.tables.tokens ≡ some et)
unfolding get_enrollment_token query find_token
find_token-ok env token w et e = (
  ground arith,
  elim (Option-cases (find (of_token token) w.tables.tokens)) [
    | inl p ↦ absurd (ground arith)
    | inr (x, p) ↦ ground arith
  ],
)

-- A token that was redeemed, or could not be, is not valid later.
spent :
    (at later : ℕ) (device token : String) (et : EnrollmentToken)
    → at ≤ later
    → (et.token == token) ≡ true
    → (details_at later (mark_used at device token et)).valid ≡ false
spent at later device token et h e = ground arith

marked_found :
    (env : Env) (token device : String) (at : ℕ) (et : EnrollmentToken) (t t' : Tables)
    → env.is_uuid token ≡ true
    → find (of_token token) t.tokens ≡ some et
    → t'.tokens ≡ map (mark_used at device token) t.tokens
    → find_token env token t' ≡ ok (mark_used at device token et)
unfolding find_token
marked_found env token device at et t t' valid found marked =
    rw (valid, marked, find-mark_used at device token t.tokens) (rw found)

pair_of :
    {p : Result String × World} {r : Result String} {w : World} → p.0 ≡ r → p.1 ≡ w → p ≡ (r, w)
pair_of {p} {r} h k = ap (λ x. (x, p.1)) h ∙ ap (λ x. (r, x)) k

-- After a successful enrollment GetEnrollment finds the token and reports it as not valid, if it
-- reads the table without a failure and the clock has not been set back.
pub completed_is_spent :
    (env : Env) (req : CompleteEnrollmentRequest) (w : World) (res : EnrollmentResult) (w' : World)
    → complete env req w ≡ (ok res, w')
    → env.fault w'.tick ≡ none
    → env.time (suc w.tick) ≤ env.time (suc w'.tick)
    → (d : EnrollmentDetails) × ((get_enrollment env req.token w').0 ≡ ok d) × (d.valid ≡ false)
completed_is_spent env req w res w' e up clock =
    let (et, id, found, enrolled, world) =
      completed env req w _ _ _ w' res (get_enrollment_token_lem env req.token w) refl e in
    let at = env.time (suc w.tick) in
    let (valid, first) =
      find_token-ok env req.token w et
        (get_enrollment_token_lem env req.token w ∙ ap (λ r. (r, advance w)) found) in
    let redeemed =
      complete_enrollment_redeems env req.token req.device_id req.username id (advance w) w'
        (pair_of enrolled world) in
    (
      details_at (env.time (suc w'.tick)) (mark_used at req.device_id req.token et),
      get_found env req.token (mark_used at req.device_id req.token et) w' up (
          marked_found env req.token req.device_id at et w.tables w'.tables valid first redeemed.1),
      spent at (env.time (suc w'.tick)) req.device_id req.token et clock
          (find_sound req.token w.tables.tokens et first),
    )
