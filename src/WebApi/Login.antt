-- ===== src/WebApi/Login.antt =====
-- auth.go: who a login of the web API answers with, and what it leaves in the table of users.
use posduif.Common.{
  ℕ, suc, String, Bool, true, false, ◌==◌, ◌≡◌, refl, ap, ◌∙◌, sym, subst, none, some, List, [],
  ◌∷◌, ◌++◌, map, find, arith, eq_refl, inl, inr, Bool-cases, Option-cases,
}
use posduif.Models.{User}
use posduif.Errors.{Error, no_rows, driver, wrapped, Result, ok, err}
use posduif.Errors
use posduif.Database.{Env, World, Tables, M, advance, query, exec, new_uuid, first_row, wrap_result}
use posduif.Database
use posduif.Database.Schema.{has_user}
use posduif.Database.Statements.{Ends, took, failed, exec-Ends}
use posduif.Api.{Request, Response, failure, reply}
use posduif.WebApi.Queries.{
  web_user, touch_user, touch_named, get_user_by_username, insert_or_touch, create_user,
}
use posduif.WebApi.Handlers.{
  LoginResponse, login_response, is_connection_error, registered, logged_in, login, log_in,
}

abbrev pub named : String → User → Bool
named name u = u.username == name

find-touch :
    (now : ℕ) (name : String) (us : List User) (u : User)
    → find (named name) us ≡ some u
    → find (named name) (map (touch_named now name) us) ≡ some (touch_user now u)
find-touch now name [] u e = cc
find-touch now name (v ∷ us) u e = ground (arith, find-touch now name us u)

find-append_new :
    (name : String) (us : List User) (u : User)
    → find (named name) us ≡ none
    → (u.username == name) ≡ true
    → find (named name) (us ++ u ∷ []) ≡ some u
find-append_new name [] u e h = ground arith
find-append_new name (v ∷ us) u e h = ground (arith, find-append_new name us u)

-- An answer with a user who stands in the table under the name, or a refusal without effect.
pub data LogsIn (name : String) (before : Tables) (p : Result (Response LoginResponse) × World)
    : Type 0 where
  accepted :
      (u : User)
      → p.0 ≡ ok (reply 200 (login_response u))
      → find (named name) p.1.tables.users ≡ some u
      → LogsIn name before p
  refused :
      (status : ℕ) (s : String)
      → p.0 ≡ ok (failure status s)
      → p.1.tables ≡ before
      → LogsIn name before p

insert_or_touch-named :
    (env : Env) (id name : String) (t now : ℕ) (fresh : String) (before after : Tables) (u : User)
    → insert_or_touch env id name t now fresh before ≡ ok (u, after)
    → find (named name) after.users ≡ some u
unfolding insert_or_touch
insert_or_touch-named env id name t now fresh before after u e =
    elim (Option-cases (find (named name) before.users)) [
      | inl none_yet ↦
          ground
            (arith, find-append_new name before.users (web_user id name t) none_yet (eq_refl name))
      | inr (v, known) ↦ ground (arith, find-touch now name before.users v known)
    ]

-- CreateUser's statement, in the world after the two calls in front of it.
abbrev statement : Env → String → World → ℕ → String → Tables → Result (User × Tables)
statement env name w = insert_or_touch env (env.uuid w.tick) name (env.time (suc w.tick))

abbrev in_front : World → World
in_front w = record w { tick = suc (suc w.tick) }

logged_in_created :
    (env : Env) (name : String) (e : Error) (w : World) (r : Result User) (w' : World)
    → is_connection_error (Errors.text env.violation e) ≡ false
    → exec env (statement env name w) (in_front w) ≡ (r, w')
    → logged_in env name (err e) w
      ≡ registered env (wrap_result "failed to create user" (r, w')).0 w'
unfolding logged_in create_user new_uuid Database.now
logged_in_created env name e w (ok u) w' h k = ground arith
logged_in_created env name e w (err x) w' h k = ground arith

registered-LogsIn :
    (env : Env) (name : String) (e : Error) (w w' : World)
    → w'.tables ≡ w.tables
    → LogsIn name w.tables (registered env (err e) w')
unfolding registered
registered-LogsIn env name e w w' same =
    elim (Bool-cases (is_connection_error (Errors.text env.violation e))) [
      | inl h ↦ rw h (refused 503 _ refl same)
      | inr h ↦ rw h (refused 500 _ refl same)
    ]

created-LogsIn :
    (env : Env) (name : String) (e : Error) (w : World) (p : Result User × World)
    → is_connection_error (Errors.text env.violation e) ≡ false
    → exec env (statement env name w) (in_front w) ≡ p
    → Ends env (statement env name w) (in_front w) p
    → LogsIn name w.tables (logged_in env name (err e) w)
unfolding registered
created-LogsIn env name e w p h k (took u t done q) =
    subst (LogsIn name w.tables) (sym (logged_in_created env name e w (ok u) _ h (k ∙ q)))
      (accepted u refl (insert_or_touch-named env _ name _ _ _ w.tables t u done))
created-LogsIn env name e w p h k (failed x q) =
    subst (LogsIn name w.tables) (sym (logged_in_created env name e w (err x) _ h (k ∙ q)))
      (registered-LogsIn env name (wrapped "failed to create user" x) w _ refl)

logged_in-LogsIn :
    (env : Env) (name : String) (found : Result User) (w : World)
    → ((u : User) → found ≡ ok u → find (named name) w.tables.users ≡ some u)
    → LogsIn name w.tables (logged_in env name found w)
unfolding logged_in
logged_in-LogsIn env name (ok u) w h = accepted u refl (h u refl)
logged_in-LogsIn env name (err e) w h =
    elim (Bool-cases (is_connection_error (Errors.text env.violation e))) [
      | inl lost ↦ rw lost (refused 503 _ refl refl)
      | inr other ↦
          created-LogsIn env name e w _ other refl
            (exec-Ends env (statement env name w) (in_front w))
    ]

-- The search in front: what it found, in the world after it.
searched : Env → String → World → Result User
searched env name w = elim (env.fault w.tick) [
  | none ↦ first_row (find (named name) w.tables.users)
  | some s ↦ err (driver s)
]

log_in-searched :
    (env : Env) (name : String) (w : World)
    → log_in env (some name) w ≡ logged_in env name (searched env name w) (advance w)
unfolding searched get_user_by_username query
log_in-searched env name w = ground arith

searched-found :
    (env : Env) (name : String) (w : World) (u : User)
    → searched env name w ≡ ok u
    → find (named name) w.tables.users ≡ some u
unfolding searched
searched-found env name w u e = ground arith

-- A login by POST with a decodable body, on every branch and against any database: either it
-- answers 200 with the id, name and type of the user who then stands in the table under that
-- name, or it answers with a failure and leaves the tables as they were.
pub login-LogsIn :
    (env : Env) (r : Request) (name : String) (w : World)
    → r.method ≡ "POST"
    → LogsIn name w.tables (login env r (some name) w)
unfolding login
login-LogsIn env r name w post = rw post (
    subst (LogsIn name w.tables) (sym (log_in-searched env name w))
      (logged_in-LogsIn env name (searched env name w) (advance w) (searched-found env name w)))

login_found :
    (env : Env) (r : Request) (name : String) (w : World) (u : User)
    → r.method ≡ "POST"
    → env.fault w.tick ≡ none
    → find (named name) w.tables.users ≡ some u
    → login env r (some name) w ≡ (ok (reply 200 (login_response u)), advance w)
unfolding login logged_in searched
login_found env r name w u post up found =
    rw post (log_in-searched env name w ∙ rw (up, searched) (rw found))

-- A name keeps its id: once a login of a name was answered with a user, against any database, the
-- next login of that name gets the same answer and changes no table, if the database answers its
-- search.
pub login_again :
    (env : Env) (r : Request) (name : String) (w : World) (a : LoginResponse)
    → r.method ≡ "POST"
    → (login env r (some name) w).0 ≡ ok (reply 200 a)
    → env.fault (login env r (some name) w).1.tick ≡ none
    → login env r (some name) (login env r (some name) w).1
      ≡ (ok (reply 200 a), advance (login env r (some name) w).1)
login_again env r name w a post e up = by (login-LogsIn env r name w post)
  where
    by :
        LogsIn name w.tables (login env r (some name) w)
        → login env r (some name) (login env r (some name) w).1
          ≡ (ok (reply 200 a), advance (login env r (some name) w).1)
    by (accepted u p found) =
        login_found env r name _ u post up found
        ∙ ap (λ x. (x, advance (login env r (some name) w).1)) (sym p ∙ e)
    by (refused status s p same) = absurd (ground (arith, sym p ∙ e))

inserted :
    (env : Env) (name : String) (w : World)
    → ((t : ℕ) → env.fault t ≡ none)
    → find (named name) w.tables.users ≡ none
    → env.is_uuid (env.uuid w.tick) ≡ true
    → has_user (env.uuid w.tick) w.tables.users ≡ false
    → let new = web_user (env.uuid w.tick) name (env.time (suc w.tick)) in
      exec env (statement env name w) (in_front w) ≡ (
        ok new,
        record w {
          tables = record w.tables { users = w.tables.users ++ new ∷ [] };
          tick = suc (suc (suc w.tick));
        },
      )
unfolding exec insert_or_touch
inserted env name w quiet missing valid fresh = ground (arith, quiet (suc (suc w.tick)))

-- Registration: a login of a name that no user has, against a working database that accepts the
-- new UUID, answers with a new user under that UUID and the name, of type web, and appends just
-- that user to the table, marked as online.
pub login_registers :
    (env : Env) (r : Request) (name : String) (w : World)
    → r.method ≡ "POST"
    → ((t : ℕ) → env.fault t ≡ none)
    → find (named name) w.tables.users ≡ none
    → env.is_uuid (env.uuid (suc w.tick)) ≡ true
    → has_user (env.uuid (suc w.tick)) w.tables.users ≡ false
    → login env r (some name) w ≡ (
      ok (
          reply 200
            (record { user_id = env.uuid (suc w.tick); username = name; user_type = "web" })),
      record w {
        tables = record w.tables {
          users =
              w.tables.users
              ++ web_user (env.uuid (suc w.tick)) name (env.time (suc (suc w.tick))) ∷ [];
        };
        tick = suc (suc (suc (suc w.tick)));
      },
    )
unfolding login searched registered is_connection_error Errors.text
login_registers env r name w post quiet missing valid fresh = rw post (
    log_in-searched env name w
    ∙ rw (quiet w.tick, searched)
        (rw missing (
          logged_in_created env name no_rows (advance w)
            (ok (web_user (env.uuid (suc w.tick)) name (env.time (suc (suc w.tick))))) _ refl
            (inserted env name (advance w) quiet missing valid fresh))))
