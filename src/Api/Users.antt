-- ===== src/Api/Users.antt =====
-- sync-engine/internal/api/handlers/users.go.
pub mod Excluding
use posduif.Common.{
  ℕ, String, Bool, true, false, not, ◌||◌, ◌==◌, Option, none, some, List, if◌then◌else◌,
}
use posduif.Models.{User, UserFilter}
use posduif.Errors.{Result, ok, err}
use posduif.Database.{Env, M, pure, attempt, ◌>>=◌}
use posduif.Database.Users.{get_user_by_id, get_user_by_device_id}
use posduif.Database.Users.Search.{Order, get_users}
use posduif.Api.{Request, Response, refuse, respond}
use posduif.Api.Messages.{after}

-- strconv.ParseBool
abbrev pub parse_bool : String → Option Bool
parse_bool s =
    if s == "1" || s == "t" || s == "T" || s == "TRUE" || s == "true" || s == "True"
    then some true
    else if s == "0" || s == "f" || s == "F" || s == "FALSE" || s == "false" || s == "False"
    then some false
    else none

abbrev pub filter_of : Request → String → UserFilter
filter_of r id = record {
  filter = r.parameter "filter";
  status = if r.parameter "status" == "" then none else parse_bool (r.parameter "status");
  exclude_user_id = id;
}

abbrev pub id_or_empty : Result User → String
id_or_empty (ok u) = u.id
id_or_empty (err e) = ""

abbrev pub listed : Result (List User) → M (Response (List User))
listed (err e) = refuse 500 "Failed to get users"
listed (ok us) = respond 200 us

abbrev pub shown : Result User → M (Response User)
shown (err e) = refuse 404 "User not found"
shown (ok u) = respond 200 u

module _ (env : Env) where
  -- filter.ExcludeUserID: the user of the context, or the one with the device of the header.
  unfoldable pub requester : Request → M String
  requester r = elim r.user [
    | some id ↦ pure id
    | none ↦ if r.header "X-Device-ID" == "" then pure "" else do
      u ← attempt (get_user_by_device_id env (r.header "X-Device-ID"))
      pure (id_or_empty u)
  ]

  -- ListUsers
  unfoldable pub list_users : Order → Request → M (Response (List User))
  list_users order r =
      if not (r.method == "GET")
      then refuse 405 "Method not allowed"
      else do id ← requester r; us ← attempt (get_users order env (filter_of r id)); listed us

  -- GetUser; the router hands it only paths under /api/users/.
  unfoldable pub get_user : Request → M (Response User)
  get_user r =
      if not (r.method == "GET")
      then refuse 405 "Method not allowed"
      else if after 11 r.path == ""
      then refuse 400 "User ID required"
      else do u ← attempt (get_user_by_id env (after 11 r.path)); shown u
