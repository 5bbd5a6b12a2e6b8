-- ===== src/Api/Users/Excluding.antt =====
-- users.go: what ListUsers answers, and that the user who asks is not in it.
use mathlib.Core.List.{Perm}
use posduif.Common.{
  suc, String, true, false, ◌||◌, ◌==◌, ◌≡◌, ap, none, some, List, [], ◌∷◌, select, find,
  select-All, arith, All, eq_iff, ◌≢◌,
}
use posduif.Common.Sort.{order_by, order_by-perm, All-order_by}
use posduif.Models.{User, UserFilter}
use posduif.Errors.{ok}
use posduif.Database.{Env, World, Tables, query, advance}
use posduif.Database.Users.{has_device, get_user_by_device_id}
use posduif.Database.Users.Search.{
  Order, is_wanted, is_before, get_users, OnlineFirst, order_by-OnlineFirst,
}
use posduif.Sync.Manager.Wal.{Quiet}
use posduif.Api.{Request, reply}
use posduif.Api.Users.{filter_of, requester, list_users}

-- The list for a filter: the wanted users of the table, each once, those online in front, without
-- the excluded one.
pub record Lists (order : Order) (f : UserFilter) (t : Tables) (us : List User) : Type 0 where
  pub wanted : Perm us (select (is_wanted order f) t.users)
  pub online_first : OnlineFirst us
  pub others : (f.exclude_user_id == "") ≡ false → All (λ u. u.id ≢ f.exclude_user_id) us

not_excluded :
    (order : Order) (f : UserFilter) (us : List User)
    → (f.exclude_user_id == "") ≡ false
    → All (λ u. is_wanted order f u ≡ true) us
    → All (λ u. u.id ≢ f.exclude_user_id) us
not_excluded order f [] h k = tt
not_excluded order f (u ∷ us) h k = (
  λ e. absurd (ground (arith, k.0, h, eq_iff u.id f.exclude_user_id)),
  not_excluded order f us h k.1,
)

rows-Lists :
    (order : Order) (f : UserFilter) (t : Tables)
    → Lists order f t (order_by (is_before order) (select (is_wanted order f) t.users))
rows-Lists order f t =
    let rows = select (is_wanted order f) t.users in
    record {
      wanted = order_by-perm (is_before order) rows;
      online_first = order_by-OnlineFirst order rows;
      others = λ h.
          not_excluded order f _ h
            (All-order_by (is_before order) _ rows (select-All (is_wanted order f) t.users));
    }

list_users_by :
    (env : Env) (order : Order) (r : Request) (id : String) (w w1 : World)
    → r.method ≡ "GET"
    → requester env r w ≡ (ok id, w1)
    → env.fault w1.tick ≡ none
    → (id == "" || env.is_uuid id) ≡ true
    → list_users env order r w ≡ (
      ok (
          reply 200 (
            order_by
              (is_before order)
              (select (is_wanted order (filter_of r id)) w1.tables.users))),
      advance w1,
    )
unfolding list_users get_users query
list_users_by env order r id w w1 get e up valid = rw get (ground (arith, e, up, valid))

requester_device :
    (env : Env) (r : Request) (u : User) (w : World)
    → Quiet env
    → r.user ≡ none
    → (r.header "X-Device-ID" == "") ≡ false
    → find (has_device (r.header "X-Device-ID")) w.tables.users ≡ some u
    → requester env r w ≡ (ok u.id, advance w)
unfolding requester get_user_by_device_id query
requester_device env r u w quiet anonymous named found =
    rw (anonymous, requester) (rw (named, requester) (ground (arith, quiet w.tick, found)))

-- A device lists the other users: against a working database, ListUsers answers a request without
-- a token, whose header names the device of a user with a UUID, with the users who match the
-- filter, each once and those online in front, and that user is not among them.
pub list_users_for_device :
    (env : Env) (order : Order) (r : Request) (u : User) (w : World)
    → Quiet env
    → r.method ≡ "GET"
    → r.user ≡ none
    → (r.header "X-Device-ID" == "") ≡ false
    → find (has_device (r.header "X-Device-ID")) w.tables.users ≡ some u
    → (u.id == "") ≡ false
    → env.is_uuid u.id ≡ true
    → (us : List User) × ((list_users env order r w).0 ≡ ok (reply 200 us))
      × Perm us (select (is_wanted order (filter_of r u.id)) w.tables.users)
      × OnlineFirst us
      × All (λ v. v.id ≢ u.id) us
list_users_for_device env order r u w quiet get anonymous named found has_id valid =
    let l = rows-Lists order (filter_of r u.id) w.tables in
    (
      _,
      ap (λ p. p.0)
          (list_users_by env order r u.id w (advance w) get
            (requester_device env r u w quiet anonymous named found) (quiet (suc w.tick))
            (ground (arith, valid))),
      l.wanted,
      l.online_first,
      l.others has_id,
    )
