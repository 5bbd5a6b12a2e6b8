-- ===== src/Database/Users/Search.antt =====
-- queries.go: GetUsers. How PostgreSQL orders names and how ILIKE matches a pattern depend on the
-- collation of the database, so both are parameters.
use posduif.Common.{
  String, Bool, true, false, not, ◌&&◌, ◌||◌, ◌==◌, ◌≡◌, Option, none, some, List, [], ◌∷◌, select,
  arith, All, Bool-cases, inl, inr, if◌then◌else◌,
}
use Prim.Native.String.{◌++◌ as append}
use posduif.Common.Sort.{insert_by, order_by, All-insert_by}
use posduif.Models.{User, UserFilter}
use posduif.Errors.{Result, ok, err, refused, invalid_text}
use posduif.Database.{Env, Tables, M, query}

-- What the collation says: `before` on names, and `ilike` on a name and a pattern.
pub record Order : Type 0 where
  pub before : String → String → Bool
  pub ilike : String → String → Bool

abbrev has_status : Option Bool → User → Bool
has_status none u = true
has_status (some true) u = u.online_status
has_status (some false) u = not u.online_status

-- The WHERE clause.
abbrev pub is_wanted : Order → UserFilter → User → Bool
is_wanted order f u =
    ((f.exclude_user_id == "") || not (u.id == f.exclude_user_id))
    && (((f.filter == "") || order.ilike u.username (append "%" (append f.filter "%")))
        && has_status f.status u)

-- ORDER BY online_status DESC, username ASC
abbrev pub is_before : Order → User → User → Bool
is_before order v u =
    if v.online_status
    then not u.online_status || order.before v.username u.username
    else not u.online_status && order.before v.username u.username

abbrev pub wanted_rows : Order → Env → UserFilter → Tables → Result (List User)
wanted_rows order env f t =
    if (f.exclude_user_id == "") || env.is_uuid f.exclude_user_id
    then ok (order_by (is_before order) (select (is_wanted order f) t.users))
    else err (refused invalid_text)

-- GetUsers
unfoldable pub get_users : Order → Env → UserFilter → M (List User)
get_users order env f = query env (wanted_rows order env f)

-- Behind a user who is not online, nobody is.
abbrev pub OnlineFirst : List User → Type 0
OnlineFirst [] = Unit
OnlineFirst (u ∷ us) =
    (u.online_status ≡ false → All (λ v. v.online_status ≡ false) us) × OnlineFirst us

insert_by-OnlineFirst :
    (order : Order) (u : User) (us : List User)
    → OnlineFirst us
    → OnlineFirst (insert_by (is_before order) u us)
unfolding insert_by
insert_by-OnlineFirst order u [] h = (λ e. tt, tt)
insert_by-OnlineFirst order u (v ∷ us) h = elim (Bool-cases (is_before order v u)) [
  | inl e ↦ rw e (
    λ off.
        All-insert_by (is_before order) (λ x. x.online_status ≡ false) u us (ground (arith, e, off))
          (h.0 off),
    insert_by-OnlineFirst order u us h.1,
  )
  | inr e ↦ rw e (λ off. (ground (arith, e, off), h.0 (ground (arith, e, off))), h)
]

pub order_by-OnlineFirst :
    (order : Order) (us : List User) → OnlineFirst (order_by (is_before order) us)
unfolding order_by
order_by-OnlineFirst order [] = tt
order_by-OnlineFirst order (u ∷ us) =
    insert_by-OnlineFirst order u (order_by (is_before order) us) (order_by-OnlineFirst order us)
