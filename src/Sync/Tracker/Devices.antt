-- ===== src/Sync/Tracker/Devices.antt =====
-- change_tracker.go: getDevicesForRecipient and getDevicesForSender, and the loops over devices.
use posduif.Common.{
  ℕ, String, Bool, true, false, ◌||◌, ◌++◌, ◌≡◌, refl, ap, ◌∙◌, none, some, List, [], ◌∷◌, arith,
  eq_iff,
}
use posduif.Common.Dict.{Dict, lookup, insert, lookup-insert}
use posduif.Models.{User, WalChange}
use posduif.Errors.{no_rows, driver, wrapped, Result, ok, err}
use posduif.Database.{Env, Tables, World, errorf, wrap_result, advance, query}
use posduif.Database.Users.{find_user, get_user_by_id}
use posduif.Sync.Tracker.{
  devices_of, get_devices, sender_devices, contains, without, enqueue, queue,
}

-- What a search for devices gives: the failure, or the devices of the row, if there is one.
abbrev pub pick : Result User → Result (List String)
pick (ok u) = ok (devices_of u)
pick (err no_rows) = ok []
pick (err e) = err e

abbrev pub devices_at : Env → String → ℕ → Tables → Result (List String)
devices_at env id tick t = elim (env.fault tick) [
  | none ↦ pick (find_user env id t)
  | some s ↦ err (driver s)
]

-- The search reads the tables once and changes nothing.
pub get_devices_lem :
    (env : Env) (id : String) (w : World)
    → get_devices env id w ≡ (devices_at env id w.tick w.tables, advance w)
unfolding get_devices get_user_by_id query
get_devices_lem env id w = ground arith

abbrev pub label : String → Result (List String) → Result (List String)
label s (ok ds) = ok ds
label s (err e) = err (wrapped s e)

abbrev pub later : Bool → World → World
later true w = advance w
later false w = w

abbrev pub sender_result : Env → String → Bool → String → World → Result (List String)
sender_result env s true id w = label s (devices_at env id w.tick w.tables)
sender_result env s false id w = ok []

wrap_result_lem :
    (s : String) (r : Result (List String)) (w : World) → wrap_result s (r, w) ≡ (label s r, w)
wrap_result_lem s (ok ds) w = refl
wrap_result_lem s (err e) w = refl

pub errorf-get_devices :
    (env : Env) (s id : String) (w : World)
    → errorf s (get_devices env id) w ≡ (label s (devices_at env id w.tick w.tables), advance w)
errorf-get_devices env s id w =
    ap (wrap_result s) (get_devices_lem env id w) ∙ wrap_result_lem s _ _

pub sender_devices_lem :
    (env : Env) (s : String) (test : Bool) (id : String) (w : World)
    → sender_devices env s test id w ≡ (sender_result env s test id w, later test w)
unfolding sender_devices
sender_devices_lem env s true id w = errorf-get_devices env s id w
sender_devices_lem env s false id w = refl

pub contains-append :
    (xs ys : List String) (d : String) → contains (xs ++ ys) d ≡ (contains xs d || contains ys d)
contains-append [] ys d = refl
contains-append (x ∷ xs) ys d = ground (arith, contains-append xs ys d)

-- An excluded device is not among those that stay.
pub contains-without :
    (excluded ds : List String) (d : String)
    → contains excluded d ≡ true
    → contains (without excluded ds) d ≡ false
contains-without excluded [] d h = refl
contains-without excluded (e ∷ ds) d h =
    ground (arith, contains-without excluded ds d h, eq_iff e d)

-- Only the listed devices get the change.
pub lookup-enqueue :
    (c : WalChange) (ds : List String) (changes : Dict (List WalChange)) (d : String)
    → contains ds d ≡ false
    → lookup d (enqueue c ds changes) ≡ lookup d changes
unfolding enqueue
lookup-enqueue c [] changes d h = refl
lookup-enqueue c (e ∷ ds) changes d h =
    let new = queue changes e ++ c ∷ [] in
    lookup-enqueue c ds (insert e new changes) d (ground arith)
    ∙ ground (arith, lookup-insert e d new changes)
