-- ===== src/Sync/Tracker/Echo.antt =====
-- change_tracker.go: AddChange prevents sync loops.
use posduif.Common.{
  String, Bool, true, false, ◌==◌, ◌++◌, ◌≡◌, ◌≢◌, refl, ap, ◌∙◌, subst, ◌⊎◌, some, List, arith,
  eq_iff, eq_refl, inl, inr, Bool-cases, Option-cases,
}
use posduif.Common.Dict.{Dict, lookup}
use posduif.Models.{User, WalChange}
use posduif.Errors.{Result, ok, err}
use posduif.Database.{Env, Tables, World, advance}
use posduif.Database.Users.{find_user}
use posduif.Sync.Tracker.{
  recipient, sender, old_sender, is_nonempty, devices_of, contains, without, route, add_change,
}
use posduif.Sync.Tracker.Devices.{
  later, sender_result, contains-append, contains-without, lookup-enqueue,
}
use posduif.Sync.Tracker.Adding.{asks_old, recipients, senders, old_senders, deliver, changes-route}

-- The search failed, or it found the device.
abbrev Excludes : String → Result (List String) → Type 0
Excludes d (ok ds) = contains ds d ≡ true
Excludes d (err e) = Unit

deliver_excluded :
    (c : WalChange) (rs ss os : Result (List String)) (changes : Dict (List WalChange)) (d : String)
    → Excludes d ss ⊎ Excludes d os
    → lookup d (deliver c rs ss os changes) ≡ lookup d changes
deliver_excluded c (ok ds) (ok ss) (ok os) changes d h =
    lookup-enqueue c (without (ss ++ os) ds) changes d
      (contains-without (ss ++ os) ds d (ground (arith, contains-append ss os d)))
deliver_excluded c (err e) ss os changes d h = refl
deliver_excluded c (ok ds) (err e) os changes d h = refl
deliver_excluded c (ok ds) (ok ss) (err e) changes d h = refl

device_found :
    (u : User) (d : String) → u.device_id ≡ some d → d ≢ "" → contains (devices_of u) d ≡ true
device_found u d e h = ground (arith, eq_iff d "", eq_refl d)

module _ (env : Env) (id d : String) (u : User) (t : Tables) (known : find_user env id t ≡ ok u)
    (device : u.device_id ≡ some d) (named : d ≢ "") where
  search_Excludes :
      (s : String) (w : World) → w.tables ≡ t → Excludes d (sender_result env s true id w)
  search_Excludes s w e = ground (arith, device_found u d device named)

  sender_Excludes :
      (s : String) (test : Bool) (x : String) (w : World)
      → test ≡ true
      → id ≡ x
      → w.tables ≡ t
      → Excludes d (sender_result env s test x w)
  sender_Excludes s true x w p e q =
      subst (λ y. Excludes d (sender_result env s true y w)) e (search_Excludes s w q)
  sender_Excludes s false x w p e q = absurd (ground arith)

nonempty : (id x : String) → id ≢ "" → id ≡ x → is_nonempty x ≡ true
nonempty id x h e = ground (arith, eq_iff x "")

pub later_tables : (b : Bool) (w : World) → (later b w).tables ≡ w.tables
later_tables true w = refl
later_tables false w = refl

changes-add_change :
    (env : Env) (c : WalChange) (w : World) (d : String)
    → ((r : String) → lookup d (route env c r w).1.changes ≡ lookup d w.changes)
    → lookup d (add_change env c w).1.changes ≡ lookup d w.changes
unfolding add_change
changes-add_change env c w d h = elim (Option-cases (recipient c)) [
  | inl e ↦ ground arith
  | inr (r, e) ↦ ground (arith, h r)
]

route_excluded :
    (env : Env) (c : WalChange) (r id d : String) (u : User) (w : World)
    → (id ≡ sender c) ⊎ (id ≡ old_sender c)
    → id ≢ ""
    → find_user env id w.tables ≡ ok u
    → u.device_id ≡ some d
    → d ≢ ""
    → lookup d (route env c r w).1.changes ≡ lookup d w.changes
route_excluded env c r id d u w who some_id known device named =
    ap (lookup d) (changes-route env c r w)
    ∙ deliver_excluded c (recipients env c r w) (senders env c r w) (old_senders env c r w)
        w.changes d (excluded who)
  where
    of_sender : id ≡ sender c → Excludes d (senders env c r w)
    of_sender e =
        sender_Excludes env id d u w.tables known device named _ _ (sender c) (advance w)
          (nonempty id (sender c) some_id e) e refl

    excluded :
        (id ≡ sender c) ⊎ (id ≡ old_sender c)
        → Excludes d (senders env c r w) ⊎ Excludes d (old_senders env c r w)
    excluded (inl e) = inl (of_sender e)
    excluded (inr e) = elim (Bool-cases (old_sender c == sender c)) [
      | inl same ↦ inl (of_sender (e ∙ (eq_iff _ _).0 same))
      | inr differ ↦ inr (
          sender_Excludes env id d u w.tables known device named _ (asks_old c) (old_sender c) _
            (rw (nonempty id (old_sender c) some_id e, differ)) e
            (later_tables (is_nonempty (sender c)) (advance w)))
    ]

-- The loop prevention: whoever the recipient is and whatever fails on the way, the queue of a
-- device is the same before and after AddChange, if the device has a name and belongs to a known
-- user with an id who is the change's sender, or its sender before an UPDATE.
pub no_echo :
    (env : Env) (c : WalChange) (id d : String) (u : User) (w : World)
    → (id ≡ sender c) ⊎ (id ≡ old_sender c)
    → id ≢ ""
    → find_user env id w.tables ≡ ok u
    → u.device_id ≡ some d
    → d ≢ ""
    → lookup d (add_change env c w).1.changes ≡ lookup d w.changes
no_echo env c id d u w who some_id known device named =
    changes-add_change env c w d λ r. route_excluded env c r id d u w who some_id known device named
