-- ===== src/Startup/Again.antt =====
-- main.go: what a start leaves behind, also one that ends early.
use posduif.Common.{
  String, true, false, not, ◌||◌, ◌≡◌, refl, sym, subst, ◌∙◌, Option, none, some, List, any, arith,
  Bool-cases, inl, inr, if◌then◌else◌,
}
use posduif.Errors.{Result, ok, err}
use posduif.Config.{Config, load_config}
use posduif.Database.{Env}
use posduif.Sync.Manager.Wal.{Quiet}
use posduif.Common.Rows.{Unique, Unique-append}
use posduif.Database.Migrations.{Catalog, run_migrations}
use posduif.Database.Migrations.Reruns.{IsPossible, run_migrations-Leaves, quiet_run}
use posduif.Database.Slots.{slot_name}
use posduif.Database.Slots.Server.{Slot, Server, is_named, is_slot_name, create_replication_slot}
use posduif.Database.Slots.Server.Creating.{
  Ensures, present, made, failed, create_replication_slot-Ensures, create_replication_slot_works,
}
use posduif.Sync.WalService.{WalService, start}
use posduif.Startup.{
  Site, Machine, Started, serving, new_db, new_client, new_wal_service, serviced, with_service,
  with_slot, wal_components, with_redis, on, migrated, with_db, with_config, start_up,
}

-- The name of a slot is unique in a server.
abbrev pub IsConsistent : Machine → Type 0
IsConsistent m = IsPossible m.catalog × Unique (λ s. s.slot_name) m.server.slots

abbrev NoTwice : List Slot → Type 0
NoTwice = Unique (λ s. s.slot_name)

Ensures-NoTwice :
    (name : String) (s : Server) (p : Result String × Server)
    → NoTwice s.slots
    → Ensures name s p
    → NoTwice p.1.slots
Ensures-NoTwice name s p u (present e there) = rw e u
Ensures-NoTwice name s p u (made lsn e new valid) =
    rw e (Unique-append (λ x. x.slot_name) s.slots _ new u)
Ensures-NoTwice name s p u (failed x n e) = rw e u

module _ (env : Env) where
  creating-NoTwice :
      (db : String) (s : Server)
      → NoTwice s.slots
      → NoTwice (create_replication_slot env db s).1.slots
  creating-NoTwice db s u =
      Ensures-NoTwice (slot_name db) s _ u (create_replication_slot-Ensures env db s)

  with_service-server : (p : Result WalService × Server) → (with_service p).1 ≡ p.1
  with_service-server (ok ws, s) = refl
  with_service-server (err e, s) = refl

  serviced-server : (p : Result String × Server) → (serviced p).1 ≡ p.1
  serviced-server (ok name, s) = refl
  serviced-server (err e, s) = refl

  with_slot-NoTwice :
      (db : String) (p : Result String × Server)
      → NoTwice p.1.slots
      → NoTwice (with_slot env db p).1.slots
  unfolding new_wal_service
  with_slot-NoTwice db (ok name, s) u =
      let again = create_replication_slot env db s in
      subst (λ x. NoTwice x.slots)
        (sym (serviced-server again) ∙ sym (with_service-server (serviced again)))
        (creating-NoTwice db s u)
  with_slot-NoTwice db (err e, s) u = u

  wal_components-NoTwice :
      (cfg : Config) (s : Server) → NoTwice s.slots → NoTwice (wal_components env cfg s).1.slots
  unfolding wal_components
  wal_components-NoTwice cfg s u = elim (Bool-cases cfg.wal_enabled) [
    | inl e ↦ rw e (with_slot-NoTwice cfg.postgres_db _ (creating-NoTwice cfg.postgres_db s u))
    | inr e ↦ rw e u
  ]

  with_redis-NoTwice :
      (cfg : Config) (r : Result (Unit {0})) (s : Server)
      → NoTwice s.slots
      → NoTwice (with_redis env cfg r s).1.slots
  with_redis-NoTwice cfg (ok tt) s u = wal_components-NoTwice cfg s u
  with_redis-NoTwice cfg (err e) s u = u

  migrated-IsConsistent :
      (site : Site) (cfg : Config) (s : Server) (p : Result (Unit {0}) × Catalog)
      → IsPossible p.1
      → NoTwice s.slots
      → IsConsistent (migrated env site cfg s p).1
  migrated-IsConsistent site cfg s (ok tt, c) h u =
      (h, with_redis-NoTwice cfg (new_client site) s u)
  migrated-IsConsistent site cfg s (err e, c) h u = (h, u)

  with_db-IsConsistent :
      (site : Site) (cfg : Config) (r : Result (Unit {0})) (m : Machine)
      → IsConsistent m
      → IsConsistent (with_db env site cfg r m).1
  with_db-IsConsistent site cfg (ok tt) m h =
      migrated-IsConsistent site cfg m.server _ (run_migrations-Leaves env m.catalog h.0).possible
        h.1
  with_db-IsConsistent site cfg (err e) m h = h

  with_config-IsConsistent :
      (site : Site) (r : Result Config) (m : Machine)
      → IsConsistent m
      → IsConsistent (with_config env site r m).1
  with_config-IsConsistent site (ok cfg) m h = with_db-IsConsistent site cfg (new_db site cfg) m h
  with_config-IsConsistent site (err e) m h = h

  start_up-IsConsistent :
      (site : Site) (m : Machine) → IsConsistent m → IsConsistent (start_up env site m).1
  unfolding start_up
  start_up-IsConsistent site m h = with_config-IsConsistent site _ m h

-- The service that a start leaves running: one reader, if the log is enabled.
abbrev pub service_of : Config → Option WalService
service_of cfg =
    if cfg.wal_enabled then some (record { running = true; closed = false; readers = 1 }) else none

-- What a start needs beside a working database.
pub record IsUsable (site : Site) (cfg : Config) : Type 0 where
  pub config : load_config site.unmarshal site.file ≡ ok cfg
  pub database : new_db site cfg ≡ ok tt
  pub redis : new_client site ≡ ok tt
  pub slot : (not cfg.wal_enabled || is_slot_name (slot_name cfg.postgres_db)) ≡ true

-- What it leaves.
pub record Serves (cfg : Config) (p : Started × Machine) : Type 0 where
  pub serves : p.0 ≡ serving (service_of cfg)
  pub column : p.1.catalog.lsn_column ≡ true
  pub index : p.1.catalog.lsn_index ≡ true
  pub slot :
      (not cfg.wal_enabled || any (is_named (slot_name cfg.postgres_db)) p.1.server.slots) ≡ true
  pub once : NoTwice p.1.server.slots

module _ (env : Env) (quiet : Quiet env) (site : Site) (cfg : Config)
    (usable : IsUsable site cfg) where
  wal_works :
      (s : Server)
      → (s' : Server) × (wal_components env cfg s ≡ (serving (service_of cfg), s'))
        × ((not cfg.wal_enabled || any (is_named (slot_name cfg.postgres_db)) s'.slots) ≡ true)
  unfolding wal_components new_wal_service start
  wal_works s = elim (Bool-cases cfg.wal_enabled) [
    | inl e ↦
        let valid : is_slot_name (slot_name cfg.postgres_db) ≡ true =
          ground (arith, usable.slot, e) in
        let (s1, k, there) = create_replication_slot_works env cfg.postgres_db s quiet valid in
        let (s2, l, still) = create_replication_slot_works env cfg.postgres_db s1 quiet valid in
        (s2, rw (e, k, wal_components) (rw (l, new_wal_service) refl), ground (arith, still))
    | inr e ↦ (s, rw e refl, ground (arith, e))
  ]

  migrated_works :
      (s : Server) (p : Result (Unit {0}) × Catalog)
      → p.0 ≡ ok tt
      → migrated env site cfg s p ≡ on env p.1 (wal_components env cfg s)
  migrated_works s (ok tt, c) h = rw usable.redis refl
  migrated_works s (err e, c) h = absurd (ground (arith, h))

  start_up_lem :
      (m : Machine)
      → start_up env site m
        ≡ on env (run_migrations env m.catalog).1 (wal_components env cfg m.server)
  unfolding start_up
  start_up_lem m =
      rw usable.config
        (rw usable.database (migrated_works m.server _ (quiet_run env quiet m.catalog)))

  start_up-Serves : (m : Machine) → IsConsistent m → Serves cfg (start_up env site m)
  start_up-Serves m h =
      let (s', k, there) = wal_works m.server in
      let done =
        (run_migrations-Leaves env m.catalog h.0).complete (quiet_run env quiet m.catalog) in
      rw (start_up_lem m, k)
        (record {
          serves = refl;
          column = done.0;
          index = done.1;
          slot = there;
          once = subst (λ p. NoTwice p.1.slots) k (wal_components-NoTwice env cfg m.server h.1);
        })

-- A start makes good what an earlier one left undone. Whatever the first start met (no
-- configuration, a lost connection in the middle of a migration or of the creation of the slot, no
-- Redis), a second one serves if it can read its configuration, reaches both servers, no statement
-- of it fails, and PostgreSQL takes the name of the slot where it needs one: then the column and the index of the
-- migrations are there, with the log enabled so is the tenant's slot and one reader runs, with the
-- log disabled none runs, and no slot is there twice.
pub start_up_again :
    (env env' : Env) (site site' : Site) (cfg : Config) (m : Machine)
    → IsConsistent m
    → Quiet env'
    → IsUsable site' cfg
    → Serves cfg (start_up env' site' (start_up env site m).1)
start_up_again env env' site site' cfg m h quiet usable =
    start_up-Serves env' quiet site' cfg usable (start_up env site m).1
      (start_up-IsConsistent env site m h)
