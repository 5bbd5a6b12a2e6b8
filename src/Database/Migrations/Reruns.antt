-- ===== src/Database/Migrations/Reruns.antt =====
-- migrations.go: RunMigrations ends with the schema that the queries expect, also after a run that
-- was cut short.
use posduif.Common.{
  ℕ, suc, Bool, true, false, ◌≡◌, refl, ap, ◌∙◌, Option, none, some, arith, String,
}
use posduif.Errors.{Error, driver, wrapped, Result, ok, err}
use posduif.Database.{Env}
use posduif.Sync.Manager.Wal.{Quiet}
use posduif.Database.Migrations.{
  Catalog, exists, define, named_error, migration_add_lsn_column, migration_create_lsn_index,
  run_migrations,
}

-- The catalogs that PostgreSQL can hold: an index stands on a column.
abbrev pub IsPossible : Catalog → Type 0
IsPossible c = c.lsn_index ≡ true → c.lsn_column ≡ true

-- How a migration can end: with what it is for and the rest as it was, or with an error.
pub data Migrates (c after : Catalog) (p : Result (Unit {0}) × Catalog) : Type 0 where
  migrated : (n : ℕ) → p ≡ (ok tt, record after { tick = n }) → Migrates c after p
  stopped : (n : ℕ) (e : Error) → p ≡ (err e, record c { tick = n }) → Migrates c after p

module _ (env : Env) where
  add_column_ends :
      (c : Catalog) (f g : Option String) (b : Bool)
      → env.fault c.tick ≡ f
      → env.fault (suc c.tick) ≡ g
      → c.lsn_column ≡ b
      → Migrates c (record c { lsn_column = true }) (migration_add_lsn_column env c)
  unfolding migration_add_lsn_column exists define
  add_column_ends c (some s) g b e h k =
      stopped (suc c.tick) (wrapped "failed to check if column exists" (driver s))
        (ground (arith, e))
  add_column_ends c none g true e h k = migrated (suc c.tick) (ground (arith, e, k))
  add_column_ends c none (some s) false e h k =
      stopped (suc (suc c.tick)) (wrapped "failed to add last_synced_lsn column" (driver s))
        (ground (arith, e, h, k))
  add_column_ends c none none false e h k = migrated (suc (suc c.tick)) (ground (arith, e, h, k))

  add_column-Migrates :
      (c : Catalog) → Migrates c (record c { lsn_column = true }) (migration_add_lsn_column env c)
  add_column-Migrates c = add_column_ends c _ _ _ refl refl refl

  create_index_ends :
      (c : Catalog) (f g : Option String) (b : Bool)
      → env.fault c.tick ≡ f
      → env.fault (suc c.tick) ≡ g
      → c.lsn_index ≡ b
      → c.lsn_column ≡ true
      → Migrates c (record c { lsn_index = true }) (migration_create_lsn_index env c)
  unfolding migration_create_lsn_index exists define
  create_index_ends c (some s) g b e h k l =
      stopped (suc c.tick) (wrapped "failed to check if index exists" (driver s))
        (ground (arith, e))
  create_index_ends c none g true e h k l = migrated (suc c.tick) (ground (arith, e, k))
  create_index_ends c none (some s) false e h k l =
      stopped (suc (suc c.tick)) (wrapped "failed to create LSN index" (driver s))
        (ground (arith, e, h, k))
  create_index_ends c none none false e h k l =
      migrated (suc (suc c.tick)) (ground (arith, e, h, k, l))

-- What a run leaves: nothing is dropped, an index only on the column, and after success both.
pub record Leaves (c : Catalog) (p : Result (Unit {0}) × Catalog) : Type 0 where
  pub possible : IsPossible p.1
  pub keeps_column : c.lsn_column ≡ true → p.1.lsn_column ≡ true
  pub keeps_index : c.lsn_index ≡ true → p.1.lsn_index ≡ true
  pub complete : p.0 ≡ ok tt → (p.1.lsn_column ≡ true) × (p.1.lsn_index ≡ true)

stopped-Leaves :
    (c : Catalog) (n : ℕ) (e : Error) → IsPossible c → Leaves c (err e, record c { tick = n })
stopped-Leaves c n e h = record {
  possible = h;
  keeps_column = λ k. k;
  keeps_index = λ k. k;
  complete = λ k. absurd (ground (arith, k));
}

index-Leaves :
    (env : Env) (c d : Catalog) (q : Result (Unit {0}) × Catalog)
    → IsPossible c
    → d.lsn_column ≡ true
    → d.lsn_index ≡ c.lsn_index
    → migration_create_lsn_index env d ≡ q
    → Migrates d (record d { lsn_index = true }) q
    → Leaves c (named_error "migration 2 failed" q)
index-Leaves env c d q h column same e (migrated n k) = rw k (record {
  possible = λ _. column;
  keeps_column = λ _. column;
  keeps_index = λ _. refl;
  complete = λ _. (column, refl);
})
index-Leaves env c d q h column same e (stopped n x k) = rw k (record {
  possible = λ _. column;
  keeps_column = λ _. column;
  keeps_index = λ i. same ∙ i;
  complete = λ z. absurd (ground (arith, z));
})

run-Leaves :
    (env : Env) (c : Catalog) (q : Result (Unit {0}) × Catalog)
    → IsPossible c
    → migration_add_lsn_column env c ≡ q
    → Migrates c (record c { lsn_column = true }) q
    → Leaves c (run_migrations env c)
unfolding run_migrations
run-Leaves env c q h e (migrated n k) =
    let d = record c { lsn_column = true; tick = n } in
    rw (e, run_migrations)
      (rw k (
        index-Leaves env c d _ h refl refl refl
          (create_index_ends env d _ _ _ refl refl refl refl)))
run-Leaves env c q h e (stopped n x k) =
    rw (e, run_migrations) (rw k (stopped-Leaves c n (wrapped "migration 1 failed" x) h))

-- RunMigrations against any database, also one that fails in between: the column and the index,
-- once there, stay, the index is never without the column, and if the run returns nil then both
-- are there.
pub run_migrations-Leaves :
    (env : Env) (c : Catalog) → IsPossible c → Leaves c (run_migrations env c)
run_migrations-Leaves env c h = run-Leaves env c _ h refl (add_column-Migrates env c)

module _ (env : Env) (quiet : Quiet env) where
  quiet_add :
      (c : Catalog) (b : Bool) → c.lsn_column ≡ b → (migration_add_lsn_column env c).0 ≡ ok tt
  unfolding migration_add_lsn_column exists define
  quiet_add c true e = ground (arith, quiet c.tick)
  quiet_add c false e = ground (arith, quiet c.tick, quiet (suc c.tick))

  quiet_create :
      (c : Catalog) (b : Bool)
      → c.lsn_index ≡ b
      → c.lsn_column ≡ true
      → (migration_create_lsn_index env c).0 ≡ ok tt
  unfolding migration_create_lsn_index exists define
  quiet_create c true e k = ground (arith, quiet c.tick)
  quiet_create c false e k = ground (arith, quiet c.tick, quiet (suc c.tick))

  quiet_run_by :
      (c : Catalog) (q : Result (Unit {0}) × Catalog)
      → migration_add_lsn_column env c ≡ q
      → Migrates c (record c { lsn_column = true }) q
      → (run_migrations env c).0 ≡ ok tt
  unfolding run_migrations
  quiet_run_by c q e (migrated n k) =
      let d = record c { lsn_column = true; tick = n } in
      rw (e, run_migrations) (rw k (ground (arith, quiet_create d _ refl refl)))
  quiet_run_by c q e (stopped n x k) =
      absurd (ground (arith, quiet_add c _ refl, ap (λ p. p.0) (e ∙ k)))

  pub quiet_run : (c : Catalog) → (run_migrations env c).0 ≡ ok tt
  quiet_run c = quiet_run_by c _ refl (add_column-Migrates env c)

-- A run that was cut short is made good by the next: whatever a first run met, RunMigrations then
-- succeeds against a working database, and both the column and the index are there.
pub rerun_completes :
    (env env' : Env) (c : Catalog)
    → IsPossible c
    → Quiet env'
    → ((run_migrations env' (run_migrations env c).1).0 ≡ ok tt)
      × ((run_migrations env' (run_migrations env c).1).1.lsn_column ≡ true)
      × ((run_migrations env' (run_migrations env c).1).1.lsn_index ≡ true)
rerun_completes env env' c h quiet =
    let first = run_migrations-Leaves env c h in
    let second = run_migrations-Leaves env' (run_migrations env c).1 first.possible in
    let done = quiet_run env' quiet (run_migrations env c).1 in
    (done, (second.complete done).0, (second.complete done).1)
