-- ===== src/Database/Migrations.antt =====
-- sync-engine/internal/database/migrations.go, on the part of the catalog that the migrations ask
-- for: the column last_synced_lsn of sync_metadata, and the index on it.
pub mod Reruns
use posduif.Common.{ℕ, suc, Bool, true, false, Option, none, some, if◌then◌else◌, String}
use posduif.Errors.{Error, message, wrapped, driver, Result, ok, err}
use posduif.Database.{Env}

pub record Catalog : Type 0 where
  pub lsn_column : Bool
  pub lsn_index : Bool
  pub tick : ℕ

abbrev pub Step : Type 0 → Type 0
Step A = Catalog → Result A × Catalog

abbrev pub spent : Catalog → Catalog
spent c = record c { tick = suc c.tick }

abbrev pub then_do : {A B : Type 0} → Result A × Catalog → (A → Step B) → Result B × Catalog
then_do (ok a, c) f = f a c
then_do (err e, c) f = (err e, c)

abbrev pub named_error : {A : Type 0} → String → Result A × Catalog → Result A × Catalog
named_error s (ok a, c) = (ok a, c)
named_error s (err e, c) = (err (wrapped s e), c)

abbrev pub settled : Catalog → Result Catalog → Result (Unit {0}) × Catalog
settled c (ok c') = (ok tt, spent c')
settled c (err e) = (err e, spent c)

-- What PostgreSQL answers to ALTER TABLE … ADD COLUMN and to CREATE INDEX.
abbrev pub add_column : Catalog → Result Catalog
add_column c =
    if c.lsn_column
    then err (message "column already exists")
    else ok (record c { lsn_column = true })

abbrev pub create_index : Catalog → Result Catalog
create_index c =
    if c.lsn_index
    then err (message "relation already exists")
    else if c.lsn_column
    then ok (record c { lsn_index = true })
    else err (message "column does not exist")

module _ (env : Env) where
  -- SELECT EXISTS
  unfoldable pub exists : (Catalog → Bool) → Step Bool
  exists test c = elim (env.fault c.tick) [
    | none ↦ (ok (test c), spent c)
    | some s ↦ (err (driver s), spent c)
  ]

  -- Exec of a statement on the catalog
  unfoldable pub define : (Catalog → Result Catalog) → Step (Unit {0})
  define statement c = elim (env.fault c.tick) [
    | none ↦ settled c (statement c)
    | some s ↦ (err (driver s), spent c)
  ]

  abbrev pub add_if_missing : Bool → Step (Unit {0})
  add_if_missing true c = (ok tt, c)
  add_if_missing false c = named_error "failed to add last_synced_lsn column" (define add_column c)

  -- migrationAddLSNColumn
  unfoldable pub migration_add_lsn_column : Step (Unit {0})
  migration_add_lsn_column c =
      then_do (named_error "failed to check if column exists" (exists (λ k. k.lsn_column) c))
        add_if_missing

  abbrev pub create_if_missing : Bool → Step (Unit {0})
  create_if_missing true c = (ok tt, c)
  create_if_missing false c = named_error "failed to create LSN index" (define create_index c)

  -- migrationCreateLSNIndex
  unfoldable pub migration_create_lsn_index : Step (Unit {0})
  migration_create_lsn_index c =
      then_do (named_error "failed to check if index exists" (exists (λ k. k.lsn_index) c))
        create_if_missing

  -- RunMigrations
  unfoldable pub run_migrations : Step (Unit {0})
  run_migrations c =
      then_do (named_error "migration 1 failed" (migration_add_lsn_column c))
        λ _ d. named_error "migration 2 failed" (migration_create_lsn_index d)
