-- ===== src/Database.antt =====
-- The connection of the sync engine to PostgreSQL (sync-engine/internal/database/postgres.go),
-- and the state that its handlers and its background reader share: the tables, the queues of
-- the change tracker, and a counter of the interactions with the outside.
-- What is not under the repository is the parameter `Env`: the clock, the source of UUIDs, the
-- failures of the connection, the texts of PostgreSQL's refusals, its syntax of UUIDs, what a
-- TIMESTAMP column keeps of an instant of the program, whose zone the driver drops (the same
-- instant where the process runs in UTC), and whether a Commit took effect whose answer was lost.
-- The clock, the UUIDs and the failures may differ at each interaction. A statement that fails has
-- no effect.
pub mod Schema
pub mod Users
pub mod Messages
pub mod Tokens
pub mod Metadata
pub mod Statements
pub mod Inside
pub mod Slots
pub mod Migrations
use posduif.Common.{ℕ, suc, if◌then◌else◌, ◌≡◌, String, Bool, Option, none, some, List}
use posduif.Common.Dict.{Dict}
use posduif.Models.{User, Message, EnrollmentToken, SyncMetadata, WalChange}
use posduif.Errors.{Violation, Error, no_rows, driver, wrapped, Result, ok, err}

pub record Env : Type 0 where
  pub time : ℕ → ℕ
  pub uuid : ℕ → String
  pub fault : ℕ → Option String
  pub violation : Violation → String
  pub is_uuid : String → Bool
  pub stamp : ℕ → ℕ
  pub commits : ℕ → Bool

pub record Tables : Type 0 where
  pub users : List User
  pub messages : List Message
  pub tokens : List EnrollmentToken
  pub metadata : List SyncMetadata

-- `changes` is the map of the change tracker, from device ids to queues.
pub record World : Type 0 where
  pub tables : Tables
  pub changes : Dict (List WalChange)
  pub tick : ℕ

-- A transaction: the tables as its own statements see and change them, and the world outside.
pub record TxState : Type 0 where
  pub inner : Tables
  pub world : World

-- An action on the connection pool, and one in a transaction. The combinators serve both.
abbrev pub M : Type 0 → Type 0
M A = World → Result A × World

abbrev pub Tx : Type 0 → Type 0
Tx A = TxState → Result A × TxState

abbrev pub pure : {S A : Type 0} → A → S → Result A × S
pure a w = (ok a, w)

abbrev pub raise : {S A : Type 0} → Error → S → Result A × S
raise e w = (err e, w)

abbrev pub continue : {S A B : Type 0} → Result A × S → (A → S → Result B × S) → Result B × S
continue (ok a, w) f = f a w
continue (err e, w) f = (err e, w)

infixl 5 ◌>>=◌ ◌>>◌
abbrev pub ◌>>=◌ : {S A B : Type 0} → (S → Result A × S) → (A → S → Result B × S) → S → Result B × S
◌>>=◌ m f w = continue (m w) f

abbrev pub ◌>>◌ :
    {S B : Type 0} → (S → Result (Unit {0}) × S) → (S → Result B × S) → S → Result B × S
m >> k = m >>= λ _. k

abbrev pub hand_back : {S A : Type 0} → Result A × S → Result (Result A) × S
hand_back (r, w) = (ok r, w)

-- A call whose error the caller looks at, or ignores.
abbrev pub attempt : {S A : Type 0} → (S → Result A × S) → S → Result (Result A) × S
attempt m w = hand_back (m w)

abbrev pub wrap_result : {S A : Type 0} → String → Result A × S → Result A × S
wrap_result s (ok a, w) = (ok a, w)
wrap_result s (err e, w) = (err (wrapped s e), w)

-- if err != nil { return fmt.Errorf("s: %w", err) }
abbrev pub errorf : {S A : Type 0} → String → (S → Result A × S) → S → Result A × S
errorf s m w = wrap_result s (m w)

abbrev pub advance : World → World
advance w = record w { tick = suc w.tick }

abbrev pub back_in : {A : Type 0} → Tables → Result A × World → Result A × TxState
back_in t (r, w) = (r, record { inner = t; world = w })

-- What is not a call on the transaction: the clock, a UUID, or a statement on the pool, which
-- takes effect whatever becomes of the transaction.
abbrev pub outside : {A : Type 0} → M A → Tx A
outside m s = back_in s.inner (m s.world)

module _ (env : Env) where
  -- time.Now()
  unfoldable pub now : M ℕ
  now w = (ok (env.time w.tick), advance w)

  -- uuid.New().String()
  unfoldable pub new_uuid : M String
  new_uuid w = (ok (env.uuid w.tick), advance w)

  -- QueryRow or Query with Scan: a read.
  unfoldable pub query : {A : Type 0} → (Tables → Result A) → M A
  query q w = elim (env.fault w.tick) [
    | none ↦ (q w.tables, advance w)
    | some s ↦ (err (driver s), advance w)
  ]

  abbrev pub settle : {A : Type 0} → World → Result (A × Tables) → Result A × World
  settle w (ok (a, t)) = (ok a, record w { tables = t; tick = suc w.tick })
  settle w (err e) = (err e, advance w)

  -- Exec, or QueryRow with RETURNING: a statement that writes, given NOW() and the value that
  -- gen_random_uuid() would give.
  unfoldable pub exec : {A : Type 0} → (ℕ → String → Tables → Result (A × Tables)) → M A
  exec statement w = elim (env.fault w.tick) [
    | none ↦ settle w (statement (env.time w.tick) (env.uuid w.tick) w.tables)
    | some s ↦ (err (driver s), advance w)
  ]

  abbrev pub advance_tx : TxState → TxState
  advance_tx s = record s { world = advance s.world }

  -- tx.QueryRow with Scan: a read of what the transaction sees.
  unfoldable pub tx_query : {A : Type 0} → (Tables → Result A) → Tx A
  tx_query q s = elim (env.fault s.world.tick) [
    | none ↦ (q s.inner, advance_tx s)
    | some x ↦ (err (driver x), advance_tx s)
  ]

  abbrev pub settle_tx : {A : Type 0} → TxState → Result (A × Tables) → Result A × TxState
  settle_tx s (ok (a, t)) = (ok a, record { inner = t; world = advance s.world })
  settle_tx s (err e) = (err e, advance_tx s)

  -- tx.Exec, or tx.QueryRow with RETURNING: a write that only the transaction sees.
  unfoldable pub tx_exec : {A : Type 0} → (ℕ → String → Tables → Result (A × Tables)) → Tx A
  tx_exec statement s = elim (env.fault s.world.tick) [
    | none ↦ settle_tx s (statement (env.time s.world.tick) (env.uuid s.world.tick) s.inner)
    | some x ↦ (err (driver x), advance_tx s)
  ]

  -- The end of a transaction: Commit after success, else the deferred Rollback, which forgets what
  -- the transaction wrote. A Commit that fails may have taken effect all the same, where only its
  -- answer was lost.
  abbrev pub finish : {A : Type 0} → Result A × TxState → Result A × World
  finish (err e, s) = (err e, s.world)
  finish (ok a, s) = elim (env.fault s.world.tick) [
    | none ↦ (ok a, record s.world { tables = s.inner; tick = suc s.world.tick })
    | some x ↦ (
      err (wrapped "failed to commit transaction" (driver x)),
      record s.world {
        tables = if env.commits s.world.tick then s.inner else s.world.tables;
        tick = suc s.world.tick;
      },
    )
  ]

  -- Pool.Begin, the body at the transaction's NOW(), and its end.
  unfoldable pub transaction : {A : Type 0} → (ℕ → Tx A) → M A
  transaction body w = elim (env.fault w.tick) [
    | none ↦ finish (body (env.time w.tick) (record { inner = w.tables; world = advance w }))
    | some s ↦ (err (driver s), advance w)
  ]

-- The first row of a result, or pgx.ErrNoRows.
abbrev pub first_row : {A : Type 0} → Option A → Result A
first_row none = err no_rows
first_row (some a) = ok a

-- A write whose result is only its error.
abbrev pub done : Tables → Result (Unit {0} × Tables)
done t = ok (tt, t)
