-- ===== src/Database/Statements.antt =====
-- postgres.go: the ways in which a statement or a transaction can end.
use posduif.Common.{
  ℕ, suc, String, Bool, true, false, ◌≡◌, refl, ◌⊎◌, inl, inr, Option, none, some, arith,
}
use posduif.Errors.{Error, Result, ok, err, driver, wrapped}
use posduif.Database.{Env, World, Tables, Tx, TxState, advance, exec, tx_exec, transaction}

-- The state in which the body of a transaction begins.
abbrev pub begun : World → TxState
begun w = record { inner = w.tables; world = advance w }

module _ {A : Type 0} (env : Env) where
  -- A write took effect, or failed and changed nothing but the counter.
  pub data Ends (statement : ℕ → String → Tables → Result (A × Tables)) (w : World)
      (p : Result A × World) : Type 0 where
    took :
        (a : A) (t : Tables)
        → statement (env.time w.tick) (env.uuid w.tick) w.tables ≡ ok (a, t)
        → p ≡ (ok a, record w { tables = t; tick = suc w.tick })
        → Ends statement w p
    failed : (e : Error) → p ≡ (err e, advance w) → Ends statement w p

  ends :
      (statement : ℕ → String → Tables → Result (A × Tables)) (w : World) (f : Option String)
      (r : Result (A × Tables))
      → env.fault w.tick ≡ f
      → statement (env.time w.tick) (env.uuid w.tick) w.tables ≡ r
      → Ends statement w (exec env statement w)
  unfolding exec
  ends statement w none (ok (a, t)) up h = took a t h (ground arith)
  ends statement w none (err e) up h = failed e (ground arith)
  ends statement w (some s) r down h = failed (driver s) (ground arith)

  pub exec-Ends :
      (statement : ℕ → String → Tables → Result (A × Tables)) (w : World)
      → Ends statement w (exec env statement w)
  exec-Ends statement w = ends statement w _ _ refl refl

  -- A write in a transaction, likewise.
  pub data TxEnds (statement : ℕ → String → Tables → Result (A × Tables)) (s : TxState)
      (p : Result A × TxState) : Type 0 where
    took_in :
        (a : A) (t : Tables)
        → statement (env.time s.world.tick) (env.uuid s.world.tick) s.inner ≡ ok (a, t)
        → p ≡ (ok a, record { inner = t; world = advance s.world })
        → TxEnds statement s p
    failed_in :
        (e : Error) → p ≡ (err e, record s { world = advance s.world }) → TxEnds statement s p

  tx_ends :
      (statement : ℕ → String → Tables → Result (A × Tables)) (s : TxState) (f : Option String)
      (r : Result (A × Tables))
      → env.fault s.world.tick ≡ f
      → statement (env.time s.world.tick) (env.uuid s.world.tick) s.inner ≡ r
      → TxEnds statement s (tx_exec env statement s)
  unfolding tx_exec
  tx_ends statement s none (ok (a, t)) up h = took_in a t h (ground arith)
  tx_ends statement s none (err e) up h = failed_in e (ground arith)
  tx_ends statement s (some x) r down h = failed_in (driver x) (ground arith)

  pub tx_exec-TxEnds :
      (statement : ℕ → String → Tables → Result (A × Tables)) (s : TxState)
      → TxEnds statement s (tx_exec env statement s)
  tx_exec-TxEnds statement s = tx_ends statement s _ _ refl refl

  -- A transaction whose body and commit succeed leaves what its body wrote; one whose commit fails
  -- leaves that or nothing of it; after any other error nothing of it stays.
  pub data Commits (body : ℕ → Tx A) (w : World) (p : Result A × World) : Type 0 where
    committed :
        (a : A) (s : TxState)
        → body (env.time w.tick) (begun w) ≡ (ok a, s)
        → p ≡ (ok a, record s.world { tables = s.inner; tick = suc s.world.tick })
        → Commits body w p
    undecided :
        (a : A) (s : TxState) (x : String)
        → body (env.time w.tick) (begun w) ≡ (ok a, s)
        → p.0 ≡ err (wrapped "failed to commit transaction" (driver x))
        → (p.1.tables ≡ s.inner) ⊎ (p.1.tables ≡ s.world.tables)
        → Commits body w p
    rolled_back :
        (e : Error) (s : TxState)
        → body (env.time w.tick) (begun w) ≡ (err e, s)
        → p.0 ≡ err e
        → p.1.tables ≡ s.world.tables
        → Commits body w p
    not_begun : (e : Error) → p.0 ≡ err e → p.1.tables ≡ w.tables → Commits body w p

  commits :
      (body : ℕ → Tx A) (w : World) (f : Option String) (r : Result A) (s : TxState)
      (g : Option String) (b : Bool)
      → env.fault w.tick ≡ f
      → body (env.time w.tick) (begun w) ≡ (r, s)
      → env.fault s.world.tick ≡ g
      → env.commits s.world.tick ≡ b
      → Commits body w (transaction env body w)
  unfolding transaction
  commits body w none (ok a) s none b up h k l = committed a s h (ground arith)
  commits body w none (ok a) s (some x) true up h k l =
      undecided a s x h (ground arith) (inl (ground arith))
  commits body w none (ok a) s (some x) false up h k l =
      undecided a s x h (ground arith) (inr (ground arith))
  commits body w none (err e) s g b up h k l = rolled_back e s h (ground arith) (ground arith)
  commits body w (some x) r s g b down h k l = not_begun (driver x) (ground arith) (ground arith)

  pub transaction-Commits : (body : ℕ → Tx A) (w : World) → Commits body w (transaction env body w)
  transaction-Commits body w =
      commits body w _ (body (env.time w.tick) (begun w)).0 (body (env.time w.tick) (begun w)).1 _ _
        refl refl refl refl
