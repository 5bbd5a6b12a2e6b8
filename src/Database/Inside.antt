-- ===== src/Database/Inside.antt =====
-- Transactions: relations on tables, along the statements of a body that all run on the transaction.
use posduif.Common.{ℕ, String, Bool, true, false, ◌≡◌, refl, sym, subst, ◌∙◌, arith, if◌then◌else◌}
use posduif.Errors.{Error, Result, ok, err}
use posduif.Database.{
  Env, Tables, TxState, Tx, pure, raise, attempt, errorf, wrap_result, continue, ◌>>=◌, now,
  new_uuid, tx_query, tx_exec, outside,
}
use posduif.Database.Statements.{TxEnds, took_in, failed_in, tx_exec-TxEnds}

-- A relation on tables that holds along runs.
pub record TableOrder : Type 1 where
  pub R : Tables → Tables → Type 0
  pub same : (t : Tables) → R t t
  pub chain : (t u v : Tables) → R t u → R u v → R t v

module _ (o : TableOrder) where
  -- A statement that moves the tables along the relation, if it takes effect.
  abbrev pub Moves : {A : Type 0} → (ℕ → String → Tables → Result (A × Tables)) → Type 0
  Moves {A} statement =
      (now : ℕ) (fresh : String) (t t' : Tables) (a : A)
      → statement now fresh t ≡ ok (a, t')
      → o.R t t'

  -- From one state to the next: what the transaction sees moves along the relation, and the tables
  -- outside it stay.
  pub record Goes (s s' : TxState) : Type 0 where
    pub along : o.R s.inner s'.inner
    pub world : s'.world.tables ≡ s.world.tables

  pub record Inside {A : Type 0} (m : Tx A) : Type 0 where
    pub at : (s : TxState) → Goes s (m s).1

tx_query-same :
    {A : Type 0} (env : Env) (q : Tables → Result A) (s : TxState)
    → ((tx_query env q s).1.inner ≡ s.inner) × ((tx_query env q s).1.world.tables ≡ s.world.tables)
unfolding tx_query
tx_query-same env q s = (ground arith, ground arith)

wrap-state : {A : Type 0} (s : String) (p : Result A × TxState) → (wrap_result s p).1 ≡ p.1
wrap-state s (ok a, u) = refl
wrap-state s (err e, u) = refl

module _ {o : TableOrder} where
  stays : (s s' : TxState) → s'.inner ≡ s.inner → s'.world.tables ≡ s.world.tables → Goes o s s'
  stays s s' e k = record { along = subst (o.R s.inner) (sym e) (o.same s.inner); world = k }

  ends-Inside :
      {A : Type 0} (env : Env) (statement : ℕ → String → Tables → Result (A × Tables)) (s : TxState)
      (p : Result A × TxState)
      → Moves o statement
      → TxEnds env statement s p
      → Goes o s p.1
  ends-Inside env statement s p moves (took_in a t h e) =
      rw e (record { along = moves _ _ s.inner t a h; world = refl })
  ends-Inside env statement s p moves (failed_in x e) = rw e (stays s _ refl refl)

  continue-Inside :
      {A B : Type 0} (s : TxState) (p : Result A × TxState) (f : A → Tx B)
      → Goes o s p.1
      → ((a : A) → Inside o (f a))
      → Goes o s (continue p f).1
  continue-Inside s (ok a, u) f h k =
      let g = (k a).at u in
      record { along = o.chain s.inner u.inner _ h.along g.along; world = g.world ∙ h.world }
  continue-Inside s (err e, u) f h k = h

  pub pure-Inside : {A : Type 0} (a : A) → Inside o (pure a)
  pure-Inside a = record { at = λ s. stays s s refl refl }

  pub raise-Inside : (A : Type 0) (e : Error) → Inside o {A = A} (raise e)
  raise-Inside A e = record { at = λ s. stays s s refl refl }

  pub now-Inside : (env : Env) → Inside o (outside (now env))
  unfolding now
  now-Inside env = record { at = λ s. stays s _ refl refl }

  pub new_uuid-Inside : (env : Env) → Inside o (outside (new_uuid env))
  unfolding new_uuid
  new_uuid-Inside env = record { at = λ s. stays s _ refl refl }

  pub tx_query-Inside : {A : Type 0} (env : Env) (q : Tables → Result A) → Inside o (tx_query env q)
  tx_query-Inside env q = record {
    at = λ s. stays s _ (tx_query-same env q s).0 (tx_query-same env q s).1;
  }

  pub tx_exec-Inside :
      {A : Type 0} (env : Env) (statement : ℕ → String → Tables → Result (A × Tables))
      → Moves o statement
      → Inside o (tx_exec env statement)
  tx_exec-Inside env statement moves = record {
    at = λ s. ends-Inside env statement s _ moves (tx_exec-TxEnds env statement s);
  }

  pub bind-Inside :
      {A B : Type 0} {m : Tx A} {f : A → Tx B}
      → Inside o m
      → ((a : A) → Inside o (f a))
      → Inside o (m >>= f)
  bind-Inside {m} {f} h k = record { at = λ s. continue-Inside s (m s) f (h.at s) k }

  pub attempt-Inside : {A : Type 0} {m : Tx A} → Inside o m → Inside o (attempt m)
  attempt-Inside h = record { at = λ s. h.at s }

  pub errorf-Inside : {A : Type 0} (s : String) {m : Tx A} → Inside o m → Inside o (errorf s m)
  errorf-Inside s {m} h = record { at = λ u. subst (Goes o u) (sym (wrap-state s (m u))) (h.at u) }

  pub if-Inside :
      {A : Type 0} (b : Bool) {m n : Tx A} → Inside o m → Inside o n → Inside o (if b then m else n)
  if-Inside true h k = h
  if-Inside false h k = k
