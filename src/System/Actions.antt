-- ===== src/System/Actions.antt =====
-- Actions that move the tables along a relation: what the programs of both servers are built of.
use posduif.Common.{
  ℕ, String, Bool, true, false, inl, inr, ◌≡◌, refl, ap, ◌∙◌, sym, subst, arith, if◌then◌else◌,
}
use posduif.Errors.{Error, Result, ok, err}
use posduif.Database.{
  Env, World, Tables, M, Tx, pure, raise, attempt, errorf, ◌>>=◌, continue, wrap_result, now,
  new_uuid, query, exec, transaction,
}
pub use posduif.Database.Inside.{TableOrder, Moves}
use posduif.Database.Inside.{Inside}
use posduif.Database.Statements.{
  Ends, took, failed, exec-Ends, begun, Commits, committed, undecided, rolled_back, not_begun,
  transaction-Commits,
}

module _ (o : TableOrder) where
  -- An action moves the tables along the relation, whether it succeeds or fails.
  pub record Within {A : Type 0} (m : M A) : Type 0 where
    pub at : (w : World) → o.R w.tables (m w).1.tables

module _ (o : TableOrder) where
  pub same_tables : (t t' : Tables) → t' ≡ t → o.R t t'
  same_tables t t' e = subst (o.R t) (sym e) (o.same t)

  query-tables :
      {A : Type 0} (env : Env) (q : Tables → Result A) (w : World)
      → (query env q w).1.tables ≡ w.tables
  unfolding query
  query-tables env q w = ground arith

  ends-Within :
      {A : Type 0} (env : Env) (statement : ℕ → String → Tables → Result (A × Tables)) (w : World)
      (p : Result A × World)
      → Moves o statement
      → Ends env statement w p
      → o.R w.tables p.1.tables
  ends-Within env statement w p moves (took a t h e) = rw e (moves _ _ w.tables t a h)
  ends-Within env statement w p moves (failed x e) = rw e (o.same w.tables)

  continue-Within :
      {A B : Type 0} (t : Tables) (p : Result A × World) (f : A → M B)
      → o.R t p.1.tables
      → ((a : A) → Within o (f a))
      → o.R t (continue p f).1.tables
  continue-Within t (ok a, w) f h k = o.chain t w.tables _ h ((k a).at w)
  continue-Within t (err e, w) f h k = h

  wrap-tables :
      {A : Type 0} (s : String) (p : Result A × World) → (wrap_result s p).1.tables ≡ p.1.tables
  wrap-tables s (ok a, w) = refl
  wrap-tables s (err e, w) = refl

  commits-Within :
      {A : Type 0} (env : Env) (body : ℕ → Tx A) (w : World) (p : Result A × World)
      → ((t : ℕ) → Inside o (body t))
      → Commits env body w p
      → o.R w.tables p.1.tables
  commits-Within env body w p h (committed a s e k) =
      rw k (subst (λ q. o.R w.tables q.1.inner) e ((h (env.time w.tick)).at (begun w)).along)
  commits-Within env body w p h (undecided a s x e k (inl same)) =
      rw same (subst (λ q. o.R w.tables q.1.inner) e ((h (env.time w.tick)).at (begun w)).along)
  commits-Within env body w p h (undecided a s x e k (inr same)) =
      same_tables w.tables _
        (same ∙ ap (λ q. q.1.world.tables) (sym e) ∙ ((h (env.time w.tick)).at (begun w)).world)
  commits-Within env body w p h (rolled_back x s e k same) =
      same_tables w.tables _
        (same ∙ ap (λ q. q.1.world.tables) (sym e) ∙ ((h (env.time w.tick)).at (begun w)).world)
  commits-Within env body w p h (not_begun e k same) = same_tables w.tables _ same

module _ {o : TableOrder} where
  pub pure-Within : {A : Type 0} (a : A) → Within o (pure a)
  pure-Within a = record { at = λ w. o.same w.tables }

  pub raise-Within : (A : Type 0) (e : Error) → Within o {A = A} (raise e)
  raise-Within A e = record { at = λ w. o.same w.tables }

  pub now-Within : (env : Env) → Within o (now env)
  unfolding now
  now-Within env = record { at = λ w. o.same w.tables }

  pub new_uuid-Within : (env : Env) → Within o (new_uuid env)
  unfolding new_uuid
  new_uuid-Within env = record { at = λ w. o.same w.tables }

  pub query-Within : {A : Type 0} (env : Env) (q : Tables → Result A) → Within o (query env q)
  query-Within env q = record { at = λ w. same_tables o w.tables _ (query-tables o env q w) }

  pub exec-Within :
      {A : Type 0} (env : Env) (statement : ℕ → String → Tables → Result (A × Tables))
      → Moves o statement
      → Within o (exec env statement)
  exec-Within env statement moves = record {
    at = λ w. ends-Within o env statement w _ moves (exec-Ends env statement w);
  }

  pub bind-Within :
      {A B : Type 0} {m : M A} {f : A → M B}
      → Within o m
      → ((a : A) → Within o (f a))
      → Within o (m >>= f)
  bind-Within {m} {f} h k = record { at = λ w. continue-Within o w.tables (m w) f (h.at w) k }

  pub attempt-Within : {A : Type 0} {m : M A} → Within o m → Within o (attempt m)
  attempt-Within h = record { at = λ w. h.at w }

  pub errorf-Within : {A : Type 0} (s : String) {m : M A} → Within o m → Within o (errorf s m)
  errorf-Within s {m} h = record {
    at = λ w. subst (o.R w.tables) (sym (wrap-tables o s (m w))) (h.at w);
  }

  pub transaction-Within :
      {A : Type 0} (env : Env) (body : ℕ → Tx A)
      → ((t : ℕ) → Inside o (body t))
      → Within o (transaction env body)
  transaction-Within env body h = record {
    at = λ w. commits-Within o env body w _ h (transaction-Commits env body w);
  }

  pub if-Within :
      {A : Type 0} (b : Bool) {m n : M A} → Within o m → Within o n → Within o (if b then m else n)
  if-Within true h k = h
  if-Within false h k = k
