-- ===== src/Database/Tokens/Atomic.antt =====
-- queries.go: what a failed CompleteEnrollment leaves.
use posduif.Common.{ℕ, String, true, ◌≡◌, ap, sym, ◌∙◌, ◌⊎◌, inl, inr, map, any, arith}
use posduif.Errors.{Error, Result, err, driver, wrapped}
use posduif.Database.{Env, World, Tables}
use posduif.Database.Statements.{
  begun, Commits, committed, undecided, rolled_back, not_begun, transaction-Commits,
}
use posduif.Database.Tokens.{is_usable, mark_used, enrollment_body, complete_enrollment}
use posduif.Database.Tokens.Body.{enrollment_body-world, enrollment_body-Redeems}

-- The answer of a Commit was lost, and the tables are as before but for the whole enrollment.
pub record Unanswered (at : ℕ) (device token : String) (t t' : Tables) (e : Error) : Type 0 where
  pub cause : String
  pub error : e ≡ wrapped "failed to commit transaction" (driver cause)
  pub usable : any (is_usable at token) t.tokens ≡ true
  pub marked : t'.tokens ≡ map (mark_used at device token) t.tokens

same_error : {A : Type 0} {r : Result A} {e x : Error} → r ≡ err e → r ≡ err x → e ≡ x
same_error h k = cc

atomic :
    (env : Env) (token device name : String) (w : World) (p : Result String × World) (e : Error)
    → Commits env (enrollment_body env token device name) w p
    → p.0 ≡ err e
    → (p.1.tables ≡ w.tables) ⊎ Unanswered (env.time w.tick) device token w.tables p.1.tables e
atomic env token device name w p e (committed a s h q) fails = absurd (ground arith)
atomic env token device name w p e (not_begun x q same) fails = inl same
atomic env token device name w p e (rolled_back x s h q same) fails = inl (
    same
    ∙ ap (λ r. r.1.world.tables) (sym h)
    ∙ enrollment_body-world env token device name (env.time w.tick) (begun w))
atomic env token device name w p e (undecided a s x h q (inr same)) fails = inl (
    same
    ∙ ap (λ r. r.1.world.tables) (sym h)
    ∙ enrollment_body-world env token device name (env.time w.tick) (begun w))
atomic env token device name w p e (undecided a s x h q (inl same)) fails =
    let r = enrollment_body-Redeems env token device name (env.time w.tick) a (begun w) s h in
    inr (record {
      cause = x;
      error = same_error fails q;
      usable = r.usable;
      marked = ap (λ t. t.tokens) same ∙ r.marked;
    })

-- A CompleteEnrollment that reports an error, at whatever statement it arose, has used up no token
-- and created or changed no user: every table is as it was, since all its statements run on the
-- transaction. There is one other case: the error is that of the Commit, whose answer was lost
-- after it took effect; then the token was usable, and exactly the matching tokens are marked as
-- used by the device.
pub complete_enrollment_atomic :
    (env : Env) (token device username : String) (w : World) (e : Error)
    → (complete_enrollment env token device username w).0 ≡ err e
    → ((complete_enrollment env token device username w).1.tables ≡ w.tables)
      ⊎ Unanswered
          (env.time w.tick)
          device
          token
          w.tables
          (complete_enrollment env token device username w).1.tables
          e
unfolding complete_enrollment
complete_enrollment_atomic env token device username w e fails =
    atomic env token device username w _ e
      (transaction-Commits env (enrollment_body env token device username) w) fails
