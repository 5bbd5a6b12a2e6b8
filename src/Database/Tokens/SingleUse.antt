-- ===== src/Database/Tokens/SingleUse.antt =====
-- queries.go: CompleteEnrollment succeeds at most once for a token.
use posduif.Common.{
  ℕ, ◌≤◌, String, true, false, ◌≡◌, refl, ap, sym, subst, ◌∙◌, List, [], ◌∷◌, map, arith, any,
}
use posduif.Models.{EnrollmentToken}
use posduif.Errors.{Error, Result, ok, err}
use posduif.Database.{Env, World}
use posduif.Database.Statements.{
  begun, Commits, committed, undecided, rolled_back, not_begun, transaction-Commits,
}
use posduif.Database.Tokens.{is_usable, mark_used, enrollment_body, complete_enrollment}
use posduif.Database.Tokens.Body.{Redeems, enrollment_body-world, enrollment_body-Redeems}

-- A used token, and an expired one, stays unusable.
used_up :
    (at later : ℕ) (device token : String) (ts : List EnrollmentToken)
    → at ≤ later
    → any (is_usable later token) (map (mark_used at device token) ts) ≡ false
used_up at later device token [] h = refl
used_up at later device token (t ∷ ts) h = ground (arith, used_up at later device token ts h)

commit-Redeems :
    (env : Env) (token device username id : String) (w w' : World)
    → Commits env (enrollment_body env token device username) w (ok id, w')
    → Redeems (env.time w.tick) device token w.tables w'.tables
commit-Redeems env token device username id w w' (committed a s h q) =
    let r = enrollment_body-Redeems env token device username (env.time w.tick) a (begun w) s h in
    record { usable = r.usable; marked = ap (λ x. x.1.tables.tokens) q ∙ r.marked }
commit-Redeems env token device username id w w' (undecided a s x h q same) = absurd (ground arith)
commit-Redeems env token device username id w w' (rolled_back e s h q same) = absurd (ground arith)
commit-Redeems env token device username id w w' (not_begun e q same) = absurd (ground arith)

redeems :
    (env : Env) (token device username id : String) (w w' : World)
    → complete_enrollment env token device username w ≡ (ok id, w')
    → Redeems (env.time w.tick) device token w.tables w'.tables
unfolding complete_enrollment
redeems env token device username id w w' e = commit-Redeems env token device username id w w' (
    subst (Commits env (enrollment_body env token device username) w) e
      (transaction-Commits env (enrollment_body env token device username) w))

-- A successful CompleteEnrollment found an unused token that had not expired when the transaction
-- began, and has marked exactly the matching tokens as used by the device; the other tokens stay.
pub complete_enrollment_redeems :
    (env : Env) (token device username id : String) (w w' : World)
    → complete_enrollment env token device username w ≡ (ok id, w')
    → (any (is_usable (env.time w.tick) token) w.tables.tokens ≡ true)
      × (w'.tables.tokens ≡ map (mark_used (env.time w.tick) device token) w.tables.tokens)
complete_enrollment_redeems env token device username id w w' e =
    let r = redeems env token device username id w w' e in (r.usable, r.marked)

refused_again :
    (env : Env) (token device username : String) (w : World) (p : Result String × World)
    → any (is_usable (env.time w.tick) token) w.tables.tokens ≡ false
    → Commits env (enrollment_body env token device username) w p
    → (e : Error) × (p.0 ≡ err e) × (p.1.tables ≡ w.tables)
refused_again env token device username w p none_usable (committed a s h q) =
    let r = enrollment_body-Redeems env token device username (env.time w.tick) a (begun w) s h in
    absurd (ground (arith, r.usable))
refused_again env token device username w p none_usable (undecided a s x h q same) =
    let r = enrollment_body-Redeems env token device username (env.time w.tick) a (begun w) s h in
    absurd (ground (arith, r.usable))
refused_again env token device username w p none_usable (rolled_back e s h q same) = (
  e,
  q,
  same
      ∙ ap (λ r. r.1.world.tables) (sym h)
      ∙ enrollment_body-world env token device username (env.time w.tick) (begun w),
)
refused_again env token device username w p none_usable (not_begun e q same) = (e, q, same)

-- A token enrolls once: in the world that a success leaves, an attempt with the same token, from
-- any device and under any name, fails and changes no table, if the clock has not been set back.
pub enrollment_single_use :
    (env : Env) (token device username id device' username' : String) (w w' : World)
    → complete_enrollment env token device username w ≡ (ok id, w')
    → env.time w.tick ≤ env.time w'.tick
    → (e : Error) × ((complete_enrollment env token device' username' w').0 ≡ err e)
      × ((complete_enrollment env token device' username' w').1.tables ≡ w'.tables)
unfolding complete_enrollment
enrollment_single_use env token device username id device' username' w w' e clock =
    let r = redeems env token device username id w w' e in
    let spent : any (is_usable (env.time w'.tick) token) w'.tables.tokens ≡ false =
      rw r.marked
        (used_up (env.time w.tick) (env.time w'.tick) device token w.tables.tokens clock) in
    refused_again env token device' username' w' _ spent
      (transaction-Commits env (enrollment_body env token device' username') w')
