-- ===== src/Database/Tokens/Body.antt =====
-- queries.go: the statements inside the transaction of CompleteEnrollment.
use posduif.Common.{
  ℕ, String, true, false, ◌≡◌, refl, ◌∙◌, List, [], ◌∷◌, map, arith, any, length, select, nat_eq,
  Bool-cases, inl, inr,
}
use posduif.Models.{User, EnrollmentToken}
use posduif.Errors.{Result, ok, err, no_rows, driver, refused, message, wrapped}
use posduif.Database.{Env, Tables, TxState, tx_exec, advance}
use posduif.Database.Inside.{
  TableOrder, Moves, Inside, pure-Inside, raise-Inside, now-Inside, new_uuid-Inside,
  tx_query-Inside, tx_exec-Inside, bind-Inside, attempt-Inside, errorf-Inside, if-Inside,
}
use posduif.Database.Statements.{TxEnds, took_in, failed_in, tx_exec-TxEnds}
use posduif.Database.Tokens.{
  is_usable, mark_used, use_token, find_token, find_device, re_enroll, insert_or_adopt, enroll,
  link_user, enrollment_body,
}

module _ (env : Env) (o : TableOrder)
    (re_enrolls : (at now : ℕ) (name token id : String)
      → Moves o (re_enroll env at now name token id))
    (adopts : (at now : ℕ) (id name device token : String)
      → Moves o (insert_or_adopt env at now id name device token)) where
  enroll-Inside :
      (at : ℕ) (device name token : String) (t : ℕ) (found : Result User)
      → Inside o (enroll env at device name token t found)
  unfolding enroll
  enroll-Inside at device name token t (ok u) =
      errorf-Inside _
        (bind-Inside (tx_exec-Inside env _ (re_enrolls at t name token u.id)) λ _. pure-Inside u.id)
  enroll-Inside at device name token t (err no_rows) =
      bind-Inside (new_uuid-Inside env)
        λ id. errorf-Inside _ (tx_exec-Inside env _ (adopts at t id name device token))
  enroll-Inside at device name token t (err (driver s)) = raise-Inside _ _
  enroll-Inside at device name token t (err (refused v)) = raise-Inside _ _
  enroll-Inside at device name token t (err (message s)) = raise-Inside _ _
  enroll-Inside at device name token t (err (wrapped s e)) = raise-Inside _ _

  pub link_user-Inside :
      (token device name : String) (at : ℕ) → Inside o (link_user env token device name at)
  unfolding link_user
  link_user-Inside token device name at =
      bind-Inside (tx_query-Inside env (find_token env token)) λ e.
        bind-Inside (attempt-Inside (tx_query-Inside env (find_device env device)))
          λ existing. bind-Inside (now-Inside env) λ t. enroll-Inside at device name e.id t existing

  pub enrollment_body-Inside :
      (token device name : String) (at : ℕ)
      → Moves o (use_token env at device token)
      → Inside o (enrollment_body env token device name at)
  unfolding enrollment_body
  enrollment_body-Inside token device name at uses =
      bind-Inside (tx_exec-Inside env _ uses) λ affected.
        if-Inside (nat_eq affected 0) (raise-Inside _ _) (link_user-Inside token device name at)

abbrev anything : TableOrder
anything = record { R = λ t u. Unit {0}; same = λ t. tt; chain = λ t u v h k. tt }

-- Every statement of the body runs on the transaction: nothing outside changes.
pub enrollment_body-world :
    (env : Env) (token device name : String) (at : ℕ) (s : TxState)
    → (enrollment_body env token device name at s).1.world.tables ≡ s.world.tables
enrollment_body-world env token device name at s =
    let inside =
      enrollment_body-Inside env anything (λ a n m k i now fresh t t' x e. tt)
        (λ a n i m d k now fresh t t' x e. tt) token device name at (λ now fresh t t' x e. tt) in
    (inside.at s).world

abbrev same_tokens : TableOrder
same_tokens = record {
  R = λ t u. u.tokens ≡ t.tokens;
  same = λ t. refl;
  chain = λ t u v h k. k ∙ h;
}

re_enrolls :
    (env : Env) (at now : ℕ) (name token id : String)
    → Moves same_tokens (re_enroll env at now name token id)
unfolding re_enroll
re_enrolls env at now name token id _ fresh t t' x e = ground arith

adopts :
    (env : Env) (at now : ℕ) (id name device token : String)
    → Moves same_tokens (insert_or_adopt env at now id name device token)
unfolding insert_or_adopt
adopts env at now id name device token _ fresh t t' x e = ground arith

link_user-tokens :
    (env : Env) (token device name : String) (at : ℕ) (s : TxState)
    → (link_user env token device name at s).1.inner.tokens ≡ s.inner.tokens
link_user-tokens env token device name at s =
    ((link_user-Inside env same_tokens (re_enrolls env) (adopts env) token device name at).at
      s).along

pub no_usable :
    (at : ℕ) (token : String) (ts : List EnrollmentToken)
    → any (is_usable at token) ts ≡ false
    → length (select (is_usable at token) ts) ≡ 0
no_usable at token [] h = refl
no_usable at token (t ∷ ts) h = ground (arith, no_usable at token ts)

-- What a successful run of the body says about the tokens before and after it.
pub record Redeems (at : ℕ) (device token : String) (t t' : Tables) : Type 0 where
  pub usable : any (is_usable at token) t.tokens ≡ true
  pub marked : t'.tokens ≡ map (mark_used at device token) t.tokens

use_token-ok :
    (env : Env) (at : ℕ) (device token : String) (x : ℕ) (y : String) (t t' : Tables) (n : ℕ)
    → use_token env at device token x y t ≡ ok (n, t')
    → (n ≡ length (select (is_usable at token) t.tokens))
      × (t'.tokens ≡ map (mark_used at device token) t.tokens)
unfolding use_token
use_token-ok env at device token x y t t' n e = ground arith

body_ends :
    (env : Env) (token device name : String) (at : ℕ) (id : String) (s s' : TxState)
    (p : Result ℕ × TxState)
    → tx_exec env (use_token env at device token) s ≡ p
    → TxEnds env (use_token env at device token) s p
    → enrollment_body env token device name at s ≡ (ok id, s')
    → Redeems at device token s.inner s'.inner
unfolding enrollment_body
body_ends env token device name at id s s' p e (failed_in x q) h = absurd (ground arith)
body_ends env token device name at id s s' p e (took_in n t k q) h =
    let (count, same) = use_token-ok env at device token _ _ s.inner t n k in
    let s1 : TxState = record { inner = t; world = advance s.world } in
    record {
      usable = elim (Bool-cases (any (is_usable at token) s.inner.tokens)) [
        | inl some_usable ↦ some_usable
        | inr none_usable ↦ absurd (ground (arith, no_usable at token s.inner.tokens none_usable))
      ];
      marked = ground (arith, link_user-tokens env token device name at s1);
    }

-- A run that ends without an error has found a usable token, and marked the matching ones.
pub enrollment_body-Redeems :
    (env : Env) (token device name : String) (at : ℕ) (id : String) (s s' : TxState)
    → enrollment_body env token device name at s ≡ (ok id, s')
    → Redeems at device token s.inner s'.inner
enrollment_body-Redeems env token device name at id s s' h =
    body_ends env token device name at id s s' _ refl
      (tx_exec-TxEnds env (use_token env at device token) s) h
