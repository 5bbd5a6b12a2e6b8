-- ===== src/System/Uses.antt =====
-- Both servers: what happens to the enrollment tokens along the calls.
use posduif.Common.{
  ℕ, String, ◌<◌, ◌≡◌, refl, sym, subst, ◌∙◌, none, some, List, [], ◌∷◌, ◌++◌, map, arith,
  Bool-cases, Option-cases, inl, inr, ltb→lt,
}
use posduif.Models.{User, Message, EnrollmentToken, SyncMetadata}
use posduif.Database.{Env, Tables}
use posduif.Database.Users.{insert_user, set_users}
use posduif.Database.Messages.{insert_message, write_status}
use posduif.Database.Tokens.{
  is_usable, new_row, mark_used, insert_token, use_token, re_enroll, insert_or_adopt,
}
use posduif.Database.Metadata.{upsert}
use posduif.WebApi.Queries.{insert_or_touch}
use posduif.System.Actions.{TableOrder, Moves}
use posduif.System.Queries.{Respects}

-- The use of a token stays as it is, or an unused token is used, by a device and before it expires.
pub data Life (x y : EnrollmentToken) : Type 0 where
  kept : y.used_at ≡ x.used_at → y.device_id ≡ x.device_id → Life x y
  redeemed :
      (at : ℕ) (device : String)
      → x.used_at ≡ none
      → y.used_at ≡ some at
      → y.device_id ≡ some device
      → at < x.expires_at
      → Life x y

pub record Lives (x y : EnrollmentToken) : Type 0 where
  pub token : y.token ≡ x.token
  pub expiry : y.expires_at ≡ x.expires_at
  pub life : Life x y

-- Each token of before, in the order of the table, and any new ones behind them.
abbrev pub Uses : List EnrollmentToken → List EnrollmentToken → Type 0
Uses [] ys = Unit
Uses (x ∷ xs) [] = ⊥
Uses (x ∷ xs) (y ∷ ys) = Lives x y × Uses xs ys

then_life : (x y z : EnrollmentToken) → y.expires_at ≡ x.expires_at → Life x y → Life y z → Life x z
then_life x y z e (kept a b) (kept c d) = kept (c ∙ a) (d ∙ b)
then_life x y z e (kept a b) (redeemed at device free used by soon) =
    redeemed at device (sym a ∙ free) used by (subst (λ t. at < t) e soon)
then_life x y z e (redeemed at device free used by soon) (kept c d) =
    redeemed at device free (c ∙ used) (d ∙ by) soon
then_life x y z e (redeemed at device free used by soon) (redeemed _ _ free' used' by' soon') =
    absurd (ground (arith, used, free'))

pub Uses-refl : (xs : List EnrollmentToken) → Uses xs xs
Uses-refl [] = tt
Uses-refl (x ∷ xs) = (record { token = refl; expiry = refl; life = kept refl refl }, Uses-refl xs)

pub Uses-trans : (xs ys zs : List EnrollmentToken) → Uses xs ys → Uses ys zs → Uses xs zs
Uses-trans [] ys zs h k = tt
Uses-trans (x ∷ xs) (y ∷ ys) (z ∷ zs) h k = (
  record {
    token = k.0.token ∙ h.0.token;
    expiry = k.0.expiry ∙ h.0.expiry;
    life = then_life x y z h.0.expiry h.0.life k.0.life;
  },
  Uses-trans xs ys zs h.1 k.1,
)
Uses-trans (x ∷ xs) [] zs h k = absurd h
Uses-trans (x ∷ xs) (y ∷ ys) [] h k = absurd k

Uses-append : (xs ys : List EnrollmentToken) → Uses xs (xs ++ ys)
Uses-append [] ys = tt
Uses-append (x ∷ xs) ys =
    (record { token = refl; expiry = refl; life = kept refl refl }, Uses-append xs ys)

mark_life :
    (at : ℕ) (device token : String) (x : EnrollmentToken) → Life x (mark_used at device token x)
mark_life at device token x = elim (Bool-cases (is_usable at token x)) [
  | inr e ↦ rw e (kept refl refl)
  | inl e ↦ elim (Option-cases x.used_at) [
    | inl free ↦
        rw e (redeemed at device free refl refl (ltb→lt at x.expires_at (ground (arith, e, free))))
    | inr (t, used) ↦ absurd (ground (arith, e, used))
  ]
]

Uses-mark :
    (at : ℕ) (device token : String) (xs : List EnrollmentToken)
    → Uses xs (map (mark_used at device token) xs)
Uses-mark at device token [] = tt
Uses-mark at device token (x ∷ xs) = (
  record { token = ground arith; expiry = ground arith; life = mark_life at device token x },
  Uses-mark at device token xs,
)

abbrev pub uses : TableOrder
uses = record {
  R = λ t u. Uses t.tokens u.tokens;
  same = λ t. Uses-refl t.tokens;
  chain = λ t u v. Uses-trans t.tokens u.tokens v.tokens;
}

untouched : (t t' : Tables) → t'.tokens ≡ t.tokens → Uses t.tokens t'.tokens
untouched t t' e = subst (Uses t.tokens) (sym e) (Uses-refl t.tokens)

module _ (env : Env) where
  inserts_user : (u : User) → Moves uses (λ now fresh. insert_user env u)
  unfolding insert_user
  inserts_user u now fresh t t' x e = untouched t t' (ground arith)

  sets_users : (u : User) → Moves uses (set_users env u)
  unfolding set_users
  sets_users u now fresh t t' x e = untouched t t' (ground arith)

  inserts_message : (m : Message) → Moves uses (insert_message env m)
  unfolding insert_message
  inserts_message m now fresh t t' x e = untouched t t' (ground arith)

  writes_status : (id status : String) → Moves uses (write_status env id status)
  unfolding write_status
  writes_status id status now fresh t t' x e = untouched t t' (ground arith)

  inserts_token : (n : EnrollmentToken) → Moves uses (insert_token env n)
  unfolding insert_token
  inserts_token n now fresh t t' x e =
      let rows : t'.tokens ≡ t.tokens ++ new_row env n ∷ [] = ground arith in
      subst (Uses t.tokens) (sym rows) (Uses-append t.tokens (new_row env n ∷ []))

  uses_token : (at : ℕ) (device token : String) → Moves uses (use_token env at device token)
  unfolding use_token
  uses_token at device token now fresh t t' n e =
      let rows : t'.tokens ≡ map (mark_used at device token) t.tokens = ground arith in
      subst (Uses t.tokens) (sym rows) (Uses-mark at device token t.tokens)

  re_enrolls :
      (at now : ℕ) (name token id : String) → Moves uses (re_enroll env at now name token id)
  unfolding re_enroll
  re_enrolls at now name token id _ fresh t t' x e = untouched t t' (ground arith)

  adopts :
      (at now : ℕ) (id name device token : String)
      → Moves uses (insert_or_adopt env at now id name device token)
  unfolding insert_or_adopt
  adopts at now id name device token _ fresh t t' x e = untouched t t' (ground arith)

  touches : (id name : String) (at : ℕ) → Moves uses (insert_or_touch env id name at)
  unfolding insert_or_touch
  touches id name at now fresh t t' x e = untouched t t' (ground arith)

upserts : (sm : SyncMetadata) → Moves uses (upsert sm)
unfolding upsert
upserts sm now fresh t t' x e = untouched t t' (ground arith)

-- Every statement of the program, whatever its arguments.
pub uses-Respects : (env : Env) → Respects env uses
uses-Respects env = record {
  inserts_user = inserts_user env;
  sets_users = sets_users env;
  inserts_message = inserts_message env;
  writes_status = writes_status env;
  inserts_token = inserts_token env;
  uses_token = uses_token env;
  re_enrolls = re_enrolls env;
  adopts = adopts env;
  upserts = upserts;
  touches = touches env;
}
