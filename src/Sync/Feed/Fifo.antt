-- ===== src/Sync/Feed/Fifo.antt =====
-- The specification of a feed: what a first-in first-out queue hands out and keeps.
use posduif.Common.{
  ℕ, zero, suc, ◌*◌, ◌≤◌, Bool, ◌≡◌, refl, ap, ◌∙◌, sym, subst, List, [], ◌∷◌, ◌++◌, take, drop,
  select, length, length-append, length-drop-le, arith, if◌then◌else◌, Bool-cases, inl, inr,
}
use mathlib.Core.List.{append_assoc, append-nil}
use posduif.Models.{WalChange}
use posduif.Sync.Feed.{Event, add, sync, serve, added}
use posduif.Sync.Feed.Turns.{split_todo}

-- The changes to come, behind an arrival.
pub todo_add :
    (p : WalChange → Bool) (q : List WalChange) (c : WalChange) (cs : List WalChange)
    → q ++ select p (c ∷ cs) ≡ (if p c then q ++ c ∷ [] else q) ++ select p cs
todo_add p q c cs = elim (Bool-cases (p c)) [
  | inl e ↦ rw e (sym (append_assoc q (c ∷ []) (select p cs)))
  | inr e ↦ rw e
]

pub served_in_order :
    (p : WalChange → Bool) (es : List Event) (q : List WalChange)
    → (serve p es q).0 ++ (serve p es q).1 ≡ q ++ select p (added es)
unfolding serve
served_in_order p [] q = sym (append-nil q)
served_in_order p (add c ∷ es) q =
    served_in_order p es (if p c then q ++ c ∷ [] else q) ∙ sym (todo_add p q c (added es))
served_in_order p (sync n ∷ es) q =
    append_assoc (take (suc n) q) _ _
    ∙ ap (λ t. take (suc n) q ++ t) (served_in_order p es (drop (suc n) q))
    ∙ sym (split_todo (suc n) q (select p (added es)))

-- `k` calls with the limit n + 1.
abbrev pub calls : ℕ → ℕ → List Event
calls zero n = []
calls (suc k) n = sync n ∷ calls k n

pub calls_drain :
    (p : WalChange → Bool) (k n : ℕ) (q : List WalChange)
    → length q ≤ k * suc n
    → (serve p (calls k n) q).1 ≡ []
unfolding serve
calls_drain p zero n [] h = refl
calls_drain p zero n (c ∷ q) h = absurd (omega arith)
calls_drain p (suc k) n q h =
    calls_drain p k n (drop (suc n) q) (length-drop-le (suc n) (k * suc n) q (omega arith))

pub drains :
    (p : WalChange → Bool) (es : List Event) (k n : ℕ) (q : List WalChange)
    → length (q ++ select p (added es)) ≤ k * suc n
    → (serve p (es ++ calls k n) q).1 ≡ []
unfolding serve
drains p [] k n q h = calls_drain p k n q (subst (λ t. length t ≤ k * suc n) (append-nil q) h)
drains p (add c ∷ es) k n q h =
    drains p es k n (if p c then q ++ c ∷ [] else q)
      (subst (λ t. length t ≤ k * suc n) (todo_add p q c (added es)) h)
drains p (sync m ∷ es) k n q h = drains p es k n (drop (suc m) q) (
    omega (
      arith,
      h,
      ap length (split_todo (suc m) q (select p (added es))),
      length-append (take (suc m) q) (drop (suc m) q ++ select p (added es)),
    ))

pub added-calls : (es : List Event) (k n : ℕ) → added (es ++ calls k n) ≡ added es
added-calls [] zero n = refl
added-calls [] (suc k) n = added-calls [] k n
added-calls (add c ∷ es) k n = ap (λ t. c ∷ t) (added-calls es k n)
added-calls (sync m ∷ es) k n = added-calls es k n
