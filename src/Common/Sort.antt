-- ===== src/Common/Sort.antt =====
-- ORDER BY of the queries, with what it keeps of the rows.
use mathlib.Core.List.{Perm}
use mathlib.Core.List.Perm
use posduif.Common.Lists.{All, All-take, take, drop}
use Prim.Native.Nat.{ℕ, zero, suc}
use mathlib.Core.Path.{◌≡◌}
use posduif.Common.Tests.{Bool-cases, if◌then◌else◌}
use mathlib.Core.Bool.{Bool, true, false}
use mathlib.Core.List.{List, [], ◌∷◌}
use mathlib.Core.Logic.{inl, inr}

-- ORDER BY a column: a stable insertion sort. The order of equal keys, which SQL leaves open,
-- is that of the table.
module _ {ℓ} {A : Type ℓ} where
  unfoldable pub insert_by : (A → A → Bool) → A → List A → List A
  insert_by before m [] = m ∷ []
  insert_by before m (n ∷ ns) = if before n m then n ∷ insert_by before m ns else m ∷ n ∷ ns

  unfoldable pub order_by : (A → A → Bool) → List A → List A
  unfolding insert_by
  order_by before [] = []
  order_by before (m ∷ ms) = insert_by before m (order_by before ms)

module _ {ℓ} {A : Type ℓ} (before : A → A → Bool) where
  insert_by-perm : (m : A) (ms : List A) → Perm (insert_by before m ms) (m ∷ ms)
  unfolding insert_by
  insert_by-perm m [] = Perm.refl _
  insert_by-perm m (n ∷ ns) = elim (Bool-cases (before n m)) [
    | inl e ↦ rw e (Perm.trans (Perm.cons n (insert_by-perm m ns)) (Perm.swap m n ns))
    | inr e ↦ rw e (Perm.refl _)
  ]

  -- Sorting neither loses nor repeats a row.
  pub order_by-perm : (ms : List A) → Perm (order_by before ms) ms
  unfolding order_by
  order_by-perm [] = Perm.refl _
  order_by-perm (m ∷ ms) =
      Perm.trans (insert_by-perm m (order_by before ms)) (Perm.cons m (order_by-perm ms))

  module _ {κ} (P : A → Type κ) where
    pub All-insert_by : (m : A) (ms : List A) → P m → All P ms → All P (insert_by before m ms)
    unfolding insert_by
    All-insert_by m [] h k = (h, tt)
    All-insert_by m (n ∷ ns) h k = elim (Bool-cases (before n m)) [
      | inl e ↦ rw e (k.0, All-insert_by m ns h k.1)
      | inr e ↦ rw e (h, k)
    ]

    pub All-order_by : (ms : List A) → All P ms → All P (order_by before ms)
    unfolding order_by
    All-order_by [] h = tt
    All-order_by (m ∷ ms) h = All-insert_by m (order_by before ms) h.0 (All-order_by ms h.1)

-- A relation holds from each row to all that follow it.
abbrev pub Ordered : {A : Type 0} → (A → A → Type 0) → List A → Type 0
Ordered R [] = Unit
Ordered R (x ∷ xs) = All (R x) xs × Ordered R xs

module _ {A : Type 0} (R : A → A → Type 0) where
  pub Ordered-take : (n : ℕ) (xs : List A) → Ordered R xs → Ordered R (take n xs)
  Ordered-take zero xs s = tt
  Ordered-take (suc n) [] s = tt
  Ordered-take (suc n) (x ∷ xs) s = (All-take (R x) n xs s.0, Ordered-take n xs s.1)

  pub Ordered-drop : (n : ℕ) (xs : List A) → Ordered R xs → Ordered R (drop n xs)
  Ordered-drop zero xs s = s
  Ordered-drop (suc n) [] s = tt
  Ordered-drop (suc n) (x ∷ xs) s = Ordered-drop n xs s.1

-- ORDER BY a column puts the rows in its order.
module _ {A : Type 0} (before : A → A → Bool) (R : A → A → Type 0)
    (hit : (x y : A) → before x y ≡ true → R x y) (miss : (x y : A) → before x y ≡ false → R y x)
    (chain : (x y z : A) → R x y → R y z → R x z) where
  All-chain : (x y : A) (zs : List A) → R x y → All (R y) zs → All (R x) zs
  All-chain x y [] h k = tt
  All-chain x y (z ∷ zs) h k = (chain x y z h k.0, All-chain x y zs h k.1)

  insert_by-Ordered : (x : A) (xs : List A) → Ordered R xs → Ordered R (insert_by before x xs)
  unfolding insert_by
  insert_by-Ordered x [] s = (tt, tt)
  insert_by-Ordered x (y ∷ ys) s = elim (Bool-cases (before y x)) [
    | inl e ↦ rw e (All-insert_by before (R y) x ys (hit y x e) s.0, insert_by-Ordered x ys s.1)
    | inr e ↦ let h = miss y x e in rw e ((h, All-chain x y ys h s.0), s)
  ]

  pub order_by-Ordered : (xs : List A) → Ordered R (order_by before xs)
  unfolding order_by
  order_by-Ordered [] = tt
  order_by-Ordered (x ∷ xs) = insert_by-Ordered x (order_by before xs) (order_by-Ordered xs)
