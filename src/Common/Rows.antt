-- ===== src/Common/Rows.antt =====
-- Columns without repetition.
use posduif.Common.{String, false, ◌==◌, ◌≡◌, refl, List, [], ◌∷◌, ◌++◌, any, arith, eq_iff, All}

module _ {A : Type 0} (key : A → String) where
  -- No two rows have the same key.
  abbrev pub Unique : List A → Type 0
  Unique [] = Unit
  Unique (x ∷ xs) = (any (λ y. key y == key x) xs ≡ false) × Unique xs

  any-append_false :
      (k : String) (xs : List A) (x : A)
      → any (λ y. key y == k) xs ≡ false
      → (key x == k) ≡ false
      → any (λ y. key y == k) (xs ++ x ∷ []) ≡ false
  any-append_false k [] x h e = ground arith
  any-append_false k (y ∷ xs) x h e = ground (arith, any-append_false k xs x)

  pub Unique-append :
      (xs : List A) (x : A)
      → any (λ y. key y == key x) xs ≡ false
      → Unique xs
      → Unique (xs ++ x ∷ [])
  Unique-append [] x h u = (refl, tt)
  Unique-append (y ∷ xs) x h u = (
    any-append_false (key y) xs x u.0
        (ground (arith, h, eq_iff (key y) (key x), eq_iff (key x) (key y))),
    Unique-append xs x (ground (arith, h)) u.1,
  )

module _ {A : Type 0} (P Q : A → Type 0) where
  pub All-imp : (xs : List A) → ((x : A) → P x → Q x) → All P xs → All Q xs
  All-imp [] h k = tt
  All-imp (x ∷ xs) h k = (h x k.0, All-imp xs h k.1)
