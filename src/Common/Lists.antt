-- ===== src/Common/Lists.antt =====
-- Lists measured by native numbers, under the library's names, with Boolean filters.
use Prim.Native.Nat.{ℕ, zero, suc, ◌+◌, ◌≤◌}
use mathlib.Core.Path.{◌≡◌, refl, ap}
use mathlib.Core.Bool.{Bool, true, false, ◌||◌}
use mathlib.Core.Option.{Option, none, some}
use mathlib.Core.List.{List, [], ◌∷◌, ◌++◌, map}
use native.Mathlib.Omega.{arith}
use posduif.Common.Tests.{if◌then◌else◌, Bool-cases}
use mathlib.Core.Logic.{inl, inr}

module _ {ℓ} {A : Type ℓ} where
  abbrev pub length : List A → ℕ
  length [] = 0
  length (x ∷ xs) = suc (length xs)

  abbrev pub take : ℕ → List A → List A
  take zero xs = []
  take (suc n) [] = []
  take (suc n) (x ∷ xs) = x ∷ take n xs

  abbrev pub drop : ℕ → List A → List A
  drop zero xs = xs
  drop (suc n) [] = []
  drop (suc n) (x ∷ xs) = drop n xs

  -- The elements for which the test holds, in order.
  abbrev pub select : (A → Bool) → List A → List A
  select p [] = []
  select p (x ∷ xs) = if p x then x ∷ select p xs else select p xs

  abbrev pub any : (A → Bool) → List A → Bool
  any p [] = false
  any p (x ∷ xs) = p x || any p xs

  abbrev pub find : (A → Bool) → List A → Option A
  find p [] = none
  find p (x ∷ xs) = if p x then some x else find p xs

  abbrev pub head? : List A → Option A
  head? [] = none
  head? (x ∷ xs) = some x

  pub length-append : (xs ys : List A) → length (xs ++ ys) ≡ length xs + length ys
  length-append [] ys = omega arith
  length-append (x ∷ xs) ys = omega (arith, length-append xs ys)

  pub length-take-le : (n : ℕ) (xs : List A) → length (take n xs) ≤ n
  length-take-le zero xs = omega arith
  length-take-le (suc n) [] = omega arith
  length-take-le (suc n) (x ∷ xs) = omega (arith, length-take-le n xs)

  pub length-drop-le : (n m : ℕ) (xs : List A) → length xs ≤ n + m → length (drop n xs) ≤ m
  length-drop-le zero m xs h = omega (arith, h)
  length-drop-le (suc n) m [] h = omega arith
  length-drop-le (suc n) m (x ∷ xs) h = length-drop-le n m xs (omega (arith, h))

  pub take-append-drop : (n : ℕ) (xs : List A) → take n xs ++ drop n xs ≡ xs
  take-append-drop zero xs = refl
  take-append-drop (suc n) [] = refl
  take-append-drop (suc n) (x ∷ xs) = rw (take-append-drop n xs)

  pub take_all : (n : ℕ) (xs : List A) → length xs ≤ n → take n xs ≡ xs
  take_all zero [] h = refl
  take_all zero (x ∷ xs) h = absurd (omega arith)
  take_all (suc n) [] h = refl
  take_all (suc n) (x ∷ xs) h = ap (λ t. x ∷ t) (take_all n xs (omega arith))

  pub select-append :
      (p : A → Bool) (xs ys : List A) → select p (xs ++ ys) ≡ select p xs ++ select p ys
  select-append p [] ys = refl
  select-append p (x ∷ xs) ys = ground (arith, select-append p xs ys)

module _ {ℓ κ} {A : Type ℓ} (P : A → Type κ) where
  abbrev pub All : List A → Type κ
  All [] = Unit
  All (x ∷ xs) = P x × All xs

  pub All-append : (xs ys : List A) → All xs → All ys → All (xs ++ ys)
  All-append [] ys h k = k
  All-append (x ∷ xs) ys h k = (h.0, All-append xs ys h.1 k)

  pub All-take : (n : ℕ) (xs : List A) → All xs → All (take n xs)
  All-take zero xs h = tt
  All-take (suc n) [] h = tt
  All-take (suc n) (x ∷ xs) h = (h.0, All-take n xs h.1)

  pub All-drop : (n : ℕ) (xs : List A) → All xs → All (drop n xs)
  All-drop zero xs h = h
  All-drop (suc n) [] h = tt
  All-drop (suc n) (x ∷ xs) h = All-drop n xs h.1

module _ {ℓ} {A : Type ℓ} (p : A → Bool) where
  pub select-whole : (xs : List A) → All (λ x. p x ≡ true) xs → select p xs ≡ xs
  select-whole [] h = refl
  select-whole (x ∷ xs) h = rw h.0 (ap (λ t. x ∷ t) (select-whole xs h.1))

  pub select-nothing : (xs : List A) → All (λ x. p x ≡ false) xs → select p xs ≡ []
  select-nothing [] h = refl
  select-nothing (x ∷ xs) h = rw h.0 (select-nothing xs h.1)

  pub select-All : (xs : List A) → All (λ x. p x ≡ true) (select p xs)
  select-All [] = tt
  select-All (x ∷ xs) = ground (arith, select-All xs)

  pub select-All_of {κ} : (P : A → Type κ) (xs : List A) → All P xs → All P (select p xs)
  select-All_of P [] h = tt
  select-All_of P (x ∷ xs) h = elim (Bool-cases (p x)) [
    | inl e ↦ rw e (h.0, select-All_of P xs h.1)
    | inr e ↦ rw e (select-All_of P xs h.1)
  ]

module _ {ℓ κ} {A : Type ℓ} (P Q R : A → Type κ) (both : (x : A) → P x → Q x → R x) where
  pub All-both : (xs : List A) → All P xs → All Q xs → All R xs
  All-both [] h k = tt
  All-both (x ∷ xs) h k = (both x h.0 k.0, All-both xs h.1 k.1)

module _ {ℓ κ ι} {A : Type ℓ} {B : Type κ} (P : B → Type ι) (f : A → B) where
  pub All-map : (xs : List A) → All (λ x. P (f x)) xs → All P (map f xs)
  All-map [] h = tt
  All-map (x ∷ xs) h = (h.0, All-map xs h.1)

  pub All-of_map : (xs : List A) → All P (map f xs) → All (λ x. P (f x)) xs
  All-of_map [] h = tt
  All-of_map (x ∷ xs) h = (h.0, All-of_map xs h.1)
