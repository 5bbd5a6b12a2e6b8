-- ===== src/System/Growth.antt =====
-- Lists of rows that only grow at the end, seen through the columns that no statement changes.
use mathlib.Core.List.{append_assoc, append-nil}
use posduif.Common.{◌≡◌, refl, ap, sym, ◌∙◌, List, [], ◌∷◌, ◌++◌, map}

module _ {A B : Type 0} (f : A → B) where
  abbrev pub Grows : List A → List A → Type 0
  Grows xs ys = (more : List B) × (map f ys ≡ map f xs ++ more)

  pub Grows-refl : (xs : List A) → Grows xs xs
  Grows-refl xs = ([], sym (append-nil (map f xs)))

  pub Grows-trans : (xs ys zs : List A) → Grows xs ys → Grows ys zs → Grows xs zs
  Grows-trans xs ys zs (m, e) (n, k) =
      (m ++ n, k ∙ ap (λ t. t ++ n) e ∙ append_assoc (map f xs) m n)

  map-append : (xs ys : List A) → map f (xs ++ ys) ≡ map f xs ++ map f ys
  map-append [] ys = refl
  map-append (x ∷ xs) ys = ap (λ t. f x ∷ t) (map-append xs ys)

  pub Grows-append : (xs ys : List A) → Grows xs (xs ++ ys)
  Grows-append xs ys = (map f ys, map-append xs ys)

  map_same : (g : A → A) (xs : List A) → ((x : A) → f (g x) ≡ f x) → map f (map g xs) ≡ map f xs
  map_same g [] h = refl
  map_same g (x ∷ xs) h = ap (λ y. y ∷ map f (map g xs)) (h x) ∙ ap (λ t. f x ∷ t) (map_same g xs h)

  pub Grows-map : (g : A → A) (xs : List A) → ((x : A) → f (g x) ≡ f x) → Grows xs (map g xs)
  Grows-map g xs h = ([], map_same g xs h ∙ sym (append-nil (map f xs)))
