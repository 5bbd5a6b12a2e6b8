-- ===== src/Database/Slots/Names.antt =====
-- replication.go: slot names fit PostgreSQL's limit, and which tenants share one.
use Prim.Native.String.{[], ◌∷◌}
use posduif.Common.{
  ℕ, zero, suc, ◌+◌, ◌≤◌, code, String, true, ◌≡◌, refl, ap, sym, ◌∙◌, arith, nat_eq, ltb,
  Bool-cases, inl, inr, if◌then◌else◌,
}
use posduif.Common.Text.{text_length}
use posduif.Database.Slots.{underscored, append, prefix, slot_name}

length-prefix : (n : ℕ) (s : String) → text_length (prefix n s) ≤ n
unfolding prefix
length-prefix zero s = omega arith
length-prefix (suc n) [] = omega arith
length-prefix (suc n) (c ∷ s) = omega (arith, length-prefix n s)

-- The name of a replication slot has at most the 63 characters that PostgreSQL allows.
pub slot_name-le : (db : String) → text_length (slot_name db) ≤ 63
unfolding slot_name
slot_name-le db =
    let name = append "posduif_sync_" (underscored db) in
    elim (Bool-cases (ltb 63 (text_length name))) [
      | inl e ↦ rw e (length-prefix 63 name)
      | inr e ↦ rw e (ground arith)
    ]

underscored-append :
    (s t : String) → underscored (append s t) ≡ append (underscored s) (underscored t)
unfolding underscored append
underscored-append [] t = refl
underscored-append (c ∷ s) t = elim (Bool-cases (nat_eq (code c) b'-')) [
  | inl e ↦ rw (e, underscored-append s t)
  | inr e ↦ rw (e, underscored-append s t)
]

length-underscored : (s : String) → text_length (underscored s) ≡ text_length s
unfolding underscored
length-underscored [] = refl
length-underscored (c ∷ s) = elim (Bool-cases (nat_eq (code c) b'-')) [
  | inl e ↦ rw e (ap suc (length-underscored s))
  | inr e ↦ rw e (ap suc (length-underscored s))
]

length-append : (s t : String) → text_length (append s t) ≡ text_length s + text_length t
unfolding append
length-append [] t = omega arith
length-append (c ∷ s) t = omega (arith, length-append s t)

prefix-append : (s t : String) → prefix (text_length s) (append s t) ≡ s
unfolding prefix append
prefix-append [] t = refl
prefix-append (c ∷ s) t = ap (λ x. c ∷ x) (prefix-append s t)

append_assoc : (s t u : String) → append (append s t) u ≡ append s (append t u)
unfolding append
append_assoc [] t u = refl
append_assoc (c ∷ s) t u = ap (λ x. c ∷ x) (append_assoc s t u)

append_nil : (s : String) → append s "" ≡ s
unfolding append
append_nil [] = refl
append_nil (c ∷ s) = ap (λ x. c ∷ x) (append_nil s)

-- A name of the full length, and what is cut off behind it.
cut :
    (s t : String)
    → text_length s ≡ 63
    → (if ltb 63 (text_length (append s t)) then prefix 63 (append s t) else append s t) ≡ s
cut s [] h = rw (append_nil s, h) refl
cut s (c ∷ t) h =
    let longer : ltb 63 (text_length (append s (c ∷ t))) ≡ true =
      ground (arith, length-append s (c ∷ t)) in
    rw longer (ap (λ n. prefix n (append s (c ∷ t))) (sym h) ∙ prefix-append s (c ∷ t))

-- Two tenants whose database names agree in their first 50 characters, but for "-" in the place of
-- "_", have one slot name, whatever follows.
pub slot_name_shared :
    (db db' rest rest' : String)
    → text_length db ≡ 50
    → text_length db' ≡ 50
    → underscored db ≡ underscored db'
    → slot_name (append db rest) ≡ slot_name (append db' rest')
unfolding slot_name
slot_name_shared db db' rest rest' h h' same =
    full db rest h ∙ ap (append "posduif_sync_") same ∙ sym (full db' rest' h')
  where
    full :
        (d r : String)
        → text_length d ≡ 50
        → slot_name (append d r) ≡ append "posduif_sync_" (underscored d)
    full d r e =
        rw
          (
            underscored-append d r,
            sym (append_assoc "posduif_sync_" (underscored d) (underscored r)),
          )
          (cut (append "posduif_sync_" (underscored d)) (underscored r)
            (omega (arith, length-append "posduif_sync_" (underscored d), length-underscored d)))
