-- ===== src/Models/Lsn/RoundTrip.antt =====
-- models/lsn.go: ParseLSN reads back what LSN.String prints, and never leaves the uint64 range.
use Prim.Native.String.{[], ◌∷◌}
use posduif.Common.{
  ℕ, zero, suc, ◌+◌, ◌-◌, ◌*◌, ◌/◌, ◌%◌, ◌^◌, ◌<◌, Char, code, String, ◌≡◌, refl, ap, sym, ◌∙◌,
  ◌==◌, eq_iff, false, Option, none, some, List, arith, ltb, Bool-cases, Option-cases, inl, inr,
}
use posduif.Common.Text.{text_length, split}
use posduif.Models.Lsn.{
  digit, digit_value, add_digit, to_hex, zeros, pad_hex, parse_digits, parse_uint, parse_parts,
  parse, string,
}
use posduif.Models.Lsn.Digits.{digit_no_slash, parse_digits-to_hex, parse_digits-zeros, fewer}

-- A run of digits belongs to the part in front of which it stands.
split-digit :
    (d : ℕ) (s p : String) (ps : List String)
    → d < 16
    → split b'/' s ≡ List.◌∷◌ p ps
    → split b'/' (digit d ∷ s) ≡ List.◌∷◌ (digit d ∷ p) ps
unfolding split
split-digit d s p ps h e = rw (digit_no_slash d h, split) (rw e)

split-to_hex :
    (f n : ℕ) (s p : String) (ps : List String)
    → n < 16 ^ suc f
    → split b'/' s ≡ List.◌∷◌ p ps
    → split b'/' (to_hex f n s) ≡ List.◌∷◌ (to_hex f n p) ps
unfolding to_hex
split-to_hex zero n s p ps h e = split-digit (n % 16) s p ps (omega arith) e
split-to_hex (suc f) n s p ps h e = elim (Bool-cases (ltb n 16)) [
  | inl one ↦ rw one (split-digit n s p ps (ground arith) e)
  | inr more ↦ rw more (
      split-to_hex f (n / 16) (digit (n % 16) ∷ s) (digit (n % 16) ∷ p) ps (fewer f n h)
        (split-digit (n % 16) s p ps (omega arith) e))
]

split-zeros :
    (k : ℕ) (s p : String) (ps : List String)
    → split b'/' s ≡ List.◌∷◌ p ps
    → split b'/' (zeros k s) ≡ List.◌∷◌ (zeros k p) ps
unfolding zeros split
split-zeros zero s p ps e = e
split-zeros (suc k) s p ps e = rw (split-zeros k s p ps e)

to_hex_cons : (f n : ℕ) (s : String) → (c : Char) × (t : String) × (to_hex f n s ≡ c ∷ t)
unfolding to_hex
to_hex_cons zero n s = (digit (n % 16), s, refl)
to_hex_cons (suc f) n s = elim (Bool-cases (ltb n 16)) [
  | inl one ↦ (digit n, s, rw one)
  | inr more ↦ rw more (to_hex_cons f (n / 16) (digit (n % 16) ∷ s))
]

parse_uint_of_cons :
    (s : String) {c : Char} {t : String} → s ≡ c ∷ t → parse_uint s ≡ parse_digits 0 s
unfolding parse_uint
parse_uint_of_cons [] e = cc
parse_uint_of_cons (c ∷ s) e = refl

-- strconv reads back what fmt printed.
parse_uint-to_hex : (n : ℕ) → n < 2 ^ 32 → parse_uint (to_hex 15 n "") ≡ some n
unfolding parse_digits
parse_uint-to_hex n h =
    let (c, t, e) = to_hex_cons 15 n "" in
    parse_uint_of_cons _ e ∙ parse_digits-to_hex 15 n "" h (omega arith)

parse_uint-zeros :
    (k : ℕ) (s : String) {c : Char} {t : String}
    → s ≡ c ∷ t
    → parse_uint (zeros k s) ≡ parse_digits 0 s
unfolding zeros
parse_uint-zeros zero s e = parse_uint_of_cons s e
parse_uint-zeros (suc k) s e =
    parse_uint_of_cons (zeros (suc k) s) refl ∙ parse_digits-zeros (suc k) s

parse_uint-pad_hex : (n : ℕ) → n < 2 ^ 32 → parse_uint (pad_hex n) ≡ some n
unfolding pad_hex parse_digits
parse_uint-pad_hex n h =
    let (c, t, e) = to_hex_cons 15 n "" in
    parse_uint-zeros (8 - text_length (to_hex 15 n "")) (to_hex 15 n "") e
    ∙ parse_digits-to_hex 15 n "" h (omega arith)

split-pad_hex : (n : ℕ) → n < 2 ^ 32 → split b'/' (pad_hex n) ≡ List.◌∷◌ (pad_hex n) List.[]
unfolding pad_hex split
split-pad_hex n h =
    split-zeros (8 - text_length (to_hex 15 n "")) _ _ _
      (split-to_hex 15 n "" "" List.[] (omega arith) refl)

split-slash : (s : String) → split b'/' ("/" ∷ s) ≡ List.◌∷◌ "" (split b'/' s)
unfolding split
split-slash s = refl

parse-print :
    (high low : ℕ)
    → high < 2 ^ 32
    → low < 2 ^ 32
    → parse (to_hex 15 high ("/" ∷ pad_hex low)) ≡ some (high * 2 ^ 32 + low)
unfolding parse parse_parts
parse-print high low h k =
    rw
      (split-to_hex 15 high ("/" ∷ pad_hex low) "" _ (omega arith)
        (split-slash (pad_hex low) ∙ ap (λ ps. List.◌∷◌ "" ps) (split-pad_hex low k)))
      (rw (parse_uint-to_hex high h, parse_parts) (rw (parse_uint-pad_hex low k)))

-- ParseLSN reads back the text that LSN.String gives, for every uint64.
pub parse-string : (l : ℕ) → l < 2 ^ 64 → parse (string l) ≡ some l
unfolding string
parse-string l h =
    parse-print (l / 2 ^ 32 % 2 ^ 32) (l % 2 ^ 32) (omega arith) (omega arith)
    ∙ ap some (omega arith)

add_digit-lt : (n : ℕ) (d : Option ℕ) (m : ℕ) → add_digit n d ≡ some m → m < 2 ^ 32
unfolding add_digit
add_digit-lt n none m e = cc
add_digit-lt n (some d) m e = ground arith

parse_digits-lt : (n : ℕ) (s : String) (m : ℕ) → n < 2 ^ 32 → parse_digits n s ≡ some m → m < 2 ^ 32
unfolding parse_digits
parse_digits-lt n [] m h e = ground arith
parse_digits-lt n (c ∷ s) m h e = elim (Option-cases (add_digit n (digit_value (code c)))) [
  | inl bad ↦ absurd (ground arith)
  | inr (k, good) ↦
      parse_digits-lt k s m (add_digit-lt n (digit_value (code c)) k good)
        (rw (good, parse_digits) at e)
]

parse_uint-lt : (s : String) (m : ℕ) → parse_uint s ≡ some m → m < 2 ^ 32
unfolding parse_uint
parse_uint-lt [] m e = cc
parse_uint-lt (c ∷ s) m e = parse_digits-lt 0 (c ∷ s) m (omega arith) e

parse_parts-lt : (ps : List String) (l : ℕ) → parse_parts ps ≡ some l → l < 2 ^ 64
unfolding parse_parts
parse_parts-lt (List.◌∷◌ high (List.◌∷◌ low List.[])) l e = elim (Option-cases (parse_uint high)) [
  | inl bad ↦ absurd (ground arith)
  | inr (h, eh) ↦ elim (Option-cases (parse_uint low)) [
    | inl bad ↦ absurd (ground arith)
    | inr (k, ek) ↦ ground (arith, parse_uint-lt high h eh, parse_uint-lt low k ek)
  ]
]
parse_parts-lt _ l e = cc

-- Whatever the text, a parsed LSN is a uint64: the shift and the or of ParseLSN lose no bit.
pub parse-lt : (s : String) (l : ℕ) → parse s ≡ some l → l < 2 ^ 64
unfolding parse
parse-lt s l e = parse_parts-lt _ l e

parse_empty : parse "" ≡ none
unfolding parse split parse_parts
parse_empty = refl

pub string_nonempty : (l : ℕ) → l < 2 ^ 64 → (string l == "") ≡ false
string_nonempty l h = elim (Bool-cases (string l == "")) [
  | inl e ↦
      let read = sym (parse-string l h) ∙ ap parse ((eq_iff _ _).0 e) ∙ parse_empty in
      absurd (ground (arith, read))
  | inr e ↦ e
]
