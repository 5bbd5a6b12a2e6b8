-- ===== src/Models/Lsn/Digits.antt =====
-- The hexadecimal digits of fmt and strconv, which models/lsn.go prints and reads.
use Prim.Native.String.{◌∷◌}
use posduif.Common.{
  ℕ, zero, suc, ◌+◌, ◌*◌, ◌/◌, ◌%◌, ◌^◌, ◌<◌, code, String, ◌≡◌, refl, Bool, true, false, Option,
  none, some, ◌&&◌, arith, not, nat_eq, ltb, Bool-cases, inl, inr, ap, ◌∙◌,
}
use native.Mathlib.Nat.{pow-suc}
use posduif.Models.Lsn.{digit, digit_value, add_digit, to_hex, zeros, parse_digits}

-- A test of all numbers below 16, by evaluation.
digits_pass : (ℕ → Bool) → ℕ → Bool
digits_pass test zero = true
digits_pass test (suc d) = digits_pass test d && test d

digit_passes :
    (test : ℕ → Bool) (bound d : ℕ) → d < bound → digits_pass test bound ≡ true → test d ≡ true
unfolding digits_pass
digit_passes test (suc n) d below pass = elim (Bool-cases (ltb d n)) [
  | inl e ↦ digit_passes test n d (ground arith) (ground arith)
  | inr e ↦ ground arith
]
digit_passes test zero d below pass = absurd (omega arith)

abbrev has_value : Option ℕ → ℕ → Bool
has_value none d = false
has_value (some e) d = nat_eq e d

has_value_sound : (o : Option ℕ) (d : ℕ) → has_value o d ≡ true → o ≡ some d
has_value_sound none d h = cc
has_value_sound (some e) d h = ground arith

digit_table : digits_pass (λ d. has_value (digit_value (code (digit d))) d) 16 ≡ true
unfolding digits_pass digit digit_value
digit_table = refl

slash_table : digits_pass (λ d. not (nat_eq (code (digit d)) b'/')) 16 ≡ true
unfolding digits_pass digit
slash_table = refl

pub digit_value-digit : (d : ℕ) → d < 16 → digit_value (code (digit d)) ≡ some d
digit_value-digit d h = has_value_sound _ d (digit_passes _ 16 d h digit_table)

pub digit_no_slash : (d : ℕ) → d < 16 → nat_eq (code (digit d)) b'/' ≡ false
digit_no_slash d h =
    let e = digit_passes (λ x. not (nat_eq (code (digit x)) b'/')) 16 d h slash_table in
    elim (Bool-cases (nat_eq (code (digit d)) b'/')) [ inl p ↦ absurd (ground arith) | inr p ↦ p ]

add_digit-some : (n d : ℕ) → d < 16 → n * 16 + d < 2 ^ 32 → add_digit n (some d) ≡ some (n * 16 + d)
unfolding add_digit
add_digit-some n d h k = ground arith

-- Reading what was printed in front of a tail leaves the number read so far and the tail.
pub parse_digits-digit :
    (n d : ℕ) (s : String)
    → d < 16
    → n * 16 + d < 2 ^ 32
    → parse_digits n (digit d ∷ s) ≡ parse_digits (n * 16 + d) s
unfolding parse_digits
parse_digits-digit n d s h k =
    rw (digit_value-digit d h, parse_digits) (rw (add_digit-some n d h k, parse_digits))

pub fewer : (f n : ℕ) → n < 16 ^ suc (suc f) → n / 16 < 16 ^ suc f
fewer f n h = omega (arith, pow-suc 16 (suc f))

pub parse_digits-to_hex :
    (f n : ℕ) (tail : String)
    → n < 2 ^ 32
    → n < 16 ^ suc f
    → parse_digits 0 (to_hex f n tail) ≡ parse_digits n tail
unfolding to_hex
parse_digits-to_hex zero n tail h k = ground (arith, parse_digits-digit 0 (n % 16) tail)
parse_digits-to_hex (suc f) n tail h k = elim (Bool-cases (ltb n 16)) [
  | inl one ↦ rw one (ground (arith, parse_digits-digit 0 n tail))
  | inr more ↦
      rw (more, parse_digits-to_hex f (n / 16) (digit (n % 16) ∷ tail) (omega arith) (fewer f n k))
        (parse_digits-digit (n / 16) (n % 16) tail (omega arith) (omega arith)
          ∙ ap (λ m. parse_digits m tail) (omega arith))
]

pub parse_digits-zeros : (k : ℕ) (s : String) → parse_digits 0 (zeros k s) ≡ parse_digits 0 s
unfolding zeros parse_digits add_digit digit_value
parse_digits-zeros zero s = refl
parse_digits-zeros (suc k) s = parse_digits-zeros k s
