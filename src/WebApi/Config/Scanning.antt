-- ===== src/WebApi/Config/Scanning.antt =====
-- config.go: the ports that Sscanf reads from the environment.
use Prim.Native.String.{[], ◌∷◌}
use posduif.Common.{◌*◌, ◌+◌, ◌-◌, ℕ, Char, code, String, true, false, ◌≡◌, refl, arith}
use posduif.Database.Slots.{append}
use posduif.WebApi.Config.{is_digit, digits_value, signed, scan_int}

abbrev AreDigits : String → Type 0
AreDigits [] = Unit
AreDigits (c ∷ s) = (is_digit (code c) ≡ true) × AreDigits s

-- The text does not go on with a digit.
abbrev EndsNumber : String → Type 0
EndsNumber [] = Unit
EndsNumber (c ∷ s) = is_digit (code c) ≡ false

digits_value_stops : (n : ℕ) (rest : String) → EndsNumber rest → digits_value n rest ≡ n
unfolding digits_value
digits_value_stops n [] h = refl
digits_value_stops n (c ∷ s) h = rw h refl

digits_value-append :
    (ds rest : String) (n : ℕ)
    → AreDigits ds
    → EndsNumber rest
    → digits_value n (append ds rest) ≡ digits_value n ds
unfolding digits_value append
digits_value-append [] rest n d h = digits_value_stops n rest h
digits_value-append (c ∷ ds) rest n d h =
    rw d.0 (digits_value-append ds rest (10 * n + (code c - b'0')) d.1 h)

scan_digit : (c : Char) (s : String) → is_digit (code c) ≡ true → scan_int (c ∷ s) ≡ signed (c ∷ s)
unfolding scan_int
scan_digit c s h = ground (arith, h)

signed_same :
    (c : Char) (s t : String)
    → is_digit (code c) ≡ true
    → digits_value 0 (c ∷ t) ≡ digits_value 0 (c ∷ s)
    → signed (c ∷ t) ≡ signed (c ∷ s)
signed_same c s t h e = ground (arith, h, e)

-- What follows the digits of a number is not read: a text of digits, with anything behind it that
-- is no digit, gives the port that the digits alone give.
pub scan_int-append :
    (c : Char) (ds rest : String)
    → AreDigits (c ∷ ds)
    → EndsNumber rest
    → scan_int (append (c ∷ ds) rest) ≡ scan_int (c ∷ ds)
unfolding append
scan_int-append c ds rest d h =
    rw (scan_digit c (append ds rest) d.0, scan_digit c ds d.0)
      (signed_same c ds (append ds rest) d.0 (digits_value-append (c ∷ ds) rest 0 d h))
