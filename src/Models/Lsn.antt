-- ===== src/Models/Lsn.antt =====
-- sync-engine/internal/models/lsn.go: the type LSN (a uint64, here a number below 2 ^ 64), its
-- String method and ParseLSN, with the parts of fmt and strconv that they use.
pub mod Digits
pub mod RoundTrip
use Prim.Native.String.{[], ◌∷◌}
use posduif.Common.{
  ℕ, zero, suc, ◌+◌, ◌-◌, ◌*◌, ◌/◌, ◌%◌, ◌^◌, Char, code, String, Option, none, some, List, ◌&&◌,
  ◌≡◌, refl, ltb, leb, if◌then◌else◌,
}
use posduif.Common.Text.{text_length, split}

-- The upper case digit table of fmt; the last line is never reached at a value below 16.
nth : String → ℕ → Char
nth [] i = "0"
nth (c ∷ s) zero = c
nth (c ∷ s) (suc i) = nth s i

pub digit : ℕ → Char
unfolding nth
digit d = nth "0123456789ABCDEF" d

-- %X: the digits of n in front of a tail. Each round drops one digit, so `suc f` rounds are
-- enough below 16 ^ (f + 1).
pub to_hex : ℕ → ℕ → String → String
to_hex zero n tail = digit (n % 16) ∷ tail
to_hex (suc f) n tail =
    let longer = to_hex f (n / 16) (digit (n % 16) ∷ tail) in
    if ltb n 16 then digit n ∷ tail else longer

pub zeros : ℕ → String → String
zeros zero s = s
zeros (suc n) s = "0" ∷ zeros n s

-- %08X
pub pad_hex : ℕ → String
pad_hex n = let s = to_hex 15 n "" in zeros (8 - text_length s) s

-- LSN.String
pub string : ℕ → String
string l =
    let high = l / 2 ^ 32 % 2 ^ 32 in let low = l % 2 ^ 32 in to_hex 15 high ("/" ∷ pad_hex low)

-- The value of a digit, as strconv.ParseUint reads it; 16 and above is refused by the caller.
pub digit_value : ℕ → Option ℕ
digit_value c =
    if leb b'0' c && leb c b'9'
    then some (c - b'0')
    else if leb b'a' c && leb c b'z'
    then some (c - b'a' + 10)
    else if leb b'A' c && leb c b'Z'
    then some (c - b'A' + 10)
    else none

-- One round of the loop of strconv.ParseUint(s, 16, 32): a digit out of the base is a syntax
-- error, a value above 2 ^ 32 - 1 a range error.
pub add_digit : ℕ → Option ℕ → Option ℕ
add_digit n none = none
add_digit n (some d) =
    if leb 16 d then none else if leb (2 ^ 32) (n * 16 + d) then none else some (n * 16 + d)

pub parse_digits : ℕ → String → Option ℕ
parse_digits n [] = some n
parse_digits n (c ∷ s) = elim (add_digit n (digit_value (code c))) [
  | none ↦ none
  | some m ↦ parse_digits m s
]

-- strconv.ParseUint(s, 16, 32)
pub parse_uint : String → Option ℕ
parse_uint [] = none
parse_uint (c ∷ s) = parse_digits 0 (c ∷ s)

-- The two halves of ParseLSN; its three errors are all `none`.
pub parse_parts : List String → Option ℕ
parse_parts (List.◌∷◌ high (List.◌∷◌ low List.[])) = elim (parse_uint high) [
  | none ↦ none
  | some h ↦ elim (parse_uint low) [ none ↦ none | some l ↦ some (h * 2 ^ 32 + l) ]
]
parse_parts _ = none

pub parse : String → Option ℕ
parse s = parse_parts (split b'/' s)

string_test : string 0x16B3748 ≡ "0/016B3748"
unfolding string pad_hex to_hex digit zeros
string_test = refl

parse_test : parse "16/b374d848" ≡ some 0x16b374d848
unfolding parse split parse_parts parse_uint parse_digits add_digit digit_value
parse_test = refl
