-- ===== src/Decimal.antt =====
-- What the program uses of strconv and fmt: `FormatInt`, `%d` and `ParseInt`, in base ten.
pub mod Laws
use Prim.Native.String.{◌++◌ as append}
use abmcy_core_payment.Base.{
  ℕ, zero, suc, ◌+◌, ◌-◌, ◌*◌, ◌/◌, ◌%◌, ◌^◌, String, ◌||◌, Option, none, some, List, [], ◌∷◌, ltb,
  eqb, if◌then◌else◌,
}
use abmcy_core_payment.Int64.{ℤ, pos, negsuc}

-- The bytes of the digits of `n` before `out`; the fuel is a bound on the number of digits.
unfoldable pub emit : ℕ → ℕ → List ℕ → List ℕ
emit zero n out = out
emit (suc fuel) n out =
    let out' = (b'0' + n % 10) ∷ out in
    let rest = emit fuel (n / 10) out' in if ltb n 10 then out' else rest

-- A number below 10^20 has at most twenty digits: every int64 has.
unfoldable pub format_int : ℤ → List ℕ
unfolding emit
format_int (pos n) = emit 20 n []
format_int (negsuc n) = b'-' ∷ emit 20 (suc n) []

abbrev digit_text : ℕ → String
digit_text c =
    if eqb c b'0'
    then "0"
    else if eqb c b'1'
    then "1"
    else if eqb c b'2'
    then "2"
    else if eqb c b'3'
    then "3"
    else if eqb c b'4'
    then "4"
    else if eqb c b'5'
    then "5"
    else if eqb c b'6'
    then "6"
    else if eqb c b'7'
    then "7"
    else if eqb c b'8'
    then "8"
    else if eqb c b'9'
    then "9"
    else "-"

unfoldable pub text_of_digits : List ℕ → String
text_of_digits [] = ""
text_of_digits (c ∷ s) = append (digit_text c) (text_of_digits s)

unfoldable pub scan_digits : List ℕ → ℕ → Option ℕ
scan_digits [] n = some n
scan_digits (c ∷ s) n =
    let rest = scan_digits s (n * 10 + (c - b'0')) in
    if ltb c b'0' || ltb b'9' c then none else rest

-- At least one digit.
unfoldable pub scan_number : List ℕ → Option ℕ
unfolding scan_digits
scan_number [] = none
scan_number (c ∷ s) = scan_digits (c ∷ s) 0

-- Atoi and ParseInt tell a text that is no number from a number that has no room.
pub data Scanned : Type 0 where
  syntax range : Scanned
  value : ℕ → Scanned

-- ParseUint(s, 10, 64) stops where the number has left the 64 bits, whatever follows.
unfoldable pub scan_uint : List ℕ → ℕ → Scanned
scan_uint [] n = value n
scan_uint (c ∷ s) n =
    let next = n * 10 + (c - b'0') in
    let rest = scan_uint s next in
    if ltb c b'0' || ltb b'9' c then syntax else if ltb next (2 ^ 64) then rest else range

abbrev at_least_a_digit : List ℕ → Scanned
at_least_a_digit [] = syntax
at_least_a_digit (c ∷ s) = scan_uint (c ∷ s) 0

abbrev clamp : Scanned → ℤ
clamp syntax = pos 0
clamp range = pos (2 ^ 63 - 1)
clamp (value n) = if ltb n (2 ^ 63) then pos n else pos (2 ^ 63 - 1)

abbrev clamp_negative : Scanned → ℤ
clamp_negative syntax = pos 0
clamp_negative range = negsuc (2 ^ 63 - 1)
clamp_negative (value zero) = pos 0
clamp_negative (value (suc n)) = if ltb n (2 ^ 63) then negsuc n else negsuc (2 ^ 63 - 1)

-- The number that `strconv.Atoi` returns, also with an error: 0 of a text that is no number, and
-- the nearest int64 of a number that has no room. The error is there where `parse_int` is `none`.
unfoldable pub atoi_value : List ℕ → ℤ
unfolding scan_uint
atoi_value [] = pos 0
atoi_value (c ∷ s) =
    if eqb c b'-'
    then clamp_negative (at_least_a_digit s)
    else if eqb c b'+'
    then clamp (at_least_a_digit s)
    else clamp (at_least_a_digit (c ∷ s))

abbrev positive : Option ℕ → Option ℤ
positive none = none
positive (some n) = if ltb n (2 ^ 63) then some (pos n) else none

abbrev negative : Option ℕ → Option ℤ
negative none = none
negative (some zero) = some (pos 0)
negative (some (suc n)) = if ltb n (2 ^ 63) then some (negsuc n) else none

-- ParseInt(s, 10, 64): an optional sign, then digits, and the number fits.
unfoldable pub parse_int : List ℕ → Option ℤ
unfolding scan_number
parse_int [] = none
parse_int (c ∷ s) =
    if eqb c b'-'
    then negative (scan_number s)
    else if eqb c b'+'
    then positive (scan_number s)
    else positive (scan_number (c ∷ s))
