-- ===== src/Decimal/Laws.antt =====
-- Reading a number: it fits, and what is written is read again.
use abmcy_core_payment.Base.{
  ℕ, zero, suc, ◌+◌, ◌-◌, ◌*◌, ◌/◌, ◌%◌, ◌^◌, ◌≤◌, ◌<◌, Bool, true, false, Option, none, some, List,
  [], ◌∷◌, ◌≡◌, refl, ap, ◌∙◌, arith, ltb, eqb, if◌then◌else◌,
}
use abmcy_core_payment.Int64.{ℤ, pos, negsuc, FitsInt64}
use abmcy_core_payment.Decimal.{
  positive, negative, emit, format_int, scan_digits, scan_number, parse_int,
}

positive-FitsInt64 : (o : Option ℕ) (n : ℤ) → positive o ≡ some n → FitsInt64 n
positive-FitsInt64 none n h = cc
positive-FitsInt64 (some k) (pos n) h = ground arith
positive-FitsInt64 (some k) (negsuc n) h = ground arith

negative-FitsInt64 : (o : Option ℕ) (n : ℤ) → negative o ≡ some n → FitsInt64 n
negative-FitsInt64 none n h = cc
negative-FitsInt64 (some zero) (pos n) h = ground arith
negative-FitsInt64 (some zero) (negsuc n) h = ground arith
negative-FitsInt64 (some (suc k)) (pos n) h = ground arith
negative-FitsInt64 (some (suc k)) (negsuc n) h = ground arith

-- What ParseInt returns is an int64.
pub parse_int-FitsInt64 : (s : List ℕ) (n : ℤ) → parse_int s ≡ some n → FitsInt64 n
unfolding parse_int
parse_int-FitsInt64 [] n h = cc
parse_int-FitsInt64 (c ∷ s) n h = by_sign (eqb c b'-') (eqb c b'+') h
  where
    by_sign :
        (a b : Bool)
        → (if a
            then negative (scan_number s)
            else if b
            then positive (scan_number s)
            else positive (scan_number (c ∷ s)))
          ≡ some n
        → FitsInt64 n
    by_sign true b h = negative-FitsInt64 (scan_number s) n h
    by_sign false true h = positive-FitsInt64 (scan_number s) n h
    by_sign false false h = positive-FitsInt64 (scan_number (c ∷ s)) n h

-- A list of bytes that begins with a digit.
StartsDigit : List ℕ → Type 0
StartsDigit s = (c : ℕ) × (t : List ℕ) × (s ≡ c ∷ t) × (b'0' ≤ c)

emit-StartsDigit : (fuel n : ℕ) (out : List ℕ) → StartsDigit out → StartsDigit (emit fuel n out)
unfolding emit StartsDigit
emit-StartsDigit zero n out h = h
emit-StartsDigit (suc fuel) n out h =
    by_size
      (emit-StartsDigit fuel (n / 10) ((b'0' + n % 10) ∷ out)
        (b'0' + n % 10, out, refl, omega arith))
      (ltb n 10)
  where
    by_size :
        StartsDigit (emit fuel (n / 10) ((b'0' + n % 10) ∷ out))
        → (b : Bool)
        → StartsDigit
            (if b then (b'0' + n % 10) ∷ out else emit fuel (n / 10) ((b'0' + n % 10) ∷ out))
    by_size ih true = (b'0' + n % 10, out, refl, omega arith)
    by_size ih false = ih

emit-suc-StartsDigit : (fuel n : ℕ) → StartsDigit (emit (suc fuel) n [])
unfolding emit StartsDigit
emit-suc-StartsDigit fuel n =
    by_size
      (emit-StartsDigit fuel (n / 10) ((b'0' + n % 10) ∷ []) (b'0' + n % 10, [], refl, omega arith))
      (ltb n 10)
  where
    by_size :
        StartsDigit (emit fuel (n / 10) ((b'0' + n % 10) ∷ []))
        → (b : Bool)
        → StartsDigit
            (if b then (b'0' + n % 10) ∷ [] else emit fuel (n / 10) ((b'0' + n % 10) ∷ []))
    by_size ih true = (b'0' + n % 10, [], refl, omega arith)
    by_size ih false = ih

scan_digit :
    (d m : ℕ) (out : List ℕ)
    → d < 10
    → scan_digits ((b'0' + d) ∷ out) m ≡ scan_digits out (m * 10 + d)
unfolding scan_digits
scan_digit d m out h =
    let above : ltb (b'0' + d) b'0' ≡ false = ground arith in
    let below : ltb b'9' (b'0' + d) ≡ false = ground arith in
    let digit : b'0' + d - b'0' ≡ d = omega arith in rw (above, below, digit)

scan_digits-emit :
    (fuel n : ℕ) (out : List ℕ)
    → n < 10 ^ fuel
    → scan_digits (emit fuel n out) 0 ≡ scan_digits out n
unfolding emit
scan_digits-emit zero n out h = let none_left : n ≡ 0 = omega arith in rw none_left
scan_digits-emit (suc fuel) n out h =
    let less : n / 10 < 10 ^ fuel = grind arith in
    let rest = scan_digits-emit fuel (n / 10) ((b'0' + n % 10) ∷ out) less in
    let whole : n / 10 * 10 + n % 10 ≡ n = omega arith in
    let last = scan_digit (n % 10) (n / 10) out (omega arith) in
    by_size (ltb n 10) refl (rest ∙ last ∙ ap (scan_digits out) whole)
  where
    by_size :
        (b : Bool)
        → ltb n 10 ≡ b
        → scan_digits (emit fuel (n / 10) ((b'0' + n % 10) ∷ out)) 0 ≡ scan_digits out n
        → scan_digits
            (if b then (b'0' + n % 10) ∷ out else emit fuel (n / 10) ((b'0' + n % 10) ∷ out))
            0
          ≡ scan_digits out n
    by_size true eq ih =
        let same : 0 * 10 + n % 10 ≡ n = ground arith in
        rw (scan_digit (n % 10) 0 out (omega arith), same)
    by_size false eq ih = ih

scan_number-StartsDigit : (s : List ℕ) → StartsDigit s → scan_number s ≡ scan_digits s 0
unfolding scan_number StartsDigit
scan_number-StartsDigit [] (c, t, same, digit) = cc
scan_number-StartsDigit (c ∷ s) h = refl

scan_number-emit : (n : ℕ) → n < 10 ^ 20 → scan_number (emit 20 n []) ≡ some n
unfolding scan_digits
scan_number-emit n h =
    scan_number-StartsDigit (emit 20 n []) (emit-suc-StartsDigit 19 n) ∙ scan_digits-emit 20 n [] h

parse_int-StartsDigit : (s : List ℕ) → StartsDigit s → parse_int s ≡ positive (scan_number s)
unfolding parse_int StartsDigit
parse_int-StartsDigit [] (c, t, same, digit) = cc
parse_int-StartsDigit (d ∷ s) (c, t, same, digit) =
    let head : d ≡ c = cc in
    let minus : eqb d b'-' ≡ false = ground arith in
    let plus : eqb d b'+' ≡ false = ground arith in rw (minus, plus)

-- The decimal digits of an int64, with its sign, are read as that int64: so the twenty digits that
-- `format_int` has room for are enough for every one.
pub parse_int-format_int : (n : ℤ) → FitsInt64 n → parse_int (format_int n) ≡ some n
unfolding format_int parse_int
parse_int-format_int (pos n) h =
    let fits : ltb n (2 ^ 63) ≡ true = ground arith in
    let scanned = scan_number-emit n (omega arith) in
    rw (parse_int-StartsDigit (emit 20 n []) (emit-suc-StartsDigit 19 n), scanned, fits)
parse_int-format_int (negsuc n) h =
    let fits : ltb n (2 ^ 63) ≡ true = ground arith in
    let scanned = scan_number-emit (suc n) (omega arith) in rw (parse_int, scanned, fits)
