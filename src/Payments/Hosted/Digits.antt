-- ===== src/Payments/Hosted/Digits.antt =====
-- The amount on the page has the digits of the number, in order.
use abmcy_core_payment.Base.{
  ℕ, zero, suc, ◌+◌, ◌-◌, ◌%◌, ◌/◌, ◌≡◌, refl, ◌∙◌, sym, ap, Bool, true, false, not, List, [], ◌∷◌,
  ◌++◌, length, take, drop, filter, All, arith, eqb, ltb, leb, if◌then◌else◌,
}
use abmcy_core_payment.Int64.{ℤ, pos, negsuc}
use abmcy_core_payment.Decimal.{emit, format_int}
use abmcy_core_payment.Payments.Hosted.{spaced, group_loop, group_digits, group_thousands}

abbrev pub is_digit : ℕ → Bool
is_digit c = not (eqb c b' ')

-- The text without its spaces.
abbrev pub digits : List ℕ → List ℕ
digits = filter is_digit

digits-append : (s t : List ℕ) → digits (s ++ t) ≡ digits s ++ digits t
unfolding filter
digits-append [] t = refl
digits-append (c ∷ s) t = let h = digits-append s t in ground arith

append_nil : (s : List ℕ) → s ++ [] ≡ s
append_nil [] = refl
append_nil (c ∷ s) = ap (λ t. c ∷ t) (append_nil s)

append_assoc : (s t u : List ℕ) → (s ++ t) ++ u ≡ s ++ (t ++ u)
append_assoc [] t u = refl
append_assoc (c ∷ s) t u = ap (λ v. c ∷ v) (append_assoc s t u)

digits-spaced : (s : List ℕ) → digits (spaced s) ≡ digits s
unfolding filter
digits-spaced [] = refl
digits-spaced (c ∷ s) = digits-append (c ∷ s) (b' ' ∷ []) ∙ append_nil (digits (c ∷ s))

abbrev HasNoSpace : List ℕ → Type 0
HasNoSpace = All (λ c. is_digit c ≡ true)

digits-HasNoSpace : (s : List ℕ) → HasNoSpace s → digits s ≡ s
unfolding filter
digits-HasNoSpace [] h = refl
digits-HasNoSpace (c ∷ s) (p, h) = let q = digits-HasNoSpace s h in ground arith

-- The loop keeps the digits when a multiple of three is left.
digits-group_loop :
    (out s : List ℕ) → length s % 3 ≡ 0 → HasNoSpace s → digits (group_loop out s) ≡ digits out ++ s
unfolding group_loop
digits-group_loop out [] h n = sym (append_nil (digits out))
digits-group_loop out (a ∷ []) h n = absurd (omega arith)
digits-group_loop out (a ∷ b ∷ []) h n = absurd (omega arith)
digits-group_loop out (a ∷ b ∷ c ∷ s) h (na, (nb, (nc, n))) =
    digits-group_loop (spaced out ++ (a ∷ b ∷ c ∷ [])) s (omega arith) n
    ∙ ap (λ t. t ++ s)
        (digits-append (spaced out) (a ∷ b ∷ c ∷ [])
          ∙ ap (λ t. t ++ digits (a ∷ b ∷ c ∷ [])) (digits-spaced out)
          ∙ ap (λ t. digits out ++ t) (digits-HasNoSpace (a ∷ b ∷ c ∷ []) (na, (nb, (nc, tt)))))
    ∙ append_assoc (digits out) (a ∷ b ∷ c ∷ []) s

length-drop : (k : ℕ) (s : List ℕ) → length (drop k s) ≡ length s - k
length-drop zero s = ground arith
length-drop (suc k) [] = ground arith
length-drop (suc k) (c ∷ s) = let h = length-drop k s in ground arith

HasNoSpace-drop : (k : ℕ) (s : List ℕ) → HasNoSpace s → HasNoSpace (drop k s)
HasNoSpace-drop zero s h = h
HasNoSpace-drop (suc k) [] h = tt
HasNoSpace-drop (suc k) (c ∷ s) (p, h) = HasNoSpace-drop k s h

HasNoSpace-take : (k : ℕ) (s : List ℕ) → HasNoSpace s → HasNoSpace (take k s)
HasNoSpace-take zero s h = tt
HasNoSpace-take (suc k) [] h = tt
HasNoSpace-take (suc k) (c ∷ s) (p, h) = (p, HasNoSpace-take k s h)

take-drop : (k : ℕ) (s : List ℕ) → take k s ++ drop k s ≡ s
take-drop zero s = refl
take-drop (suc k) [] = refl
take-drop (suc k) (c ∷ s) = ap (λ t. c ∷ t) (take-drop k s)

digits-group_digits : (s : List ℕ) → HasNoSpace s → digits (group_digits s) ≡ s
unfolding group_digits
digits-group_digits s h = by_length (leb (length s) 3)
  where
    pre : ℕ
    pre = length s % 3

    left : length (drop pre s) % 3 ≡ 0
    left = let e : length (drop pre s) ≡ length s - pre = length-drop pre s in grind arith

    by_length : (b : Bool) → digits (if b then s else group_loop (take pre s) (drop pre s)) ≡ s
    by_length true = digits-HasNoSpace s h
    by_length false =
        digits-group_loop (take pre s) (drop pre s) left (HasNoSpace-drop pre s h)
        ∙ ap (λ t. t ++ drop pre s) (digits-HasNoSpace (take pre s) (HasNoSpace-take pre s h))
        ∙ take-drop pre s

emit-HasNoSpace : (fuel n : ℕ) (out : List ℕ) → HasNoSpace out → HasNoSpace (emit fuel n out)
unfolding emit
emit-HasNoSpace zero n out h = h
emit-HasNoSpace (suc fuel) n out h =
    by_test ((b'0' + n % 10) ∷ out) (emit fuel (n / 10) ((b'0' + n % 10) ∷ out)) (ltb n 10)
      (digit, h) (emit-HasNoSpace fuel (n / 10) ((b'0' + n % 10) ∷ out) (digit, h))
  where
    digit : is_digit (b'0' + n % 10) ≡ true
    digit = ground arith

    by_test :
        (s t : List ℕ) (b : Bool) → HasNoSpace s → HasNoSpace t → HasNoSpace (if b then s else t)
    by_test s t true p q = p
    by_test s t false p q = q

format_int-HasNoSpace : (n : ℤ) → HasNoSpace (format_int n)
unfolding format_int
format_int-HasNoSpace (pos n) = emit-HasNoSpace 20 n [] tt
format_int-HasNoSpace (negsuc n) = (refl, emit-HasNoSpace 20 (suc n) [] tt)

-- Without its spaces, the amount on the page is the decimal number, for every amount: grouping loses
-- no digit and changes no order.
pub digits-group_thousands : (n : ℤ) → filter is_digit (group_thousands n) ≡ format_int n
unfolding group_thousands
digits-group_thousands n = digits-group_digits (format_int n) (format_int-HasNoSpace n)
