-- ===== src/Fees/Bounds.antt =====
-- The commission against its description: fifty francs for each started dollar, at most the amount.
use abmcy_core_payment.Base.{
  ℕ, zero, suc, false, ◌+◌, ◌-◌, ◌*◌, ◌/◌, ◌^◌, ◌≤◌, ◌<◌, ◌≡◌, refl, arith, if◌then◌else◌,
}
use Prim.Native.Nat.{min}
use native.Mathlib.Decide.{dec_lt}
use abmcy_core_payment.Int64.{ℤ, pos, negsuc, ltb_ℤ, leb_ℤ, ◌≤ℤ◌, ◌+ℤ◌, wrap, div64, FitsInt64}
use abmcy_core_payment.Int64.Laws.{
  add64-pos, add64_over, sub64-pos, sub64-negsuc, sub64_over, mul64-pos, div64-pos,
}
use abmcy_core_payment.Fees.{FeeResult, effective_rate, started_dollars, capped_fee, compute}

-- The least number of dollars, of `rate` francs each, that covers the amount.
abbrev pub ceil_div : ℕ → ℕ → ℕ
ceil_div amount rate = (amount + rate - 1) / rate

at_least_one : (n : ℕ) → 0 < n → (if ltb_ℤ (pos n) (pos 1) then pos 1 else pos n) ≡ pos n
at_least_one n h = ground arith

ceil_div-pos : (a r : ℕ) → 0 < a → 0 < r → 0 < ceil_div a r
ceil_div-pos a r h k = grind arith

ceil_div-le : (a r : ℕ) → 0 < a → 0 < r → ceil_div a r ≤ a
ceil_div-le a r h k = grind arith

ceil_div_one : (a r : ℕ) → 0 < a → a ≤ r → ceil_div a r ≡ 1
ceil_div_one a r h k = grind arith

pub started_dollars_small :
    (a r : ℕ)
    → 0 < a
    → 0 < r
    → a + r < 2 ^ 63
    → started_dollars (pos a) (pos r) ≡ pos (ceil_div a r)
unfolding started_dollars
started_dollars_small a r h k fits =
    let q : ceil_div a r ≤ a = ceil_div-le a r h k in
    rw
      (
        add64-pos a r fits,
        sub64-pos (a + r) 1 fits (omega arith),
        div64-pos (a + r - 1) r (omega arith),
      )
      (at_least_one (ceil_div a r) (ceil_div-pos a r h k))

div64_negsuc :
    (n r : ℕ)
    → n < 2 ^ 63
    → (let d = div64 (negsuc n) (pos r) in if ltb_ℤ d (pos 1) then pos 1 else d) ≡ pos 1
unfolding div64 wrap
div64_negsuc n r h = ground arith

div64_largest :
    (r : ℕ)
    → 2 ^ 62 < r
    → r < 2 ^ 63
    → (let d = div64 (pos (2 ^ 63 - 1)) (pos r) in if ltb_ℤ d (pos 1) then pos 1 else d) ≡ pos 1
unfolding div64 wrap
div64_largest r h k = let one : (2 ^ 63 - 1) / r ≡ 1 = grind arith in rw one

-- When the sum leaves the 64 bits the quotient is at most one, and the floor gives one dollar.
started_dollars_wrapped :
    (a r : ℕ)
    → 0 < a
    → a < 2 ^ 31
    → r < 2 ^ 63
    → 2 ^ 63 ≤ a + r
    → started_dollars (pos a) (pos r) ≡ pos 1
unfolding started_dollars
started_dollars_wrapped a r h small rate over =
    rw (add64_over a r over (omega arith)) (elim (dec_lt (2 ^ 63) (a + r)) [
      | yes more ↦
          rw (sub64-negsuc (2 ^ 64 - 1 - (a + r)) 1 (omega arith))
            (div64_negsuc (2 ^ 64 - 1 - (a + r) + 1) r (omega arith))
      | no same ↦
          let e : a + r ≡ 2 ^ 63 = omega arith in
          rw (e, sub64_over (2 ^ 63 - 1) 1 (omega arith) (omega arith))
            (div64_largest r (omega arith) rate)
    ])

-- For an amount that the database holds, the dollars are rounded up at every rate, also where
-- `amountCFA + usdRate - 1` overflows.
started_dollars_lem :
    (a r : ℕ)
    → 0 < a
    → a < 2 ^ 31
    → 0 < r
    → r < 2 ^ 63
    → started_dollars (pos a) (pos r) ≡ pos (ceil_div a r)
started_dollars_lem a r h small k rate = elim (dec_lt (a + r) (2 ^ 63)) [
  | yes fits ↦ started_dollars_small a r h k fits
  | no over ↦
      rw (started_dollars_wrapped a r h small rate (omega arith), ceil_div_one a r h (omega arith))
]

-- What the package comment says: fifty francs for each dollar, at most the amount.
abbrev pub described_fee : ℕ → ℕ → ℕ
described_fee amount rate = min (ceil_div amount rate * 50) amount

capped_fee_lem : (a d : ℕ) → a < 2 ^ 31 → d ≤ a → capped_fee (pos a) (pos d) ≡ pos (min (d * 50) a)
unfolding capped_fee
capped_fee_lem a d small h = rw (mul64-pos d 50 (omega arith)) (ground arith)

effective_rate_cases :
    (u : ℤ) → FitsInt64 u → (r : ℕ) × (effective_rate u ≡ pos r) × (0 < r) × (r < 2 ^ 63)
effective_rate_cases (pos zero) h = (600, refl, omega arith, omega arith)
effective_rate_cases (pos (suc n)) h = (suc n, ground arith, omega arith, h)
effective_rate_cases (negsuc n) h = (600, ground arith, omega arith, omega arith)

not_paid_out : (a : ℕ) → 0 < a → leb_ℤ (pos a) (pos 0) ≡ false
not_paid_out a h = ground arith

-- The commission that the package comment describes, at the rate that `Compute` uses.
abbrev pub described : ℕ → ℕ → FeeResult
described a r = record {
  amount_cfa = pos a;
  fee_cfa = pos (described_fee a r);
  net_cfa = pos (a - described_fee a r);
  usd_rate_used = pos r;
}

compute_positive :
    (a r : ℕ) (u : ℤ)
    → effective_rate u ≡ pos r
    → 0 < a
    → a < 2 ^ 31
    → 0 < r
    → r < 2 ^ 63
    → compute (pos a) u ≡ described a r
unfolding compute
compute_positive a r u e h small k rate =
    let q : ceil_div a r ≤ a = ceil_div-le a r h k in
    rw (
      e,
      not_paid_out a h,
      started_dollars_lem a r h small k rate,
      capped_fee_lem a (ceil_div a r) small q,
      sub64-pos a (described_fee a r) (omega arith) (omega arith),
    )

-- For every amount from 1 to 2^31 - 1 and every int64 rate, the commission is fifty francs for
-- each started dollar and at most the amount, the net is the rest, and the rate used is positive:
-- the given one, or 600 where that is not positive. So it is at every rate, also where the sum
-- `amountCFA + usdRate - 1` leaves the 64 bits.
pub compute-described :
    (a : ℕ) (u : ℤ)
    → 0 < a
    → a < 2 ^ 31
    → FitsInt64 u
    → (r : ℕ) × (effective_rate u ≡ pos r) × (0 < r) × (compute (pos a) u ≡ described a r)
compute-described a u h small fits =
    let (r, e, k, rate) = effective_rate_cases u fits in
    (r, e, k, compute_positive a r u e h small k rate)

-- A commission is from 0 to the amount, and the net is what it leaves.
pub record IsSplit (amount fee net : ℤ) : Type 0 where
  pub fee_nonneg : pos 0 ≤ℤ fee
  pub fee_fits : fee ≤ℤ amount
  pub adds_up : fee +ℤ net ≡ amount

pub described-IsSplit : (a r : ℕ) → IsSplit (pos a) (described a r).fee_cfa (described a r).net_cfa
unfolding ◌+ℤ◌
described-IsSplit a r = record {
  fee_nonneg = omega arith;
  fee_fits = omega arith;
  adds_up = ground arith;
}

-- For every positive amount that the database holds and every int64 rate, the commission and the
-- net are a split of the amount.
pub compute-IsSplit :
    (amount u : ℤ)
    → pos 1 ≤ℤ amount
    → amount ≤ℤ pos (2 ^ 31 - 1)
    → FitsInt64 u
    → IsSplit amount (compute amount u).fee_cfa (compute amount u).net_cfa
compute-IsSplit (pos a) u h small fits =
    let (r, _, _, eq) = compute-described a u (omega arith) (omega arith) fits in
    rw eq (described-IsSplit a r)
compute-IsSplit (negsuc a) u h small fits = absurd (omega arith)
