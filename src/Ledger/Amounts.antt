-- ===== src/Ledger/Amounts.antt =====
-- The amounts that the handlers write are accounted.
use abmcy_core_payment.Base.{◌-◌, ◌^◌, String, Bool, true, false, ◌&&◌, some, ◌≡◌, ◌≢◌, arith}
use abmcy_core_payment.Int64.{ℤ, pos, ◌≤ℤ◌, ltb_ℤ, leb_ℤ, fits_int4, FitsInt64}
use abmcy_core_payment.Fees.{compute}
use abmcy_core_payment.Fees.Bounds.{compute-IsSplit}
use abmcy_core_payment.Model.{type_payout, max_amount_for, max_amount_verified}
use abmcy_core_payment.Ledger.{IsAccountedAs}

pub positive_of_test : (a : ℤ) → leb_ℤ a (pos 0) ≡ false → pos 1 ≤ℤ a
positive_of_test a h = ground arith

-- No limit is above the highest.
pub max_amount_for-le : (level : String) → max_amount_for level ≤ℤ max_amount_verified
unfolding max_amount_for
max_amount_for-le level = ground arith

pub capped_of_test :
    (a : ℤ) (level : String) → ltb_ℤ (max_amount_for level) a ≡ false → a ≤ℤ max_amount_verified
unfolding max_amount_for
capped_of_test a level h = ground arith

fits_of_test : (a : ℤ) (b : Bool) → (fits_int4 a && b) ≡ true → a ≤ℤ pos (2 ^ 31 - 1)
fits_of_test a b h = ground arith

-- A positive amount within the limit, or of a payout, with its commission.
pub compute-IsAccountedAs :
    (kind : String) (amount rate : ℤ)
    → pos 1 ≤ℤ amount
    → (kind ≢ type_payout → amount ≤ℤ max_amount_verified)
    → FitsInt64 rate
    → (b : Bool) → (fits_int4 amount && b) ≡ true
    → IsAccountedAs kind amount (compute amount rate).fee_cfa (some (compute amount rate).net_cfa)
compute-IsAccountedAs kind amount rate h k r b fits = record {
  positive = h;
  split = compute-IsSplit amount rate h (fits_of_test amount b fits) r;
  capped = k;
}
