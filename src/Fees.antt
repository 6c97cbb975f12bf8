-- ===== src/Fees.antt =====
-- internal/fees/fees.go: the commission on a transaction.
pub mod Bounds
mod Tests
use abmcy_core_payment.Base.{ℕ, Bool, if◌then◌else◌}
use abmcy_core_payment.Int64.{ℤ, pos, ltb_ℤ, leb_ℤ, add64, sub64, mul64, div64}

abbrev pub fee_per_usd : ℤ
fee_per_usd = pos 50

abbrev pub default_usd_rate : ℤ
default_usd_rate = pos 600

-- `Result` of the source.
pub record FeeResult : Type 0 where
  pub amount_cfa : ℤ
  pub fee_cfa : ℤ
  pub net_cfa : ℤ
  pub usd_rate_used : ℤ

-- The first test of `Compute`.
abbrev pub effective_rate : ℤ → ℤ
effective_rate usd_rate = if leb_ℤ usd_rate (pos 0) then default_usd_rate else usd_rate

-- `dollars` after its floor at one.
unfoldable pub started_dollars : ℤ → ℤ → ℤ
started_dollars amount rate =
    let dollars = div64 (sub64 (add64 amount rate) (pos 1)) rate in
    if ltb_ℤ dollars (pos 1) then pos 1 else dollars

unfoldable pub capped_fee : ℤ → ℤ → ℤ
capped_fee amount dollars =
    let fee = mul64 dollars fee_per_usd in if ltb_ℤ amount fee then amount else fee

unfoldable pub compute : ℤ → ℤ → FeeResult
compute amount usd_rate =
    let rate = effective_rate usd_rate in
    let fee = capped_fee amount (started_dollars amount rate) in
    if leb_ℤ amount (pos 0)
    then record { amount_cfa = amount; fee_cfa = pos 0; net_cfa = amount; usd_rate_used = rate }
    else record {
      amount_cfa = amount;
      fee_cfa = fee;
      net_cfa = sub64 amount fee;
      usd_rate_used = rate;
    }
