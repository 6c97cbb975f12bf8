-- ===== src/Fees/Tests.antt =====
-- The cases of internal/fees/fees_test.go, and an amount at which the product overflows.
use abmcy_core_payment.Base.{◌≡◌, refl}
use abmcy_core_payment.Int64.{pos, ◌+ℤ◌, ◌-ℤ◌, ◌*ℤ◌, wrap, add64, sub64, mul64, div64}
use abmcy_core_payment.Fees.{compute, started_dollars, capped_fee}

test_compute : (compute (pos 0) (pos 600)).fee_cfa ≡ pos 0
unfolding compute
test_compute = refl

test_several :
    ((compute (pos 601) (pos 600)).fee_cfa ≡ pos 100)
    × ((compute (pos 200_000) (pos 600)).net_cfa ≡ pos 183_300)
    × ((compute (pos 40) (pos 600)).net_cfa ≡ pos 0)
    × ((compute (pos 600) (pos 0)).usd_rate_used ≡ pos 600)
unfolding compute started_dollars capped_fee wrap add64 sub64 mul64 div64 ◌+ℤ◌ ◌-ℤ◌ ◌*ℤ◌
test_several = (refl, refl, refl, refl)
