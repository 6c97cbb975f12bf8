-- ===== src/Tests/Commissions.antt =====
-- The commission on concrete amounts.
use abmcy_core_payment.Base.{ℕ, ◌≡◌, ◌<◌, arith}
use abmcy_core_payment.Int64.{pos}
use abmcy_core_payment.Fees.{compute, effective_rate}
use abmcy_core_payment.Fees.Bounds.{described, IsSplit, compute-described, compute-IsSplit}

compute-described_example :
    (r : ℕ) × (effective_rate (pos 600) ≡ pos r)
    × (0 < r)
    × (compute (pos 601) (pos 600) ≡ described 601 r)
compute-described_example =
    compute-described 601 (pos 600) (omega arith) (omega arith) (omega arith)

compute-IsSplit_example :
    IsSplit (pos 30) (compute (pos 30) (pos 0)).fee_cfa (compute (pos 30) (pos 0)).net_cfa
compute-IsSplit_example = compute-IsSplit (pos 30) (pos 0) (omega arith) (omega arith) (omega arith)
