-- ===== src/Tests/Refused.antt =====
-- A deposit that is not paid is not refunded.
use text.Mathlib.TextEquality.{eq_iff}
use abmcy_core_payment.Base.{String-discrete, find, ◌≡◌, refl, arith, ◌+◌}
use abmcy_core_payment.Model.{completed}
use abmcy_core_payment.Http.{not_refundable}
use abmcy_core_payment.Payments.Refund.{refund}
use abmcy_core_payment.Payments.Refusals.{refund_unpaid}
use abmcy_core_payment.Tests.Samples.{calm, shop, some_request, unpaid, unpaid_shop, return_of}

refund_unpaid_example : refund calm shop "app-1" some_request unpaid_shop ≡ (
  record { status = 422; body = not_refundable "pending" },
  record unpaid_shop { tick = 0 + 1 + 1 },
)
unfolding find String-discrete
refund_unpaid_example =
    refund_unpaid calm shop "app-1" some_request return_of unpaid unpaid_shop refl
      (ground (arith, eq_iff "order-1" "")) refl refl refl refl
      (ground (arith, eq_iff "pending" completed))
