-- ===== src/Tests/Ledgers.antt =====
-- The ledger of an app that orders and then refunds.
use abmcy_core_payment.Base.{arith}
use abmcy_core_payment.World.{World}
use abmcy_core_payment.Server.{Reach, stay, after, request, v1, post_pay, webhook, serve}
use abmcy_core_payment.Ledger.{IsLedger}
use abmcy_core_payment.Ledger.Handlers.Server.{Reach-IsLedger}
use abmcy_core_payment.Tests.Samples.{calm, shop, app_request, gateway_request, new_shop}

-- An order is made and called back.
abbrev called_back : World
called_back =
    (serve calm shop "admin" webhook gateway_request
      (serve calm shop "admin" (v1 post_pay) app_request new_shop).1).1

two_steps : Reach calm shop "admin" new_shop called_back
two_steps =
    after (after stay (request (v1 post_pay) app_request new_shop))
      (request webhook gateway_request _)

new_shop-IsLedger : IsLedger new_shop.payments
new_shop-IsLedger = record { rows = tt; links = tt; apart = tt }

Reach-IsLedger_example : IsLedger called_back.payments
Reach-IsLedger_example = Reach-IsLedger calm shop "admin" (omega arith) two_steps new_shop-IsLedger
