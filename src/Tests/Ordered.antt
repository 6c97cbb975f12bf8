-- ===== src/Tests/Ordered.antt =====
-- The first order of a shop, and one above the limit of the level that the console has set.
use abmcy_core_payment.Base.{String-discrete, ◌≡◌, ◌+◌, arith, some, refl, ◌==◌, find, any}
use abmcy_core_payment.Model.{max_amount_for, kyc_none, kyc_verified}
use abmcy_core_payment.World.{World}
use abmcy_core_payment.Http.{Request, limit_exceeded}
use abmcy_core_payment.Admin.{set_app_kyc}
use abmcy_core_payment.Admin.Levels.{set_app_kyc-pay_over}
use abmcy_core_payment.Server.{relayer}
use abmcy_core_payment.Int64.{mul64, wrap, ◌*ℤ◌, div64, sub64, ◌-ℤ◌, add64, ◌+ℤ◌}
use abmcy_core_payment.Fees.{compute, capped_fee, started_dollars}
use abmcy_core_payment.Uuid.{abmcy_uuid}
use abmcy_core_payment.Gateway.{read_reply}
use abmcy_core_payment.Payments.Pay.{pay}
use abmcy_core_payment.Payments.Limits.{IsKnown}
use abmcy_core_payment.Payments.Ordering.{IsTaken, IsFree, next_row, pay-IsTaken}
use abmcy_core_payment.Tests.Samples.{
  calm, shop, order, some_request, shop_app, new_shop, transaction, greedy, large_order,
}

known : IsKnown calm shop "app-1" some_request shop_app new_shop
unfolding find String-discrete
known = record { first = refl; second = refl; found = refl }

free : IsFree calm shop (next_row calm shop "app-1" order (record new_shop { tick = 2 }))
unfolding find any String-discrete compute capped_fee mul64 wrap ◌*ℤ◌ started_dollars div64 sub64
    ◌-ℤ◌ add64 ◌+ℤ◌ abmcy_uuid
free = record { fits = refl; key = refl; apart = refl; there = refl }

pay-IsTaken_example :
    IsTaken calm shop "app-1" order transaction new_shop.sent new_shop.payments
      (pay calm shop "app-1" some_request new_shop)
unfolding find max_amount_for read_reply String-discrete
pay-IsTaken_example =
    pay-IsTaken calm shop (λ _. refl) transaction (λ _. refl) (λ _ _. refl) "app-1" some_request
      shop_app order new_shop known refl refl refl (omega arith) free

abbrev for_app : Request
for_app = record some_request { param = λ _. "app-1" }

-- The shop after the console has set its level.
abbrev leveled_shop : World
leveled_shop = (set_app_kyc greedy (relayer greedy shop) for_app new_shop).1

set_app_kyc-pay_over_example : pay greedy shop "app-1" some_request leveled_shop ≡ (
  record {
    status = 422;
    body = limit_exceeded (record {
      max_cfa = max_amount_for kyc_verified;
      kyc_level = some kyc_verified;
      kyc_required = kyc_verified == kyc_none;
    });
  },
  record leveled_shop { tick = leveled_shop.tick + 1 + 1 },
)
unfolding find max_amount_for String-discrete
set_app_kyc-pay_over_example =
    set_app_kyc-pay_over greedy (λ n. refl) (relayer greedy shop) shop for_app some_request
      kyc_verified shop_app large_order new_shop refl refl refl refl refl refl (omega arith)
