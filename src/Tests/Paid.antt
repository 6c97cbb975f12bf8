-- ===== src/Tests/Paid.antt =====
-- Payments of a shop: asked for twice, called back, relayed, above the limit, paid out.
use abmcy_core_payment.Base.{
  String-discrete, ◌+◌, String, none, some, [], ◌∷◌, ◌≡◌, refl, ◌⊎◌, arith, ◌==◌, find,
}
use abmcy_core_payment.Model.{kyc_none, kyc_verified, max_amount_for}
use abmcy_core_payment.Http.{empty, limit_exceeded}
use abmcy_core_payment.Int64.{pos}
use abmcy_core_payment.World.{ok}
use abmcy_core_payment.Repo.Payments.{PaymentParams, create_payment}
use abmcy_core_payment.Repo.Payments.Conflicts.{create_payment_existing}
use abmcy_core_payment.Payments.Pay.{pay}
use abmcy_core_payment.Payments.Payout.{payout}
use abmcy_core_payment.Payments.Relay.{relay_payment}
use abmcy_core_payment.Payments.Callback.{
  callback_decoded, diarra_callback, verify_gateway_signature,
}
use abmcy_core_payment.Payments.Delivery.{
  IsFromGateway, stored, IsGenuine, diarra_callback-IsGenuine, diarra_callback-stored,
  diarra_callback-unknown,
}
use abmcy_core_payment.Payments.Tracing.{IsTraced, relay_payment-IsTraced}
use abmcy_core_payment.Payments.Idempotence.{IsSame, entry, pay-IsSame}
use abmcy_core_payment.Payments.Limits.{IsKnown, pay_over, payout_over}
use abmcy_core_payment.Payments.Backing.{IsBacked, payout-IsBacked}
use abmcy_core_payment.Tests.Samples.{
  calm, shop, order, some_request, gateway_request, shop_app, new_shop, paid, paid_shop, callback,
  large_order, large_payout, greedy,
}

pay-IsSame_example :
    IsSame calm shop (entry paid) paid_shop (pay calm shop "app-1" some_request paid_shop)
unfolding find String-discrete
pay-IsSame_example =
    pay-IsSame calm shop "app-1" some_request order paid paid_shop refl refl refl refl

-- The order again, as CreatePayment gets it.
abbrev order_params : PaymentParams
order_params = record {
  app_id = "app-1";
  app_ref = "order-1";
  diarra_client_ref = "ref-2";
  amount_cfa = pos 1000;
  fee_cfa = pos 100;
  net_cfa = pos 900;
  usd_rate_used = pos 600;
  currency = "XOF";
  description = none;
  callback_url = none;
}

create_payment_existing_example :
    create_payment calm order_params none paid_shop
    ≡ (ok paid, record paid_shop { tick = 0 + 1 + 1 })
unfolding find String-discrete
create_payment_existing_example =
    create_payment_existing calm order_params none paid paid_shop refl refl refl refl

from_gateway : IsFromGateway calm shop gateway_request "{}"
unfolding verify_gateway_signature String-discrete
from_gateway = record { read = refl; signed = refl }

diarra_callback-stored_example :
    diarra_callback calm shop gateway_request paid_shop
    ≡ (record { status = 200; body = empty }, stored calm shop paid callback paid_shop)
unfolding find String-discrete
diarra_callback-stored_example =
    diarra_callback-stored calm shop gateway_request "{}" paid callback paid_shop from_gateway refl
      refl refl refl refl

diarra_callback-unknown_example :
    diarra_callback calm shop gateway_request new_shop
    ≡ (record { status = 200; body = empty }, record new_shop { tick = 1 })
unfolding find String-discrete
diarra_callback-unknown_example =
    diarra_callback-unknown calm shop gateway_request "{}" callback new_shop from_gateway refl refl

diarra_callback-IsGenuine_example :
    ((body : String) × IsGenuine calm shop gateway_request body
      × (diarra_callback calm shop gateway_request paid_shop
          ≡ callback_decoded calm shop (calm.decode_callback body) paid_shop))
    ⊎ (((body : String) → ¬ IsGenuine calm shop gateway_request body)
        × ((diarra_callback calm shop gateway_request paid_shop).1 ≡ paid_shop)
        × (((diarra_callback calm shop gateway_request paid_shop).0.status ≡ 400)
            ⊎ ((diarra_callback calm shop gateway_request paid_shop).0.status ≡ 401)))
diarra_callback-IsGenuine_example = diarra_callback-IsGenuine calm shop gateway_request paid_shop

relay_payment-IsTraced_example : IsTraced paid (paid ∷ []) (relay_payment calm paid paid_shop)
relay_payment-IsTraced_example = relay_payment-IsTraced calm (λ _. refl) paid paid_shop (λ _. refl)

shop_known : IsKnown greedy shop "app-1" some_request shop_app new_shop
unfolding find String-discrete
shop_known = record { first = refl; second = refl; found = refl }

pay_over_example : pay greedy shop "app-1" some_request new_shop ≡ (
  record {
    status = 422;
    body = limit_exceeded (record {
      max_cfa = max_amount_for kyc_verified;
      kyc_level = some kyc_verified;
      kyc_required = kyc_verified == kyc_none;
    });
  },
  record new_shop { tick = 0 + 1 + 1 },
)
unfolding find max_amount_for String-discrete
pay_over_example =
    pay_over greedy shop "app-1" some_request shop_app new_shop large_order shop_known refl refl
      refl (omega arith)

payout_over_example : payout greedy shop "app-1" some_request new_shop ≡ (
  record {
    status = 422;
    body = limit_exceeded (record {
      max_cfa = max_amount_for kyc_verified;
      kyc_level = none;
      kyc_required = kyc_verified == kyc_none;
    });
  },
  record new_shop { tick = 0 + 1 + 1 },
)
unfolding find max_amount_for String-discrete
payout_over_example =
    payout_over greedy shop "app-1" some_request shop_app new_shop large_payout shop_known refl refl
      refl (omega arith)

payout-IsBacked_example : IsBacked new_shop (payout calm shop "app-1" some_request new_shop).1
payout-IsBacked_example = payout-IsBacked calm shop "app-1" some_request new_shop
