-- ===== src/Tests/Booked.antt =====
-- The book of the payments, a refund, the goroutines of callbacks, and an app that is switched off.
use text.Mathlib.TextEquality.{eq_iff}
use abmcy_core_payment.Base.{
  String, String-discrete, false, none, some, [], ◌∷◌, ◌≡◌, ◌≢◌, refl, arith, ◌+◌, any,
}
use abmcy_core_payment.Int64.{pos}
use abmcy_core_payment.World.{World, Env}
use abmcy_core_payment.Http.{Request, error}
use abmcy_core_payment.Auth.{require_app}
use abmcy_core_payment.Admin.{set_app_active}
use abmcy_core_payment.Admin.Deactivation.{set_app_active-require_app}
use abmcy_core_payment.Repo.Payments.{PaymentParams, create_payment, update_payment_status, or_else}
use abmcy_core_payment.Repo.Payments.Book.{
  Key, key_of, book_of, amend, new_row, IsPut, create_payment-IsPut, update_payment_status-book_of,
}
use abmcy_core_payment.Payments.Handler.{lookup_app}
use abmcy_core_payment.Payments.Pay.{pay}
use abmcy_core_payment.Payments.Refund.{refund}
use abmcy_core_payment.Payments.Draining.{rest, drain, drain-rest}
use abmcy_core_payment.Payments.Returning.{IsReturned, refund-IsReturned}
use abmcy_core_payment.Server.{relayer}
use abmcy_core_payment.Tests.Samples.{
  calm, shop, paid, paid_shop, new_shop, some_request, app_request,
}

refund-IsReturned_example : IsReturned paid_shop (refund calm shop "app-1" some_request paid_shop).1
refund-IsReturned_example = refund-IsReturned calm shop "app-1" some_request paid_shop

-- Two relays of a payment without a callback URL.
abbrev called_twice : World
called_twice = record paid_shop { relays = paid ∷ paid ∷ [] }

drain-rest_example :
    rest (drain calm shop 2 called_twice) ≡ record (rest called_twice) { relays = [] }
drain-rest_example = drain-rest calm shop called_twice

abbrev switching_off : Env
switching_off = record calm { decode_active = λ _. some false }

abbrev for_app : Request
for_app = record some_request { param = λ _. "app-1" }

abbrev key_name : String
key_name = "key"

key_is_given : app_request.header "X-App-Key" ≢ ""
unfolding String-discrete
key_is_given = ground (arith, eq_iff key_name "")

set_app_active-require_app_example :
    require_app switching_off
      (lookup_app switching_off)
      (pay switching_off shop)
      app_request
      (set_app_active switching_off (relayer switching_off shop) for_app new_shop).1
    ≡ (
      record { status = 401; body = error "invalid_app_key" },
      record (set_app_active switching_off (relayer switching_off shop) for_app new_shop).1 {
        tick =
            (set_app_active switching_off (relayer switching_off shop) for_app new_shop).1.tick + 1;
      },
    )
set_app_active-require_app_example =
    set_app_active-require_app switching_off (λ n. refl) (relayer switching_off shop) for_app
      app_request (pay switching_off shop) new_shop refl key_is_given ((λ _. refl), tt)

abbrev paid_key : Key
paid_key = key_of paid

update_payment_status-book_of_example :
    book_of (update_payment_status calm "id-1" "failed" none none paid_shop).1 paid_key
    ≡ amend "id-1"
        (λ p. record p {
          status = "failed";
          provider = or_else none p.provider;
          failure_reason = none;
          updated_at = calm.now 0;
        })
        (book_of paid_shop)
        paid_key
unfolding String-discrete
update_payment_status-book_of_example =
    update_payment_status-book_of calm "id-1" "failed" none none paid_shop paid_key refl refl

abbrev params : PaymentParams
params = record {
  app_id = "app-1";
  app_ref = "order-1";
  diarra_client_ref = "new";
  amount_cfa = pos 1000;
  fee_cfa = pos 100;
  net_cfa = pos 900;
  usd_rate_used = pos 600;
  currency = "XOF";
  description = none;
  callback_url = none;
}

create_payment-IsPut_example :
    IsPut calm new_shop
      (new_row calm params none new_shop)
      (create_payment calm params none new_shop)
unfolding any String-discrete
create_payment-IsPut_example =
    create_payment-IsPut calm params none new_shop refl refl refl refl refl
