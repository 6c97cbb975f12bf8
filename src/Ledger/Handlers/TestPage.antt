-- ===== src/Ledger/Handlers/TestPage.antt =====
-- The test page keeps the ledger.
use Prim.Native.String.{◌++◌, slice}
use abmcy_core_payment.Base.{String, Option, none, some, arith, deref, if◌then◌else◌}
use abmcy_core_payment.Int64.{ℤ, pos, ◌≤ℤ◌, leb_ℤ, ltb_ℤ, FitsInt64}
use abmcy_core_payment.Model.{
  App, Payment, type_deposit, max_amount_for, max_amount_verified, failed,
}
use abmcy_core_payment.World.{Env, Result, ok, err, Transaction, TestPayInput, on_ok}
use abmcy_core_payment.World.Keeps.{
  Keeps, Triple-if, Triple-bind, Triple-after, Keeps-bind, Keeps-pure,
}
use abmcy_core_payment.Http.{Request, Body, test_page, error, error_text}
use abmcy_core_payment.Payments.Handler.{PaymentHandler}
use abmcy_core_payment.Payments.Pay.{deposit_request}
use abmcy_core_payment.TestPage.{
  with_defaults, test_params, test_shown, test_deposited, test_row, test_allowed, test_limited,
  test_pay, test_answered, test_decoded, test_pay_http, app_options, test_page_http,
}
use abmcy_core_payment.Ledger.{IsLedger}
use abmcy_core_payment.Ledger.Amounts.{capped_of_test, compute-IsAccountedAs}
use abmcy_core_payment.Ledger.Reads.{abmcy_uuid-Reads, create_deposit-Reads, find_by_id-Reads}
use abmcy_core_payment.Ledger.Handlers.Listings.{list_apps-Reads}
use abmcy_core_payment.Ledger.Respond.{Keeps-respond}
use abmcy_core_payment.Ledger.Statements.{update_payment_status-Runs, update_payment_redirect-Runs}
use abmcy_core_payment.Ledger.Inserts.{create_payment-Gives}

-- The amount is positive with its default.
positive_by_default : (i : TestPayInput) → pos 1 ≤ℤ (with_defaults i).amount_cfa
positive_by_default i = by_sign i.amount_cfa
  where
    by_sign : (a : ℤ) → pos 1 ≤ℤ (if leb_ℤ a (pos 0) then pos 500 else a)
    by_sign a = ground arith

module _ (e : Env) (h : PaymentHandler) where
  test_deposited-Keeps :
      (i : TestPayInput) (app_ref ref : String) (p : Payment) (r : Result Transaction)
      → Keeps IsLedger (test_deposited e h i app_ref ref p r)
  test_deposited-Keeps i app_ref ref p (err x) =
      Keeps-bind (update_payment_status-Runs e p.id failed none (some "diarra_init_failed"))
        (λ _. Keeps-pure (err x))
  test_deposited-Keeps i app_ref ref p (ok tx) =
      Keeps-bind (update_payment_redirect-Runs e p.id tx.redirect_url)
        (λ _. Keeps-pure (test_shown e h i app_ref ref tx))

  test_row-Keeps :
      (i : TestPayInput) (app_ref ref : String) (p : Result Payment)
      → Keeps IsLedger (on_ok p (test_row e h i app_ref ref))
  test_row-Keeps i app_ref ref (err x) = Keeps-pure (err x)
  test_row-Keeps i app_ref ref (ok p) =
      Triple-after
        (create_deposit-Reads e h.diarra
          (deposit_request e h ref i.amount_cfa i.country "Paiement de test ABMCY Core"))
        (test_deposited-Keeps i app_ref ref p)

  module _ (rate : FitsInt64 h.usd_rate) where
    test_allowed-Keeps :
        (i : TestPayInput) (app : App)
        → pos 1 ≤ℤ i.amount_cfa
        → i.amount_cfa ≤ℤ max_amount_verified
        → Keeps IsLedger (test_allowed e h i app)
    unfolding test_allowed
    test_allowed-Keeps i app positive capped = Triple-after (abmcy_uuid-Reads e) λ name.
        Triple-after (abmcy_uuid-Reads e) λ ref.
          Keeps-bind
            (create_payment-Gives e (test_params e h app.id i ("test-" ++ slice name 0 8) ref) none
              (compute-IsAccountedAs type_deposit i.amount_cfa h.usd_rate positive (λ _. capped)
                rate _))
            (test_row-Keeps i ("test-" ++ slice name 0 8) ref)

    test_limited-Keeps :
        (i : TestPayInput) (app : App)
        → pos 1 ≤ℤ i.amount_cfa
        → Keeps IsLedger (test_limited e h i app)
    unfolding test_limited
    test_limited-Keeps i app positive =
        Triple-if (ltb_ℤ (max_amount_for app.kyc_level) i.amount_cfa) (λ _. Keeps-pure _)
          λ within.
            test_allowed-Keeps i app positive (capped_of_test i.amount_cfa app.kyc_level within)

    test_found-Keeps :
        (i : TestPayInput) (app : Result App)
        → Keeps IsLedger (on_ok app (test_limited e h (with_defaults i)))
    test_found-Keeps i (err x) = Keeps-pure (err x)
    test_found-Keeps i (ok app) = test_limited-Keeps (with_defaults i) app (positive_by_default i)

    test_pay-Keeps : (i : TestPayInput) → Keeps IsLedger (test_pay e h i)
    unfolding test_pay
    test_pay-Keeps i = Triple-after (find_by_id-Reads e i.app_id) (test_found-Keeps i)

    test_answered-Keeps : (r : Result Body) → Keeps IsLedger (test_answered e h r)
    test_answered-Keeps (err x) = Keeps-respond 502 (error_text x)
    test_answered-Keeps (ok b) = Keeps-respond 200 b

    test_decoded-Keeps : (o : Option TestPayInput) → Keeps IsLedger (test_decoded e h o)
    test_decoded-Keeps none = Keeps-respond 400 (error "invalid_request")
    test_decoded-Keeps (some i) = Triple-bind _ _ (test_pay-Keeps i) test_answered-Keeps

    pub test_page_http-Keeps : (r : Request) → Keeps IsLedger (test_page_http e h r)
    unfolding test_page_http
    test_page_http-Keeps r =
        Triple-after (list_apps-Reads e)
          λ apps. Keeps-respond 200 (test_page (deref (r.query "token")) (app_options e h apps))

    pub test_pay_http-Keeps : (r : Request) → Keeps IsLedger (test_pay_http e h r)
    unfolding test_pay_http
    test_pay_http-Keeps r = test_decoded-Keeps (e.decode_test_pay (deref r.body))
