-- ===== src/TestPage.antt =====
-- internal/handler/test_page.go: a deposit on behalf of an app, for trying out.
use Prim.Native.String.{◌++◌, slice}
use abmcy_core_payment.Base.{
  String, false, Option, none, some, List, [], map, filter, ◌==◌, deref, if◌then◌else◌,
}
use abmcy_core_payment.Int64.{pos, ltb_ℤ, leb_ℤ}
use abmcy_core_payment.Fees.{compute}
use abmcy_core_payment.Gateway.{create_deposit}
use abmcy_core_payment.Model.{App, Payment, failed, max_amount_for}
use abmcy_core_payment.World.{
  Env, Result, ok, err, Transaction, TestPayInput, M, pure, ◌>>=◌, ◌>>◌, on_ok,
}
use abmcy_core_payment.Http.{
  Request, Response, Body, TestAppOpt, test_page, limit_exceeded, error_text, test_created, respond,
  http_error,
}
use abmcy_core_payment.Repo.Apps.{find_by_id, list_apps}
use abmcy_core_payment.Repo.Payments.{
  PaymentParams, create_payment, update_payment_status, update_payment_redirect,
}
use abmcy_core_payment.Uuid.{abmcy_uuid}
use abmcy_core_payment.Payments.Handler.{PaymentHandler}
use abmcy_core_payment.Payments.Pay.{deposit_request}

-- The defaults: Senegal, and 500 francs.
abbrev pub with_defaults : TestPayInput → TestPayInput
with_defaults i = record i {
  country = if i.country == "" then "SEN" else i.country;
  amount_cfa = if leb_ℤ i.amount_cfa (pos 0) then pos 500 else i.amount_cfa;
}

module _ (e : Env) (h : PaymentHandler) where
  abbrev pub test_params : String → TestPayInput → String → String → PaymentParams
  test_params app_id i app_ref ref =
      let fee = compute i.amount_cfa h.usd_rate in
      record {
        app_id = app_id;
        app_ref = app_ref;
        diarra_client_ref = ref;
        amount_cfa = i.amount_cfa;
        fee_cfa = fee.fee_cfa;
        net_cfa = fee.net_cfa;
        usd_rate_used = fee.usd_rate_used;
        currency = "XOF";
        description = none;
        callback_url = none;
      }

  -- What the page is told of a deposit that was made.
  abbrev pub test_shown : TestPayInput → String → String → Transaction → Result Body
  test_shown i app_ref ref tx = ok (
      test_created app_ref i.amount_cfa (compute i.amount_cfa h.usd_rate).fee_cfa tx.redirect_url
        (h.public_base_url ++ "/pay/" ++ ref))

  abbrev pub test_deposited :
      TestPayInput → String → String → Payment → Result Transaction → M (Result Body)
  test_deposited i app_ref ref p (err x) =
      update_payment_status e p.id failed none (some "diarra_init_failed") >> pure (err x)
  test_deposited i app_ref ref p (ok tx) =
      update_payment_redirect e p.id tx.redirect_url >> pure (test_shown i app_ref ref tx)

  abbrev pub test_row : TestPayInput → String → String → Payment → M (Result Body)
  test_row i app_ref ref p = do
    tx ←
        create_deposit e h.diarra
          (deposit_request e h ref i.amount_cfa i.country "Paiement de test ABMCY Core")
    test_deposited i app_ref ref p tx

  unfoldable pub test_allowed : TestPayInput → App → M (Result Body)
  test_allowed i app = do
    name ← abmcy_uuid e
    ref ← abmcy_uuid e
    p ← create_payment e (test_params app.id i ("test-" ++ slice name 0 8) ref) none
    on_ok p (test_row i ("test-" ++ slice name 0 8) ref)

  unfoldable pub test_limited : TestPayInput → App → M (Result Body)
  test_limited i app =
      let max = max_amount_for app.kyc_level in
      if ltb_ℤ max i.amount_cfa
      then pure
          (ok (limit_exceeded (record { max_cfa = max; kyc_level = none; kyc_required = false })))
      else test_allowed i app

  unfoldable pub test_pay : TestPayInput → M (Result Body)
  test_pay i = do app ← find_by_id e i.app_id; on_ok app (test_limited (with_defaults i))

  abbrev pub test_answered : Result Body → M Response
  test_answered (err x) = respond 502 (error_text x)
  test_answered (ok b) = respond 200 b

  abbrev pub test_decoded : Option TestPayInput → M Response
  test_decoded none = http_error 400 "invalid_request"
  test_decoded (some i) = do b ← test_pay i; test_answered b

  -- The apps that are active; none where the query fails.
  unfoldable pub app_options : Result (List App) → List TestAppOpt
  app_options (err _) = []
  app_options (ok apps) =
      map (λ (a : App). record { id = a.id; name = a.name; kyc = a.kyc_level })
        (filter (λ (a : App). a.is_active) apps)

  -- GET /test
  unfoldable pub test_page_http : Request → M Response
  unfolding app_options
  test_page_http r = do
    apps ← list_apps e
    respond 200 (test_page (deref (r.query "token")) (app_options apps))

  -- POST /test/pay
  unfoldable pub test_pay_http : Request → M Response
  test_pay_http r = test_decoded (e.decode_test_pay (deref r.body))
