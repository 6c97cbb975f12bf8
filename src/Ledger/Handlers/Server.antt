-- ===== src/Ledger/Handlers/Server.antt =====
-- Every request that the server answers keeps the ledger, and so does every run of the server.
use abmcy_core_payment.Base.{
  String, Bool, true, false, not, ◌&&◌, Option, none, some, ◌==◌, deref, if◌then◌else◌,
}
use abmcy_core_payment.Int64.{FitsInt64}
use abmcy_core_payment.Model.{Payment, PaymentWithApp, completed}
use abmcy_core_payment.World.{World, Env, Result, ok, err, M}
use abmcy_core_payment.World.Keeps.{Keeps, Reads, Triple-if, Triple-after, Keeps-bind}
use abmcy_core_payment.Http.{
  Request, Response, plain, fixed, error, payment, redirect_to, hosted_page, respond,
}
use abmcy_core_payment.Auth.{
  AppLookup, verify_signature, verified_body, verified, identified, require_app, is_bearer,
  supplied_token, require_admin,
}
use abmcy_core_payment.Payments.Handler.{PaymentHandler, lookup_app}
use abmcy_core_payment.Payments.Callback.{payment_status, status_found}
use abmcy_core_payment.Payments.Hosted.{
  is_some, hosted_view, hosted_found, hosted_pay, hosted_status_found, hosted_pay_status,
}
use abmcy_core_payment.StaticPages.{landing, widget_js, integration_doc}
use abmcy_core_payment.Server.{
  AppRoute, post_pay, post_payouts, post_refunds, get_payments, AdminRoute, post_apps, put_active,
  put_kyc, get_payment_by_id, post_relay, post_refund, post_admin_payouts, post_approve,
  post_reject, get_stats, get_apps, get_all_payments, get_signups, TestRoute, get_test_page,
  post_test_pay, robots, home, widget, documentation, health, serve_tester, Route, v1, admin,
  webhook, signup, test, hosted, hosted_status, subtle_compare, test_token, relayer, serve_app,
  serve_admin, serve_test, serve, Step, request, relayed, Reach, stay, after,
}
use abmcy_core_payment.Ledger.{IsLedger}
use abmcy_core_payment.Ledger.Respond.{Keeps-respond}
use abmcy_core_payment.Ledger.Handlers.Admin.{
  IsSound, create_app-Keeps, get_payment-Keeps, set_app_kyc-Keeps, set_app_active-Keeps,
  relay_again-Keeps, create_payout-Keeps, refund_payment-Keeps,
}
use abmcy_core_payment.Ledger.Handlers.Pay.{pay-Keeps}
use abmcy_core_payment.Ledger.Handlers.Payout.{payout-Keeps, payout_for_admin-Keeps}
use abmcy_core_payment.Ledger.Handlers.Refund.{refund-Keeps, refund_deposit-Keeps}
use abmcy_core_payment.Ledger.Handlers.Relay.{
  relay_payment-Keeps, diarra_callback-Keeps, run_relay-Keeps,
}
use abmcy_core_payment.Ledger.Handlers.Signup.{
  public_signup-Keeps, approve_signup-Keeps, reject_signup-Keeps,
}
use abmcy_core_payment.Ledger.Handlers.TestPage.{test_page_http-Keeps, test_pay_http-Keeps}
use abmcy_core_payment.Ledger.Handlers.Listings.{
  show_stats-Keeps, show_apps-Keeps, show_payments-Keeps, show_signups-Keeps,
}
use abmcy_core_payment.Ledger.Reads.{
  find_by_key_hash-Reads, find_payment_by_diarra_ref_public-Reads,
}
use abmcy_core_payment.Ledger.Statements.{find_payment_by_app_ref-Gives}

-- Who may call: neither of the guards writes `payments`.
module _ (e : Env) (lookup : String → M (Result AppLookup))
    (next : String → Request → M Response) where
  module _ (kept : (id : String) (r : Request) → Keeps IsLedger (next id r)) where
    verified_body-Keeps :
        (app : AppLookup) (r : Request) (o : Option String)
        → Keeps IsLedger (verified_body e lookup next app r o)
    verified_body-Keeps app r none = Keeps-respond 400 (error "read_failed")
    verified_body-Keeps app r (some body) = record {
      at = λ w l. by_test w l (verify_signature e (e.now w.tick) app.hmac_secret_hash r body);
    }
      where
        by_test :
            (w : World)
            → IsLedger w.payments
            → (b : Bool)
            → IsLedger
                (let u : Response × World =
                    if b then next app.id r w else respond 401 (error "invalid_signature") w in
                  u).1.payments
        by_test w l true = (kept app.id r).at w l
        by_test w l false = l

    verified-Keeps : (app : AppLookup) (r : Request) → Keeps IsLedger (verified e lookup next app r)
    unfolding verified
    verified-Keeps app r = verified_body-Keeps app r r.body

    identified-Keeps :
        (r : Request) (o : Result AppLookup) → Keeps IsLedger (identified e lookup next r o)
    unfolding identified
    identified-Keeps r (err x) = Keeps-respond 401 (error "invalid_app_key")
    identified-Keeps r (ok app) =
        Triple-if (app.id == "") (λ _. Keeps-respond 401 (error "invalid_app_key"))
          λ _. verified-Keeps app r

    require_app-Keeps :
        ((hash : String) → Reads (lookup hash))
        → (r : Request) → Keeps IsLedger (require_app e lookup next r)
    unfolding require_app
    require_app-Keeps reads r =
        Triple-if (r.header "X-App-Key" == "") (λ _. Keeps-respond 401 (error "missing_app_key"))
          λ _. Triple-after (reads (e.sha256_hex (r.header "X-App-Key"))) (identified-Keeps r)

landing-Keeps : (path : String) (r : Request) → Keeps IsLedger (landing path r)
unfolding landing
landing-Keeps path r =
    Triple-if (not (path == "/")) (λ _. Keeps-respond 404 (fixed _))
      (λ _. Keeps-respond 200 (fixed _))

widget_js-Keeps : (r : Request) → Keeps IsLedger (widget_js r)
unfolding widget_js
widget_js-Keeps r = Keeps-respond 200 (fixed _)

integration_doc-Keeps : (r : Request) → Keeps IsLedger (integration_doc r)
unfolding integration_doc
integration_doc-Keeps r = Keeps-respond 200 (fixed _)

require_admin-Keeps :
    (token : String) (next : Request → M Response) (r : Request)
    → Keeps IsLedger (next r)
    → Keeps IsLedger (require_admin token next r)
unfolding require_admin
require_admin-Keeps token next r kept =
    Triple-if (token == "") (λ _. Keeps-respond 503 (error "admin_disabled"))
      λ _.
        Triple-if (not (is_bearer (r.header "Authorization")))
          (λ _. Keeps-respond 401 (error "missing_admin_token"))
          λ _.
            Triple-if (supplied_token (r.header "Authorization") == token) (λ _. kept)
              λ _. Keeps-respond 401 (error "invalid_admin_token")

lookup_app-Reads : (e : Env) (hash : String) → Reads (lookup_app e hash)
unfolding lookup_app
lookup_app-Reads e hash = record { same = λ w. (find_by_key_hash-Reads e hash).same w }

module _ (e : Env) (h : PaymentHandler) where
  status_found-Keeps : (r : Result Payment) → Keeps IsLedger (status_found e h r)
  status_found-Keeps (err x) = Keeps-respond 404 (error "not_found")
  status_found-Keeps (ok p) = Keeps-respond 200 (payment p)

  payment_status-Keeps :
      (app_id : String) (r : Request) → Keeps IsLedger (payment_status e h app_id r)
  unfolding payment_status
  payment_status-Keeps app_id r =
      Keeps-bind (find_payment_by_app_ref-Gives e app_id (r.param "app_ref")) status_found-Keeps

  hosted_found-Keeps :
      (r : Request) (p : Result PaymentWithApp) → Keeps IsLedger (hosted_found e h r p)
  unfolding hosted_found
  hosted_found-Keeps r (err x) = Keeps-respond 404 (error "Paiement introuvable.")
  hosted_found-Keeps r (ok pw) =
      Triple-if (pw.payment.status == completed && not (deref pw.payment.return_url == ""))
        (λ _.
          Keeps-respond 302
            (redirect_to (deref pw.payment.return_url) completed pw.payment.app_ref))
        λ _. Keeps-respond 200 (hosted_page (hosted_view e h pw (is_some (r.query "done"))))

  hosted_pay-Keeps : (r : Request) → Keeps IsLedger (hosted_pay e h r)
  unfolding hosted_pay
  hosted_pay-Keeps r =
      Triple-after (find_payment_by_diarra_ref_public-Reads e (r.param "ref"))
        (hosted_found-Keeps r)

  status_shown-Keeps : (p : Result PaymentWithApp) → Keeps IsLedger (hosted_status_found e h p)
  status_shown-Keeps (err x) = Keeps-respond 404 (error "not_found")
  status_shown-Keeps (ok pw) = record { at = λ w l. l }

  hosted_pay_status-Keeps : (r : Request) → Keeps IsLedger (hosted_pay_status e h r)
  unfolding hosted_pay_status
  hosted_pay_status-Keeps r =
      Triple-after (find_payment_by_diarra_ref_public-Reads e (r.param "ref")) status_shown-Keeps

  module _ (rate : FitsInt64 h.usd_rate) where
    relayer-IsSound : IsSound (relayer e h)
    relayer-IsSound = record {
      relays = relay_payment-Keeps e;
      refunds = refund_deposit-Keeps e h rate;
      pays_out = payout_for_admin-Keeps e h rate;
    }

    serve_app-Keeps :
        (a : AppRoute) (id : String) (r : Request) → Keeps IsLedger (serve_app e h a id r)
    unfolding serve_app
    serve_app-Keeps post_pay id r = pay-Keeps e h rate id r
    serve_app-Keeps post_payouts id r = payout-Keeps e h rate id r
    serve_app-Keeps post_refunds id r = refund-Keeps e h rate id r
    serve_app-Keeps get_payments id r = payment_status-Keeps id r

    serve_admin-Keeps : (a : AdminRoute) (r : Request) → Keeps IsLedger (serve_admin e h a r)
    unfolding serve_admin
    serve_admin-Keeps post_apps r = create_app-Keeps e _ r
    serve_admin-Keeps put_active r = set_app_active-Keeps e _ r
    serve_admin-Keeps put_kyc r = set_app_kyc-Keeps e _ r
    serve_admin-Keeps get_payment_by_id r = get_payment-Keeps e _ r
    serve_admin-Keeps post_relay r = relay_again-Keeps e _ relayer-IsSound r
    serve_admin-Keeps post_refund r = refund_payment-Keeps e _ relayer-IsSound r
    serve_admin-Keeps post_admin_payouts r = create_payout-Keeps e _ relayer-IsSound r
    serve_admin-Keeps post_approve r = approve_signup-Keeps e r
    serve_admin-Keeps post_reject r = reject_signup-Keeps e r
    serve_admin-Keeps get_stats r = show_stats-Keeps e r
    serve_admin-Keeps get_apps r = show_apps-Keeps e r
    serve_admin-Keeps get_all_payments r = show_payments-Keeps e r
    serve_admin-Keeps get_signups r = show_signups-Keeps e r

    serve_tester-Keeps : (a : TestRoute) (r : Request) → Keeps IsLedger (serve_tester e h a r)
    unfolding serve_tester
    serve_tester-Keeps get_test_page r = test_page_http-Keeps e h rate r
    serve_tester-Keeps post_test_pay r = test_pay_http-Keeps e h rate r

    serve_test-Keeps :
        (token : String) (a : TestRoute) (r : Request) → Keeps IsLedger (serve_test e h token a r)
    unfolding serve_test
    serve_test-Keeps token a r =
        Triple-if (token == "") (λ _. Keeps-respond 404 (error "404 page not found"))
          λ _.
            Triple-if (subtle_compare (test_token r) token) (λ _. serve_tester-Keeps a r)
              λ _. Keeps-respond 401 (error "token invalide (ajouter ?token=... à l'URL)")

    pub serve-Keeps :
        (token : String) (a : Route) (r : Request) → Keeps IsLedger (serve e h token a r)
    unfolding serve
    serve-Keeps token (v1 a) r = require_app-Keeps e _ _ (serve_app-Keeps a) (lookup_app-Reads e) r
    serve-Keeps token (admin a) r = require_admin-Keeps token _ r (serve_admin-Keeps a r)
    serve-Keeps token webhook r = diarra_callback-Keeps e h r
    serve-Keeps token signup r = public_signup-Keeps e r
    serve-Keeps token (test a) r = serve_test-Keeps token a r
    serve-Keeps token hosted r = hosted_pay-Keeps r
    serve-Keeps token hosted_status r = hosted_pay_status-Keeps r
    serve-Keeps token robots r = Keeps-respond 200 (plain _)
    serve-Keeps token home r = landing-Keeps "/" r
    serve-Keeps token widget r = widget_js-Keeps r
    serve-Keeps token documentation r = integration_doc-Keeps r
    serve-Keeps token health r = Keeps-respond 200 (plain _)

    Step-IsLedger :
        {token : String} {v w : World}
        → Step e h token v w
        → IsLedger v.payments
        → IsLedger w.payments
    Step-IsLedger (request a r v) l = (serve-Keeps _ a r).at v l
    Step-IsLedger (relayed n v) l = (run_relay-Keeps e h n).at v l

-- From any world whose table `payments` is a ledger, every world that the server reaches, by any
-- requests and relays in any order, with any answers of the database (a statement may fail before
-- or after it ran), of the gateway and of the apps, has a ledger too, where the rate is an int64.
pub Reach-IsLedger :
    (e : Env) (h : PaymentHandler) (token : String) {v w : World}
    → FitsInt64 h.usd_rate
    → Reach e h token v w
    → IsLedger v.payments
    → IsLedger w.payments
Reach-IsLedger e h token rate stay l = l
Reach-IsLedger e h token rate (after path last) l =
    Step-IsLedger e h rate last (Reach-IsLedger e h token rate path l)
