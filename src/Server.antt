-- ===== src/Server.antt =====
-- cmd/server/main.go: the routes, who may call them, and the runs of the server.
use abmcy_core_payment.Base.{ℕ, String, Bool, not, ◌&&◌, [], ◌==◌, deref, if◌then◌else◌}
use abmcy_core_payment.World.{World, Env, M}
use abmcy_core_payment.Http.{Request, Response, plain, respond, http_error}
use abmcy_core_payment.Auth.{require_app, require_admin}
use abmcy_core_payment.Payments.Handler.{PaymentHandler, lookup_app}
use abmcy_core_payment.Payments.Pay.{pay}
use abmcy_core_payment.Payments.Payout.{payout, payout_for_admin}
use abmcy_core_payment.Payments.Refund.{refund, refund_deposit}
use abmcy_core_payment.Payments.Relay.{relay_payment}
use abmcy_core_payment.Payments.Callback.{diarra_callback, payment_status, run_relay}
use abmcy_core_payment.Payments.Hosted.{hosted_pay, hosted_pay_status}
use abmcy_core_payment.Signup.{show_signups, public_signup, approve_signup, reject_signup}
use abmcy_core_payment.Admin.{
  Relayer, create_app, set_app_active, set_app_kyc, get_payment, relay_again, refund_payment,
  create_payout,
}
use abmcy_core_payment.Admin.Listings.{show_stats, show_apps, show_payments}
use abmcy_core_payment.StaticPages.{landing, widget_js, integration_doc}
use abmcy_core_payment.TestPage.{test_page_http, test_pay_http}

-- Below /v1
pub data AppRoute : Type 0 where
  post_pay post_payouts post_refunds get_payments : AppRoute

-- Below /admin
pub data AdminRoute : Type 0 where
  post_apps put_active put_kyc get_payment_by_id post_relay post_refund post_admin_payouts :
      AdminRoute
  post_approve post_reject : AdminRoute
  get_stats get_apps get_all_payments get_signups : AdminRoute

-- Below /test
pub data TestRoute : Type 0 where
  get_test_page post_test_pay : TestRoute

pub data Route : Type 0 where
  v1 : AppRoute → Route
  admin : AdminRoute → Route
  webhook : Route
  signup : Route
  test : TestRoute → Route
  hosted hosted_status : Route
  robots health : Route
  home widget documentation : Route

-- `subtleCompare`
abbrev pub subtle_compare : String → String → Bool
subtle_compare a b = not (a == "") && a == b

-- The token of a test request: of the query, or else of a header.
abbrev pub test_token : Request → String
test_token r =
    if deref (r.query "token") == "" then r.header "X-Test-Token" else deref (r.query "token")

module _ (e : Env) (h : PaymentHandler) where
  -- The console's access to the payments.
  abbrev pub relayer : Relayer
  relayer = record {
    relay_payment = relay_payment e;
    refund_deposit = refund_deposit e h;
    payout_for_admin = payout_for_admin e h;
  }

  unfoldable pub serve_app : AppRoute → String → Request → M Response
  serve_app post_pay = pay e h
  serve_app post_payouts = payout e h
  serve_app post_refunds = refund e h
  serve_app get_payments = payment_status e h

  unfoldable pub serve_admin : AdminRoute → Request → M Response
  serve_admin post_apps = create_app e relayer
  serve_admin put_active = set_app_active e relayer
  serve_admin put_kyc = set_app_kyc e relayer
  serve_admin get_payment_by_id = get_payment e relayer
  serve_admin post_relay = relay_again e relayer
  serve_admin post_refund = refund_payment e relayer
  serve_admin post_admin_payouts = create_payout e relayer
  serve_admin post_approve = approve_signup e
  serve_admin post_reject = reject_signup e
  serve_admin get_stats = show_stats e
  serve_admin get_apps = show_apps e
  serve_admin get_all_payments = show_payments e
  serve_admin get_signups = show_signups e

  unfoldable pub serve_tester : TestRoute → Request → M Response
  serve_tester get_test_page = test_page_http e h
  serve_tester post_test_pay = test_pay_http e h

  -- Without an admin token the test routes are not there.
  unfoldable pub serve_test : String → TestRoute → Request → M Response
  serve_test admin_tok a r =
      if admin_tok == ""
      then http_error 404 "404 page not found"
      else if subtle_compare (test_token r) admin_tok
      then serve_tester a r
      else http_error 401 "token invalide (ajouter ?token=... à l'URL)"

  unfoldable pub serve : String → Route → Request → M Response
  serve token (v1 a) r = require_app e (lookup_app e) (serve_app a) r
  serve token (admin a) r = require_admin token (serve_admin a) r
  serve token webhook r = diarra_callback e h r
  serve token signup r = public_signup e r
  serve token (test a) r = serve_test token a r
  serve token hosted r = hosted_pay e h r
  serve token hosted_status r = hosted_pay_status e h r
  serve token robots r = respond 200 (plain "User-agent: *\nDisallow: /\n")
  serve token home r = landing "/" r
  serve token widget r = widget_js r
  serve token documentation r = integration_doc r
  serve token health r = respond 200 (plain "{\"status\":\"ok\"}")

  -- A step of the server: a request is answered, or a goroutine that was left behind makes its
  -- relay.
  pub data Step (token : String) : World → World → Type 0 where
    request : (a : Route) (r : Request) (w : World) → Step token w (serve token a r w).1
    relayed : (n : ℕ) (w : World) → Step token w (run_relay e h n w).1

  -- The worlds that the server reaches from `start`.
  pub data Reach (token : String) (start : World) : World → Type 0 where
    stay : Reach token start start
    after : {v w : World} → Reach token start v → Step token v w → Reach token start w

abbrev pub empty_world : World
empty_world = record { apps = []; payments = []; signups = []; sent = []; relays = []; tick = 0 }
