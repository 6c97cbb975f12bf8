-- ===== src/Http.antt =====
-- Requests as the handlers read them, the answers that they write, and requests sent out.
use abmcy_core_payment.Base.{ℕ, ◌+◌, String, Bool, Option, ◌∷◌, List}
use abmcy_core_payment.Int64.{ℤ}
use abmcy_core_payment.Model.{App, Payment, PaymentWithApp, SignupRequest}
use abmcy_core_payment.Stats.{Dashboard}
use abmcy_core_payment.World.{Env, HttpRequest, HttpReply, Error, M}

-- `header` is `r.Header.Get`, `query` has `none` for a key that is absent, `param` is
-- chi.URLParam; a body of `none` is one that cannot be read.
pub record Request : Type 0 where
  pub header : String → String
  pub param : String → String
  pub query : String → Option String
  pub body : Option String

pub record LimitExceeded : Type 0 where
  pub max_cfa : ℤ
  pub kyc_level : Option String
  pub kyc_required : Bool

pub record HostedPayView : Type 0 where
  pub app_name : String
  pub app_ref : String
  pub amount_fmt : List ℕ
  pub description : String
  pub status : String
  pub status_label : String
  pub failure_reason : String
  pub redirect_url : String
  pub return_url : String
  pub is_payable : Bool
  pub is_done : Bool

-- testAppOpt of internal/handler/test_page.go
pub record TestAppOpt : Type 0 where
  pub id : String
  pub name : String
  pub kyc : String

-- The texts that are served as they are.
pub data FixedText : Type 0 where
  not_found_text landing_html widget_script : FixedText
  integration_markdown : Bool → FixedText

pub data Body : Type 0 where
  empty : Body
  error : String → Body
  payment : Payment → Body
  payment_with_hosted : Payment → Option String → Body
  limit_exceeded : LimitExceeded → Body
  not_refundable : String → Body
  -- {"ok": …, "error": …, and a payment that was asked for}
  outcome : Bool → Option Error → Option Payment → Body
  -- the text of an error
  error_text : Error → Body
  -- /test/pay: app_ref, amount, commission, redirect_url and status_url
  test_created : String → ℤ → ℤ → String → String → Body
  hosted_page : HostedPayView → Body
  payment_status : String → String → Body
  -- a redirect to a return_url with the status and the reference
  redirect_to : String → String → String → Body
  -- an app with its key and secret, shown once, and the address of the applicant if there is one
  credentials : App → String → String → Option String → Body
  apps : List App → Body
  payments : List PaymentWithApp → Body
  signups : List SignupRequest → Body
  signup_received : String → Body
  stats : Dashboard → Body
  -- /test: the token of the page, and the apps to choose from
  test_page : String → List TestAppOpt → Body
  plain : String → Body
  fixed : FixedText → Body
  done : Body

pub record Response : Type 0 where
  pub status : ℕ
  pub body : Body

abbrev pub respond : ℕ → Body → M Response
respond status body w = (record { status = status; body = body }, w)

abbrev pub http_error : ℕ → String → M Response
http_error status text = respond status (error text)

-- A request goes out, and the environment answers it.
unfoldable pub send : Env → HttpRequest → M HttpReply
send e q w = (e.http_do w.tick q, record w { sent = q ∷ w.sent; tick = w.tick + 1 })
