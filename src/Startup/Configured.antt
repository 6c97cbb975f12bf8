-- ===== src/Startup/Configured.antt =====
-- When the server starts, and with what.
use abmcy_core_payment.Base.{
  String, Bool, true, false, Option, none, some, ◌≡◌, ◌≢◌, refl, ap, sym, subst, ◌∙◌, arith, ◌⊎◌,
  inl, inr, ◌==◌, codes, is_not_empty,
}
use abmcy_core_payment.Int64.{ℤ, pos, ◌≤ℤ◌, ltb_ℤ, leb_ℤ}
use abmcy_core_payment.Decimal.{parse_int}
use abmcy_core_payment.Fees.{effective_rate}
use abmcy_core_payment.World.{Env}
use abmcy_core_payment.Payments.Handler.{new_payment_handler}
use abmcy_core_payment.Startup.{
  Process, connect, Settings, Start, fatal, serving, or_default, usd_rate_of, positive_or_default,
  settings, start,
}
use abmcy_core_payment.Startup.Ready.{IsReady, IsReady-start, start_of_IsReady}

-- The variables without a default are set; the URL of the database is one, its pool opens, and
-- it answers.
pub record IsConfigured (p : Process) : Type 0 where
  pub database : p.getenv "DATABASE_URL" ≢ ""
  pub parses : p.parse_config (p.getenv "DATABASE_URL") ≡ none
  pub opens : p.open_pool (p.getenv "DATABASE_URL") ≡ none
  pub answers : p.ping (p.getenv "DATABASE_URL") ≡ none
  pub api_key : p.getenv "DIARRA_GATEWAY_API_KEY" ≢ ""
  pub secret : p.getenv "DIARRA_GATEWAY_HMAC_SECRET" ≢ ""
  pub callback : p.getenv "ABMCY_CORE_CALLBACK_URL" ≢ ""

-- The value `x` is `v`, or the default where `v` is empty.
pub record IsOr (v default x : String) : Type 0 where
  pub set : v ≢ "" → x ≡ v
  pub unset : v ≡ "" → x ≡ default

-- The rate is the number that the text is, where that is positive, and 600 otherwise.
pub record IsRateOf (text : String) (rate : ℤ) : Type 0 where
  pub number : (n : ℤ) → parse_int (codes text) ≡ some n → pos 1 ≤ℤ n → rate ≡ n
  pub other : ((n : ℤ) → parse_int (codes text) ≡ some n → n ≤ℤ pos 0) → rate ≡ pos 600

module _ (e : Env) (p : Process) where
  -- What a server is given: the gateway's client and the check of its callbacks have the digest of
  -- the secret.
  pub record IsServed (s : Settings) : Type 0 where
    pub url : IsOr (p.getenv "DIARRA_GATEWAY_URL") "http://localhost:8080" s.handler.diarra.base_url
    pub api_key : s.handler.diarra.api_key ≡ p.getenv "DIARRA_GATEWAY_API_KEY"
    pub client_key :
        s.handler.diarra.hmac_secret_hash ≡ e.sha256_hex (p.getenv "DIARRA_GATEWAY_HMAC_SECRET")
    pub callback_key :
        s.handler.diarra_hmac_secret_hash ≡ e.sha256_hex (p.getenv "DIARRA_GATEWAY_HMAC_SECRET")
    pub callback : s.handler.self_callback_url ≡ p.getenv "ABMCY_CORE_CALLBACK_URL"
    pub rate : IsRateOf (p.getenv "ABMCY_USD_RATE") s.handler.usd_rate
    pub admin_token : s.admin_token ≡ p.getenv "ABMCY_ADMIN_TOKEN"
    pub port : IsOr (p.getenv "PORT") "9090" s.port

  or_default-IsOr : (v d : String) → IsOr v d (or_default v d)
  or_default-IsOr v d = record {
    set = λ h. let q = is_not_empty v h in rw q;
    unset = λ h. let q : v == "" ≡ true = ground arith in rw q;
  }

  usd_rate_of_number : (v : String) → usd_rate_of v ≡ positive_or_default (parse_int (codes v))
  unfolding usd_rate_of parse_int
  usd_rate_of_number v = by_test (v == "") refl
    where
      by_test :
          (b : Bool) → (v == "") ≡ b → usd_rate_of v ≡ positive_or_default (parse_int (codes v))
      by_test false q = rw q
      by_test true q =
          let nothing : v ≡ "" = ground arith in
          let unread : parse_int (codes v) ≡ none = rw nothing in rw (q, unread)

  -- The rate that NewPaymentHandler makes of a number.
  handler_rate : (o : Option ℤ) → ℤ
  handler_rate o = effective_rate (positive_or_default o)

  handler_rate-number : (o : Option ℤ) (n : ℤ) → o ≡ some n → pos 1 ≤ℤ n → handler_rate o ≡ n
  unfolding handler_rate
  handler_rate-number o n eq h =
      let positive : ltb_ℤ (pos 0) n ≡ true = ground arith in
      let kept : leb_ℤ n (pos 0) ≡ false = ground arith in rw (eq, positive, kept)

  handler_rate-other :
      (o : Option ℤ) → ((n : ℤ) → o ≡ some n → n ≤ℤ pos 0) → handler_rate o ≡ pos 600
  unfolding handler_rate
  handler_rate-other none h = refl
  handler_rate-other (some n) h =
      let below = h n refl in let negative : ltb_ℤ (pos 0) n ≡ false = ground arith in rw negative

  rate-IsRateOf : IsRateOf (p.getenv "ABMCY_USD_RATE") (settings e p).handler.usd_rate
  unfolding settings new_payment_handler handler_rate
  rate-IsRateOf =
      let text = p.getenv "ABMCY_USD_RATE" in
      let same : (settings e p).handler.usd_rate ≡ handler_rate (parse_int (codes text)) =
        ap effective_rate (usd_rate_of_number text) in
      record {
        number = λ n eq h. same ∙ handler_rate-number (parse_int (codes text)) n eq h;
        other = λ h. same ∙ handler_rate-other (parse_int (codes text)) h;
      }

  settings-IsServed : IsServed (settings e p)
  unfolding settings new_payment_handler
  settings-IsServed = record {
    url = or_default-IsOr (p.getenv "DIARRA_GATEWAY_URL") "http://localhost:8080";
    api_key = refl;
    client_key = refl;
    callback_key = refl;
    callback = refl;
    rate = rate-IsRateOf;
    admin_token = refl;
    port = or_default-IsOr (p.getenv "PORT") "9090";
  }

  connect-none :
      (url : String)
      → p.parse_config url ≡ none
      → p.open_pool url ≡ none
      → p.ping url ≡ none
      → connect p url ≡ none
  unfolding connect
  connect-none url a b c = rw (a, b, c)

  none_of_connect :
      (url : String)
      → connect p url ≡ none
      → (p.parse_config url ≡ none) × (p.open_pool url ≡ none) × (p.ping url ≡ none)
  unfolding connect
  none_of_connect url h = ground arith

  ready : IsConfigured p → IsReady p
  ready c = record {
    database = c.database;
    connects = connect-none (p.getenv "DATABASE_URL") c.parses c.opens c.answers;
    api_key = c.api_key;
    secret = c.secret;
    callback = c.callback;
  }

  configured : IsReady p → IsConfigured p
  configured c =
      let (parses, opens, answers) = none_of_connect (p.getenv "DATABASE_URL") c.connects in
      record {
        database = c.database;
        parses = parses;
        opens = opens;
        answers = answers;
        api_key = c.api_key;
        secret = c.secret;
        callback = c.callback;
      }

  -- The server starts exactly where the variables without a default are set, and the database's URL is
  -- one, its pool opens and it answers. It is then given the variables, and the defaults of those that
  -- are not set, the digest of the gateway's secret as the key of the requests that it sends and of
  -- the callbacks that it takes, and the rate of its variable where that is positive, or 600.
  -- Otherwise it ends with a message.
  pub start-IsConfigured :
      (IsConfigured p × (s : Settings) × (start e p ≡ serving s) × IsServed s)
      ⊎ ((¬ IsConfigured p) × (x : String) × (start e p ≡ fatal x))
  start-IsConfigured = by_start (start e p) refl
    where
      by_start :
          (o : Start)
          → start e p ≡ o
          → (IsConfigured p × (s : Settings) × (start e p ≡ serving s) × IsServed s)
            ⊎ ((¬ IsConfigured p) × (x : String) × (start e p ≡ fatal x))
      by_start (fatal x) eq =
          inr ((λ c. let other = start_of_IsReady e p (settings e p) (ready c) refl in cc), x, eq)
      by_start (serving s) eq =
          let (c, same) = IsReady-start e p s eq in
          inl (configured c, s, eq, subst IsServed (sym same) settings-IsServed)
