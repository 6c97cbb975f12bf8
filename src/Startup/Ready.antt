-- ===== src/Startup/Ready.antt =====
-- A server that starts keeps the ledger from its first request.
use abmcy_core_payment.Base.{
  String, Bool, true, false, ◌||◌, Option, none, some, ◌≡◌, ◌≢◌, refl, arith, ◌==◌, not_empty,
  is_not_empty, codes, if◌then◌else◌,
}
use abmcy_core_payment.Int64.{ℤ, pos, ◌≤ℤ◌, ltb_ℤ, leb_ℤ, FitsInt64}
use abmcy_core_payment.Decimal.{parse_int}
use abmcy_core_payment.Decimal.Laws.{parse_int-FitsInt64}
use abmcy_core_payment.Fees.{default_usd_rate}
use abmcy_core_payment.World.{World, Env}
use abmcy_core_payment.Payments.Handler.{new_payment_handler}
use abmcy_core_payment.Server.{Reach, empty_world}
use abmcy_core_payment.Startup.{
  Process, connect, Settings, fatal, serving, usd_rate_of, positive_or_default, settings,
  with_callback, connected, start, database_required, keys_required, callback_required,
}
use abmcy_core_payment.Ledger.{IsLedger}
use abmcy_core_payment.Ledger.Handlers.Server.{Reach-IsLedger}

-- The variables without a default are set, and the database answers.
pub record IsReady (p : Process) : Type 0 where
  pub database : p.getenv "DATABASE_URL" ≢ ""
  pub connects : connect p (p.getenv "DATABASE_URL") ≡ none
  pub api_key : p.getenv "DIARRA_GATEWAY_API_KEY" ≢ ""
  pub secret : p.getenv "DIARRA_GATEWAY_HMAC_SECRET" ≢ ""
  pub callback : p.getenv "ABMCY_CORE_CALLBACK_URL" ≢ ""

-- A rate that is used as it is: positive, and an int64.
pub record IsRate (n : ℤ) : Type 0 where
  pub positive : pos 1 ≤ℤ n
  pub fits : FitsInt64 n

positive_or_default-IsRate :
    (o : Option ℤ) → ((n : ℤ) → o ≡ some n → FitsInt64 n) → IsRate (positive_or_default o)
positive_or_default-IsRate none h = record { positive = omega arith; fits = omega arith }
positive_or_default-IsRate (some n) h = by_sign (h n refl) (ltb_ℤ (pos 0) n) refl
  where
    by_sign :
        FitsInt64 n → (b : Bool) → ltb_ℤ (pos 0) n ≡ b → IsRate (if b then n else default_usd_rate)
    by_sign f true eq = record { positive = ground arith; fits = f }
    by_sign f false eq = record { positive = omega arith; fits = omega arith }

usd_rate_of-IsRate : (v : String) → IsRate (usd_rate_of v)
unfolding usd_rate_of
usd_rate_of-IsRate v = by_set (v == "")
  where
    by_set :
        (b : Bool)
        → IsRate (if b then default_usd_rate else positive_or_default (parse_int (codes v)))
    by_set true = record { positive = omega arith; fits = omega arith }
    by_set false = positive_or_default-IsRate (parse_int (codes v)) (parse_int-FitsInt64 (codes v))

default-IsRate : (b : Bool) {n : ℤ} → IsRate n → IsRate (if b then default_usd_rate else n)
default-IsRate true h = record { positive = omega arith; fits = omega arith }
default-IsRate false h = h

module _ (e : Env) (p : Process) where
  -- The rate of a server is positive, whatever the environment says.
  settings-IsRate : IsRate (settings e p).handler.usd_rate
  unfolding settings new_payment_handler
  settings-IsRate =
      let rate = usd_rate_of (p.getenv "ABMCY_USD_RATE") in
      default-IsRate (leb_ℤ rate (pos 0)) (usd_rate_of-IsRate (p.getenv "ABMCY_USD_RATE"))

  module _ (s : Settings) where
    HasCallback : Type 0
    HasCallback = (p.getenv "ABMCY_CORE_CALLBACK_URL" ≢ "") × (s ≡ settings e p)

    with_callback-HasCallback : with_callback e p ≡ serving s → HasCallback
    unfolding HasCallback
    with_callback-HasCallback h = by_test (p.getenv "ABMCY_CORE_CALLBACK_URL" == "") refl h
      where
        by_test :
            (b : Bool)
            → (p.getenv "ABMCY_CORE_CALLBACK_URL" == "") ≡ b
            → (if b then fatal callback_required else serving (settings e p)) ≡ serving s
            → (p.getenv "ABMCY_CORE_CALLBACK_URL" ≢ "") × (s ≡ settings e p)
        by_test true eq h = cc
        by_test false eq h = (not_empty _ eq, cc)

    connected-HasCallback :
        (o : Option String)
        → connected e p o ≡ serving s
        → (o ≡ none)
          × ((p.getenv "DIARRA_GATEWAY_API_KEY" == "") ≡ false)
          × ((p.getenv "DIARRA_GATEWAY_HMAC_SECRET" == "") ≡ false)
          × HasCallback
    connected-HasCallback (some x) h = cc
    connected-HasCallback none h =
        by_test (p.getenv "DIARRA_GATEWAY_API_KEY" == "")
          (p.getenv "DIARRA_GATEWAY_HMAC_SECRET" == "") refl refl h
      where
        by_test :
            (a b : Bool)
            → (p.getenv "DIARRA_GATEWAY_API_KEY" == "") ≡ a
            → (p.getenv "DIARRA_GATEWAY_HMAC_SECRET" == "") ≡ b
            → (if a || b then fatal keys_required else with_callback e p) ≡ serving s
            → ◌≡◌ {A = Option String} none none
              × ((p.getenv "DIARRA_GATEWAY_API_KEY" == "") ≡ false)
              × ((p.getenv "DIARRA_GATEWAY_HMAC_SECRET" == "") ≡ false)
              × HasCallback
        by_test true b one two h = cc
        by_test false true one two h = cc
        by_test false false one two h = (refl, one, two, with_callback-HasCallback h)

    pub IsReady-start : start e p ≡ serving s → IsReady p × (s ≡ settings e p)
    unfolding start HasCallback
    IsReady-start h = by_test (p.getenv "DATABASE_URL" == "") refl h
      where
        by_test :
            (b : Bool)
            → (p.getenv "DATABASE_URL" == "") ≡ b
            → (if b
                then fatal database_required
                else connected e p (connect p (p.getenv "DATABASE_URL")))
              ≡ serving s
            → IsReady p × (s ≡ settings e p)
        by_test true eq h = cc
        by_test false eq h =
            let (connects, api_key, secret, (callback, same)) = connected-HasCallback _ h in
            (
              record {
                database = not_empty _ eq;
                connects = connects;
                api_key = not_empty _ api_key;
                secret = not_empty _ secret;
                callback = callback;
              },
              same,
            )

    pub start_of_IsReady : IsReady p → s ≡ settings e p → start e p ≡ serving s
    unfolding start
    start_of_IsReady c same = rw (
      is_not_empty _ c.database,
      c.connects,
      is_not_empty _ c.api_key,
      is_not_empty _ c.secret,
      is_not_empty _ c.callback,
      same,
    )

  -- A server that starts on empty tables keeps the ledger in every world that it reaches, whatever
  -- the rate and the other variables of its environment are.
  pub start-IsLedger :
      (s : Settings) {w : World}
      → start e p ≡ serving s
      → Reach e s.handler s.admin_token empty_world w
      → IsLedger w.payments
  start-IsLedger s started path =
      let (configured, same) = IsReady-start s started in
      Reach-IsLedger e s.handler s.admin_token (rw same (settings-IsRate.fits)) path
        (record { rows = tt; links = tt; apart = tt })
