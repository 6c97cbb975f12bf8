-- ===== src/Startup.antt =====
-- cmd/server/main.go and internal/db/db.go: what the server starts with, from the process
-- environment.
pub mod Ready
pub mod Configured
use Prim.Native.String.{◌++◌ as append}
use abmcy_core_payment.Base.{ℕ, String, Bool, ◌||◌, Option, none, some, ◌==◌, codes, if◌then◌else◌}
use abmcy_core_payment.Int64.{ℤ, pos, ltb_ℤ}
use abmcy_core_payment.Decimal.{parse_int}
use abmcy_core_payment.Fees.{default_usd_rate}
use abmcy_core_payment.Gateway.{Config}
use abmcy_core_payment.World.{Env}
use abmcy_core_payment.Payments.Handler.{PaymentHandler, new_payment_handler}

-- The environment variables, "" for one that is not set, and the errors of the pgx pool, if it
-- has any.
pub record Process : Type 0 where
  pub getenv : String → String
  pub parse_config : String → Option String
  pub open_pool : String → Option String
  pub ping : String → Option String

-- `Connect`: the error of the first of its three steps that has one.
unfoldable pub connect : Process → String → Option String
connect p url = after_parse (p.parse_config url)
  where
    after_open : Option String → Option String
    after_open (some x) = some x
    after_open none = p.ping url

    after_parse : Option String → Option String
    after_parse (some x) = some x
    after_parse none = after_open (p.open_pool url)

-- What the routes are served with.
pub record Settings : Type 0 where
  pub handler : PaymentHandler
  pub admin_token : String
  pub port : String

-- `log.Fatal` with a message, or a server.
pub data Start : Type 0 where
  fatal : String → Start
  serving : Settings → Start

abbrev pub database_required : String
database_required = "DATABASE_URL est requis (base abmcy_core sur le Postgres de diarra-vps)"

abbrev pub keys_required : String
keys_required =
    "DIARRA_GATEWAY_API_KEY et DIARRA_GATEWAY_HMAC_SECRET sont requis (voir README pour les obtenir via /api/admin/gateway/clients côté DIARRA)"

abbrev pub callback_required : String
callback_required =
    "ABMCY_CORE_CALLBACK_URL est requis (ex. https://core.diarra.app/webhooks/diarra) — DIARRA rappelle cette URL"

abbrev pub or_default : String → String → String
or_default v d = if v == "" then d else v

-- ABMCY_USD_RATE, where it is a positive number.
abbrev pub positive_or_default : Option ℤ → ℤ
positive_or_default none = default_usd_rate
positive_or_default (some n) = if ltb_ℤ (pos 0) n then n else default_usd_rate

unfoldable pub usd_rate_of : String → ℤ
usd_rate_of v = if v == "" then default_usd_rate else positive_or_default (parse_int (codes v))

module _ (e : Env) (p : Process) where
  -- The client and the callbacks use the hash of the secret as their key.
  unfoldable pub settings : Settings
  unfolding usd_rate_of
  settings =
      let secret_hash = e.sha256_hex (p.getenv "DIARRA_GATEWAY_HMAC_SECRET") in
      record {
        handler =
            new_payment_handler
              (record {
                base_url = or_default (p.getenv "DIARRA_GATEWAY_URL") "http://localhost:8080";
                api_key = p.getenv "DIARRA_GATEWAY_API_KEY";
                hmac_secret_hash = secret_hash;
              })
              secret_hash (p.getenv "ABMCY_CORE_CALLBACK_URL")
              (usd_rate_of (p.getenv "ABMCY_USD_RATE"));
        admin_token = p.getenv "ABMCY_ADMIN_TOKEN";
        port = or_default (p.getenv "PORT") "9090";
      }

  abbrev pub with_callback : Start
  with_callback =
      if p.getenv "ABMCY_CORE_CALLBACK_URL" == "" then fatal callback_required else serving settings

  abbrev pub connected : Option String → Start
  connected (some x) = fatal (append "connexion Postgres: " x)
  connected none =
      if p.getenv "DIARRA_GATEWAY_API_KEY" == "" || p.getenv "DIARRA_GATEWAY_HMAC_SECRET" == ""
      then fatal keys_required
      else with_callback

  unfoldable pub start : Start
  unfolding settings connect
  start =
      if p.getenv "DATABASE_URL" == ""
      then fatal database_required
      else connected (connect p (p.getenv "DATABASE_URL"))
