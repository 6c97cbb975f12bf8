-- ===== src/Tests/Started.antt =====
-- A server that starts with its rate from the environment, and numbers that are read.
use text.Mathlib.TextEquality.{eq_iff}
use abmcy_core_payment.Base.{String, String-discrete, none, [], ◌∷◌, ◌≡◌, ◌≢◌, ◌⊎◌, refl, arith}
use abmcy_core_payment.Int64.{pos, negsuc}
use abmcy_core_payment.Decimal.{parse_int, atoi_value, scan_digits, scan_number, scan_uint}
use abmcy_core_payment.World.{World}
use abmcy_core_payment.Server.{stay, after, request, v1, post_pay, serve, empty_world}
use abmcy_core_payment.Startup.{
  Process, connect, Settings, fatal, serving, usd_rate_of, settings, start,
}
use abmcy_core_payment.Startup.Ready.{IsReady, start_of_IsReady, start-IsLedger}
use abmcy_core_payment.Startup.Configured.{IsConfigured, IsServed, start-IsConfigured}
use abmcy_core_payment.Ledger.{IsLedger}
use abmcy_core_payment.Tests.Samples.{calm, app_request}

-- "-42", "12a" and a number with no room
atoi_of_number : atoi_value (b'-' ∷ b'4' ∷ b'2' ∷ []) ≡ negsuc 41
unfolding atoi_value scan_uint
atoi_of_number = refl

atoi_of_text : atoi_value (b'1' ∷ b'2' ∷ b'a' ∷ []) ≡ pos 0
unfolding atoi_value scan_uint
atoi_of_text = refl

rate_of_number : usd_rate_of "655" ≡ pos 655
unfolding usd_rate_of parse_int scan_number scan_digits String-discrete
rate_of_number = refl

rate_of_negative : usd_rate_of "-5" ≡ pos 600
unfolding usd_rate_of parse_int scan_number scan_digits String-discrete
rate_of_negative = refl

abbrev value : String
value = "655"

-- Every variable has the same value, and the database answers.
abbrev same_everywhere : Process
same_everywhere = record {
  getenv = λ _. value;
  parse_config = λ _. none;
  open_pool = λ _. none;
  ping = λ _. none;
}

is_set : value ≢ ""
is_set = ground (arith, eq_iff "655" "")

same_everywhere-IsReady : IsReady same_everywhere
unfolding connect
same_everywhere-IsReady = record {
  database = is_set;
  connects = refl;
  api_key = is_set;
  secret = is_set;
  callback = is_set;
}

start-IsConfigured_example :
    (IsConfigured same_everywhere
      × (s : Settings) × (start calm same_everywhere ≡ serving s)
      × IsServed calm same_everywhere s)
    ⊎ ((¬ IsConfigured same_everywhere) × (x : String) × (start calm same_everywhere ≡ fatal x))
start-IsConfigured_example = start-IsConfigured calm same_everywhere

started : start calm same_everywhere ≡ serving (settings calm same_everywhere)
started =
    start_of_IsReady calm same_everywhere (settings calm same_everywhere) same_everywhere-IsReady
      refl

-- An order of an app that is not there.
abbrev refused_order : World
refused_order =
    (serve calm (settings calm same_everywhere).handler (settings calm same_everywhere).admin_token
      (v1 post_pay) app_request empty_world).1

start-IsLedger_example : IsLedger refused_order.payments
start-IsLedger_example =
    start-IsLedger calm same_everywhere (settings calm same_everywhere) started
      (after stay (request (v1 post_pay) app_request empty_world))
