-- ===== src/Tests/Samples.antt =====
-- An environment, a handler and rows to try the handlers on.
use Prim.Native.String.{◌++◌}
use abmcy_core_payment.Base.{
  ℕ, ◌+◌, ◌*◌, ◌^◌, String, true, none, some, [], ◌∷◌, replicate, ◌==◌, if◌then◌else◌,
}
use abmcy_core_payment.Int64.{pos, ◌+ℤ◌, ◌*ℤ◌}
use abmcy_core_payment.Decimal.{format_int, text_of_digits}
use abmcy_core_payment.Model.{
  App, Payment, SignupRequest, CreatePaymentInput, CreatePayoutInput, CreateRefundInput, completed,
  type_deposit, relay_pending, kyc_verified,
}
use abmcy_core_payment.Orders.Sort.{sort_by, before_by}
use abmcy_core_payment.Stats.{ByApp, ByOperator}
use abmcy_core_payment.Repo.Payments.Pages.{age}
use abmcy_core_payment.World.{World, Env, fine, reply, Transaction, GatewayCallbackPayload}
use abmcy_core_payment.Http.{Request}
use abmcy_core_payment.Payments.Handler.{PaymentHandler}

-- A name for a number.
abbrev pub name_of : String → ℕ → String
name_of kind n = kind ++ text_of_digits (format_int (pos n))

abbrev pub order : CreatePaymentInput
order = record {
  app_ref = "order-1";
  amount_cfa = pos 1000;
  country = "SEN";
  description = "";
  callback_url = "https://shop.example/hook";
  return_url = "";
}

abbrev pub transaction : Transaction
transaction = record {
  client_ref = "ref";
  provider = "wave";
  status = "processing";
  failure_reason = "";
  redirect_url = "https://gateway.example/1";
}

-- The reference that the first order of an app gets.
abbrev pub first_ref : String
first_ref = "03030303-0303-4303-8303-030303030303"

-- The gateway's answer to it.
abbrev pub callback : GatewayCallbackPayload
callback = record {
  client_ref = first_ref;
  kind = "deposit";
  status = completed;
  failure_reason = "";
  amount_cfa = pos 1000;
}

abbrev pub salary : CreatePayoutInput
salary = record {
  app_ref = "salary-1";
  amount_cfa = pos 5000;
  recipient_phone = "770000000";
  recipient_operator = "wave";
  country = "SEN";
  description = "";
  callback_url = "";
}

-- Above every limit.
abbrev pub large_order : CreatePaymentInput
large_order = record order { amount_cfa = pos 1_000_001 }

abbrev pub large_payout : CreatePayoutInput
large_payout = record salary { amount_cfa = pos 1_000_001 }

-- Every statement runs, the gateway answers 200, and every body is the sample of its kind.
abbrev pub calm : Env
calm = record {
  fault = λ _. fine;
  now = λ n. 1_700_000_000 * 10 ^ 9 + n;
  gen_uuid = name_of "id-";
  arrange = λ _. record {
    apps_by_age = sort_by (before_by λ (a : App). pos a.created_at);
    payments_by_age = sort_by (before_by age);
    signups_by_age = sort_by (before_by λ (s : SignupRequest). pos s.created_at);
    types_by_name = λ xs. xs;
    apps_by_fee = sort_by (before_by λ (a : ByApp). a.fee_cfa);
    operators_by_count = sort_by (before_by λ (o : ByOperator). pos o.count);
  };
  breaks_off = λ _. none;
  parse_uuid = some;
  add_days = λ t d. pos t +ℤ d *ℤ pos (86_400 * 10 ^ 9);
  read_random = λ n k. some (replicate k n);
  http_do = λ _ _. reply 200 "{}";
  valid_url = λ _. true;
  hmac_hex = λ key text. key ++ ":" ++ text;
  sha256_hex = λ s. "#" ++ s;
  marshal = λ _. "{}";
  decode_transaction = λ _. some transaction;
  decode_payment = λ _. some order;
  decode_refund =
      λ _. some (record { deposit_app_ref = "order-1"; refund_app_ref = ""; callback_url = "" });
  decode_payout = λ _. some salary;
  decode_callback = λ _. some callback;
  decode_signup = λ _. none;
  decode_note = λ _. "";
  decode_app = λ _. some ("shop", "");
  decode_admin_payout = λ _. none;
  decode_level = λ _. some kyc_verified;
  decode_active = λ _. some true;
  decode_test_pay = λ _. none;
  trim_space = λ s. s;
  parses_as_address = λ _. true;
  lower = λ s. s;
}

abbrev pub shop : PaymentHandler
shop = record {
  diarra = record {
    base_url = "https://gateway.example";
    api_key = "key";
    hmac_secret_hash = "secret";
  };
  diarra_hmac_secret_hash = "secret";
  self_callback_url = "https://core.example/webhooks/diarra";
  public_base_url = "https://core.example";
  usd_rate = pos 600;
}

abbrev pub some_request : Request
some_request = record { header = λ _. ""; param = λ _. ""; query = λ _. none; body = some "{}" }

-- A request that the app has signed.
abbrev pub app_headers : String → String
app_headers name =
    if name == "X-App-Key"
    then "key"
    else if name == "X-Abmcy-Timestamp"
    then "1700000000"
    else if name == "X-Abmcy-Signature"
    then "app-secret:1700000000.{}"
    else ""

abbrev pub app_request : Request
app_request = record some_request { header = app_headers }

-- A callback that the gateway has signed.
abbrev pub gateway_headers : String → String
gateway_headers name = if name == "X-Diarra-Gateway-Signature" then "secret:{}" else ""

abbrev pub gateway_request : Request
gateway_request = record some_request { header = gateway_headers }

abbrev pub shop_app : App
shop_app = record {
  id = "app-1";
  name = "shop";
  api_key_hash = "#key";
  hmac_secret_hash = "app-secret";
  default_callback_url = none;
  is_active = true;
  kyc_level = kyc_verified;
  created_at = 0;
  updated_at = 0;
}

-- A deposit that was paid.
abbrev pub paid : Payment
paid = record {
  id = "id-1";
  app_id = "app-1";
  app_ref = "order-1";
  diarra_client_ref = first_ref;
  kind = type_deposit;
  provider = none;
  status = completed;
  failure_reason = none;
  amount_cfa = pos 1000;
  fee_cfa = pos 100;
  net_cfa = some (pos 900);
  usd_rate_used = some (pos 600);
  currency = "XOF";
  description = none;
  redirect_url = none;
  callback_url = none;
  return_url = none;
  refund_of_payment_id = none;
  recipient_phone = none;
  recipient_operator = none;
  country = none;
  relay_status = relay_pending;
  relay_attempts = 0;
  relay_last_error = none;
  relay_last_attempt_at = none;
  created_at = 0;
  updated_at = 0;
}

-- The app is there, and has no payment yet.
abbrev pub new_shop : World
new_shop = record {
  apps = shop_app ∷ [];
  payments = [];
  signups = [];
  sent = [];
  relays = [];
  tick = 0;
}

-- The app has one paid deposit.
abbrev pub paid_shop : World
paid_shop = record new_shop { payments = paid ∷ [] }

-- Every order and every payout is above the limits.
abbrev pub greedy : Env
greedy = record calm {
  decode_payment = λ _. some large_order;
  decode_payout = λ _. some large_payout;
}

-- The app has one deposit that is not paid.
abbrev pub unpaid : Payment
unpaid = record paid { status = "pending" }

abbrev pub unpaid_shop : World
unpaid_shop = record new_shop { payments = unpaid ∷ [] }

abbrev pub return_of : CreateRefundInput
return_of = record { deposit_app_ref = "order-1"; refund_app_ref = ""; callback_url = "" }
