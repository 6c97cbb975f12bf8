-- ===== src/World.antt =====
-- What the handlers run in: the tables of the database, the requests that went out, and an
-- environment that answers for everything outside the repository. One counter numbers the effects
-- (statements, outgoing requests, reads of the random source), so each may have another answer.
pub mod Keeps
pub mod Preserves
use abmcy_core_payment.Base.{ℕ, ◌+◌, String, Bool, Option, none, some, List, ◌∷◌}
use abmcy_core_payment.Int64.{ℤ}
use abmcy_core_payment.Stats.{ByType, ByApp, ByOperator}
use abmcy_core_payment.Model.{
  App, Payment, PaymentWithApp, SignupRequest, CreatePaymentInput, CreateRefundInput,
  CreatePayoutInput, PublicSignupInput,
}

-- internal/gateway/diarra_client.go: the bodies that are sent to the gateway.
pub record DepositRequest : Type 0 where
  pub client_ref : String
  pub amount_cfa : ℤ
  pub country : String
  pub description : String
  pub callback_url : String
  pub return_url : String

pub record PayoutRequest : Type 0 where
  pub client_ref : String
  pub amount_cfa : ℤ
  pub recipient_phone : String
  pub recipient_operator : String
  pub country : String
  pub callback_url : String

pub record RefundRequest : Type 0 where
  pub client_ref : String
  pub deposit_client_ref : String
  pub callback_url : String

-- The callback that `RelayPayment` sends to an app.
pub record RelayBody : Type 0 where
  pub app_ref : String
  pub status : String
  pub amount_cfa : ℤ
  pub failure_reason : Option String

pub data Payload : Type 0 where
  no_body : Payload
  deposit_body : DepositRequest → Payload
  payout_body : PayoutRequest → Payload
  refund_body : RefundRequest → Payload
  relay_body : RelayBody → Payload

pub record HttpRequest : Type 0 where
  pub method : String
  pub url : String
  pub payload : Payload
  pub headers : List (String × String)

-- What `http.Client.Do` and the read of the body give.
pub data HttpReply : Type 0 where
  transport_error : String → HttpReply
  reply : ℕ → String → HttpReply

-- Transaction of diarra_client.go: the fields that the program reads.
pub record Transaction : Type 0 where
  pub client_ref : String
  pub provider : String
  pub status : String
  pub failure_reason : String
  pub redirect_url : String

-- gatewayCallbackPayload of payment_handler.go
pub record GatewayCallbackPayload : Type 0 where
  pub client_ref : String
  pub kind : String
  pub status : String
  pub failure_reason : String
  pub amount_cfa : ℤ

-- PayoutAdminParams of payment_handler.go
pub record PayoutAdminParams : Type 0 where
  pub app_id : String
  pub recipient_phone : String
  pub recipient_operator : String
  pub country : String
  pub description : String
  pub amount_cfa : ℤ

-- TestPayInput of test_page.go
pub record TestPayInput : Type 0 where
  pub app_id : String
  pub amount_cfa : ℤ
  pub country : String

-- How a statement ends when the database is asked: it runs, or it fails before or after it ran.
pub data Fault : Type 0 where
  fine : Fault
  refused : String → Fault
  reply_lost : String → Fault

-- How the database arranges the rows of each query that has an ORDER BY.
pub record Arrangement : Type 0 where
  pub apps_by_age : List App → List App
  pub payments_by_age : List PaymentWithApp → List PaymentWithApp
  pub signups_by_age : List SignupRequest → List SignupRequest
  pub types_by_name : List ByType → List ByType
  pub apps_by_fee : List ByApp → List ByApp
  pub operators_by_count : List ByOperator → List ByOperator

pub record Env : Type 0 where
  pub fault : ℕ → Fault
  pub now : ℕ → ℕ
  pub gen_uuid : ℕ → String
  pub arrange : ℕ → Arrangement
  -- How many rows of the answer arrive, where it breaks off.
  pub breaks_off : ℕ → Option ℕ
  -- `$1::uuid`: the text of a UUID in the database's spelling.
  pub parse_uuid : String → Option String
  -- `AddDate` of a time by a number of days.
  pub add_days : ℕ → ℤ → ℤ
  -- The effect's number, and the number of bytes that are asked for.
  pub read_random : ℕ → ℕ → Option (List ℕ)
  pub http_do : ℕ → HttpRequest → HttpReply
  pub valid_url : String → Bool
  pub hmac_hex : String → String → String
  pub sha256_hex : String → String
  pub marshal : Payload → String
  pub decode_transaction : String → Option Transaction
  pub decode_payment : String → Option CreatePaymentInput
  pub decode_refund : String → Option CreateRefundInput
  pub decode_payout : String → Option CreatePayoutInput
  pub decode_callback : String → Option GatewayCallbackPayload
  pub decode_signup : String → Option PublicSignupInput
  -- A body that is no JSON leaves the note empty.
  pub decode_note : String → String
  pub decode_app : String → Option (String × String)
  pub decode_admin_payout : String → Option PayoutAdminParams
  pub decode_level : String → Option String
  pub decode_active : String → Option Bool
  pub decode_test_pay : String → Option TestPayInput
  pub trim_space : String → String
  pub parses_as_address : String → Bool
  pub lower : String → String

pub record World : Type 0 where
  pub apps : List App
  pub payments : List Payment
  pub signups : List SignupRequest
  pub sent : List HttpRequest
  -- The payments whose relay a goroutine has still to make.
  pub relays : List Payment
  pub tick : ℕ

pub data Error : Type 0 where
  app_not_found payment_not_found signup_not_found signup_pending_exists : Error
  unique_violation check_violation foreign_key_violation out_of_range : Error
  database : String → Error
  message : String → Error

pub data Result (A : Type 0) : Type 0 where
  ok : A → Result A
  err : Error → Result A

abbrev pub M : Type 0 → Type 0
M A = World → A × World

abbrev pub pure : {A : Type 0} → A → M A
pure a w = (a, w)

infixl 5 ◌>>=◌ ◌>>◌
abbrev pub ◌>>=◌ : {A B : Type 0} → M A → (A → M B) → M B
◌>>=◌ m f w = let (a, w') = m w in f a w'

abbrev pub ◌>>◌ : {A B : Type 0} → M A → M B → M B
m >> k = m >>= λ _. k

abbrev pub advance : World → World
advance w = record w { tick = w.tick + 1 }

-- Runs the rest on a value, or passes the error on: `if err != nil { return nil, err }`.
abbrev pub on_ok : {A B : Type 0} → Result A → (A → M (Result B)) → M (Result B)
on_ok (ok a) f = f a
on_ok (err x) f = pure (err x)

module _ (e : Env) where
  abbrev pub run_statement : {A : Type 0} → Fault → M (Result A) → M (Result A)
  run_statement fine m w = m (advance w)
  run_statement (refused s) m w = (err (database s), advance w)
  run_statement (reply_lost s) m w = (err (database s), (m (advance w)).1)

  -- One SQL statement, or the failure that the environment has for it.
  unfoldable pub statement : {A : Type 0} → M (Result A) → M (Result A)
  statement m w = run_statement (e.fault w.tick) m w
