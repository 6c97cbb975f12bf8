-- ===== src/Gateway.antt =====
-- internal/gateway/diarra_client.go: the signed calls to the DIARRA gateway.
use Prim.Native.String.{◌++◌}
use abmcy_core_payment.Base.{ℕ, ◌/◌, ◌^◌, String, Option, none, some, [], ◌∷◌, leb, if◌then◌else◌}
use abmcy_core_payment.Int64.{pos}
use abmcy_core_payment.Decimal.{format_int, text_of_digits}
use abmcy_core_payment.World.{
  Env, HttpRequest, HttpReply, transport_error, reply, Payload, no_body, deposit_body, payout_body,
  refund_body, DepositRequest, PayoutRequest, RefundRequest, Transaction, Result, ok, err, message,
  M,
}
use abmcy_core_payment.Http.{send}

pub record Config : Type 0 where
  pub base_url : String
  pub api_key : String
  pub hmac_secret_hash : String

-- `raw` of doSigned: no body is no bytes.
abbrev pub raw_body : Env → Payload → String
raw_body e no_body = ""
raw_body e p = e.marshal p

-- Unix seconds, in decimal.
abbrev pub timestamp : ℕ → String
timestamp now = text_of_digits (format_int (pos (now / 10 ^ 9)))

unfoldable pub signed_request : Env → Config → ℕ → String → String → Payload → HttpRequest
signed_request e cfg now method path p =
    let ts = timestamp now in
    record {
      method = method;
      url = cfg.base_url ++ path;
      payload = p;
      headers =
          ("Content-Type", "application/json")
          ∷ ("X-Gateway-Key", cfg.api_key)
          ∷ ("X-Diarra-Timestamp", ts)
          ∷ ("X-Diarra-Signature", e.hmac_hex cfg.hmac_secret_hash (ts ++ "." ++ raw_body e p))
          ∷ [];
    }

abbrev read_transaction : Option Transaction → Result Transaction
read_transaction none = err (message "invalid response")
read_transaction (some t) = ok t

-- A status of 300 or more is an error, and so is a body that is not the JSON expected.
unfoldable pub read_reply : Env → HttpReply → Result Transaction
read_reply e (transport_error s) = err (message s)
read_reply e (reply status body) =
    if leb 300 status
    then err (
        message
          ("diarra gateway: status " ++ text_of_digits (format_int (pos status)) ++ ": " ++ body))
    else read_transaction (e.decode_transaction body)

module _ (e : Env) (cfg : Config) where
  unfoldable pub do_signed : String → String → Payload → M (Result Transaction)
  unfolding signed_request read_reply send
  do_signed method path p w =
      let q = signed_request e cfg (e.now w.tick) method path p in
      if e.valid_url q.url
      then (let (r, w') = send e q w in (read_reply e r, w'))
      else (err (message "invalid url"), w)

  unfoldable pub create_deposit : DepositRequest → M (Result Transaction)
  create_deposit input = do_signed "POST" "/api/gateway/v1/deposits" (deposit_body input)

  unfoldable pub get_deposit : String → M (Result Transaction)
  get_deposit client_ref = do_signed "GET" ("/api/gateway/v1/deposits/" ++ client_ref) no_body

  unfoldable pub create_payout : PayoutRequest → M (Result Transaction)
  create_payout input = do_signed "POST" "/api/gateway/v1/payouts" (payout_body input)

  unfoldable pub get_payout : String → M (Result Transaction)
  get_payout client_ref = do_signed "GET" ("/api/gateway/v1/payouts/" ++ client_ref) no_body

  unfoldable pub create_refund : RefundRequest → M (Result Transaction)
  create_refund input = do_signed "POST" "/api/gateway/v1/refunds" (refund_body input)
