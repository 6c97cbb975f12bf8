-- ===== src/Payments/Relay.antt =====
-- RelayPayment of payment_handler.go: the signed callback to an app.
use Prim.Native.String.{◌++◌}
use abmcy_core_payment.Base.{String, none, some, [], ◌∷◌, ◌==◌, deref, leb, if◌then◌else◌}
use abmcy_core_payment.Int64.{pos}
use abmcy_core_payment.Decimal.{format_int, text_of_digits}
use abmcy_core_payment.Model.{App, Payment, relay_delivered, relay_failed, relay_skipped}
use abmcy_core_payment.World.{
  Env, Result, ok, err, Error, message, RelayBody, relay_body, HttpRequest, HttpReply,
  transport_error, reply, M, pure, ◌>>=◌, ◌>>◌,
}
use abmcy_core_payment.Http.{send}
use abmcy_core_payment.Repo.Apps.{find_by_id}
use abmcy_core_payment.Repo.Payments.{set_relay_result}

abbrev pub relay_content : Payment → RelayBody
relay_content p = record {
  app_ref = p.app_ref;
  status = p.status;
  amount_cfa = p.amount_cfa;
  failure_reason = p.failure_reason;
}

module _ (e : Env) where
  -- The key of the signature is the hash of the app's secret.
  abbrev pub relay_request : App → Payment → HttpRequest
  relay_request app p = record {
    method = "POST";
    url = deref p.callback_url;
    payload = relay_body (relay_content p);
    headers =
        ("Content-Type", "application/json")
        ∷ (
          "X-Abmcy-Signature",
          e.hmac_hex app.hmac_secret_hash (e.marshal (relay_body (relay_content p))),
        )
        ∷ [];
  }

  abbrev pub fail_relay : Payment → String → Error → M (Result (Unit {0}))
  fail_relay p text x = set_relay_result e p.id relay_failed (some text) >> pure (err x)

  -- An answer of 300 or more is a failure.
  unfoldable pub relay_answered : Payment → HttpReply → M (Result (Unit {0}))
  relay_answered p (transport_error s) = fail_relay p s (message s)
  relay_answered p (reply status _) =
      let text = "callback a répondu HTTP " ++ text_of_digits (format_int (pos status)) in
      if leb 300 status
      then fail_relay p text (message text)
      else set_relay_result e p.id relay_delivered none

  -- A URL of which no request can be made ends the relay here.
  unfoldable pub relay_signed : Payment → Result App → M (Result (Unit {0}))
  relay_signed p (err x) = fail_relay p "app introuvable pour la signature du relais" x
  relay_signed p (ok app) =
      let q = relay_request app p in
      if e.valid_url q.url
      then (do a ← send e q; relay_answered p a)
      else pure (err (message "invalid url"))

  unfoldable pub relay_payment : Payment → M (Result (Unit {0}))
  relay_payment p =
      if deref p.callback_url == ""
      then set_relay_result e p.id relay_skipped none
      else (do app ← find_by_id e p.app_id; relay_signed p app)
