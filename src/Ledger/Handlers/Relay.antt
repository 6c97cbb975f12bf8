-- ===== src/Ledger/Handlers/Relay.antt =====
-- The relay and the callback keep the ledger.
use Prim.Native.String.{◌++◌}
use abmcy_core_payment.Base.{
  ℕ, String, Option, none, some, List, [], ◌∷◌, ◌++◌ as append, take, drop, ◌==◌, deref, non_empty,
  leb,
}
use abmcy_core_payment.Int64.{pos}
use abmcy_core_payment.Decimal.{format_int, text_of_digits}
use abmcy_core_payment.Model.{App, Payment, relay_delivered, relay_failed, relay_skipped}
use abmcy_core_payment.World.{
  Env, Result, ok, err, Error, message, HttpReply, transport_error, reply, GatewayCallbackPayload,
}
use abmcy_core_payment.World.Keeps.{
  Keeps, Triple-if, Triple-bind, Triple-after, Keeps-bind, Keeps-pure, Ends-Keeps,
}
use abmcy_core_payment.Http.{Request, empty, error}
use abmcy_core_payment.Payments.Handler.{PaymentHandler}
use abmcy_core_payment.Payments.Relay.{
  relay_request, fail_relay, relay_answered, relay_signed, relay_payment,
}
use abmcy_core_payment.Payments.Callback.{
  verify_gateway_signature, called_back, spawn_relay, callback_stored, callback_found,
  callback_decoded, callback_read, diarra_callback, run_picked, run_relay,
}
use abmcy_core_payment.Ledger.{IsLedger}
use abmcy_core_payment.Ledger.Reads.{send-Reads, find_by_id-Reads}
use abmcy_core_payment.Ledger.Respond.{Keeps-respond}
use abmcy_core_payment.Ledger.Statements.{
  find_payment_by_diarra_ref-Gives, update_payment_status-Runs, set_relay_result-Runs,
}

module _ (e : Env) where
  fail_relay-Keeps :
      (p : Payment) (text : String) (x : Error) → Keeps IsLedger (fail_relay e p text x)
  fail_relay-Keeps p text x =
      Keeps-bind (set_relay_result-Runs e p.id relay_failed (some text)) (λ _. Keeps-pure (err x))

  relay_answered-Keeps : (p : Payment) (a : HttpReply) → Keeps IsLedger (relay_answered e p a)
  unfolding relay_answered
  relay_answered-Keeps p (transport_error s) = fail_relay-Keeps p s (message s)
  relay_answered-Keeps p (reply status body) =
      let text = "callback a répondu HTTP " ++ text_of_digits (format_int (pos status)) in
      Triple-if (leb 300 status) (λ _. fail_relay-Keeps p text (message text))
        λ _. Ends-Keeps (set_relay_result-Runs e p.id relay_delivered none)

  relay_signed-Keeps : (p : Payment) (r : Result App) → Keeps IsLedger (relay_signed e p r)
  unfolding relay_signed
  relay_signed-Keeps p (err x) = fail_relay-Keeps p "app introuvable pour la signature du relais" x
  relay_signed-Keeps p (ok app) =
      Triple-if (e.valid_url (deref p.callback_url))
        (λ _. Triple-after (send-Reads e (relay_request e app p)) (relay_answered-Keeps p))
        λ _. Keeps-pure (err (message "invalid url"))

  pub relay_payment-Keeps : (p : Payment) → Keeps IsLedger (relay_payment e p)
  unfolding relay_payment
  relay_payment-Keeps p =
      Triple-if (deref p.callback_url == "")
        (λ _. Ends-Keeps (set_relay_result-Runs e p.id relay_skipped none))
        λ _. Triple-after (find_by_id-Reads e p.app_id) (relay_signed-Keeps p)

  module _ (h : PaymentHandler) where
    spawn-Keeps : (p : Payment) → Keeps IsLedger (spawn_relay e h p)
    unfolding spawn_relay
    spawn-Keeps p = record { at = λ w l. l }

    callback_stored-Keeps :
        (p : Payment) (c : GatewayCallbackPayload) (r : Result (Unit {0}))
        → Keeps IsLedger (callback_stored e h p c r)
    callback_stored-Keeps p c (err x) = Keeps-respond 500 (error "update_failed")
    callback_stored-Keeps p c (ok u) =
        Triple-bind _ _ (spawn-Keeps (called_back e h p c)) (λ _. Keeps-respond 200 empty)

    callback_found-Keeps :
        (c : GatewayCallbackPayload) (r : Result Payment) → Keeps IsLedger (callback_found e h c r)
    unfolding callback_found
    callback_found-Keeps c (err x) = Keeps-respond 200 empty
    callback_found-Keeps c (ok p) =
        Keeps-bind (update_payment_status-Runs e p.id c.status none (non_empty c.failure_reason))
          (callback_stored-Keeps p c)

    callback_decoded-Keeps :
        (o : Option GatewayCallbackPayload) → Keeps IsLedger (callback_decoded e h o)
    unfolding callback_decoded
    callback_decoded-Keeps none = Keeps-respond 400 (error "invalid_request")
    callback_decoded-Keeps (some c) =
        Keeps-bind (find_payment_by_diarra_ref-Gives e c.client_ref) (callback_found-Keeps c)

    callback_read-Keeps : (r : Request) (o : Option String) → Keeps IsLedger (callback_read e h r o)
    unfolding callback_read
    callback_read-Keeps r none = Keeps-respond 400 (error "read_failed")
    callback_read-Keeps r (some body) =
        Triple-if
          (verify_gateway_signature e h.diarra_hmac_secret_hash body
            (r.header "X-Diarra-Gateway-Signature"))
          (λ _. callback_decoded-Keeps (e.decode_callback body))
          λ _. Keeps-respond 401 (error "invalid_signature")

    pub diarra_callback-Keeps : (r : Request) → Keeps IsLedger (diarra_callback e h r)
    unfolding diarra_callback
    diarra_callback-Keeps r = callback_read-Keeps r r.body

    run_picked-Keeps : (before after : List Payment) → Keeps IsLedger (run_picked e h before after)
    run_picked-Keeps before [] = record { at = λ w l. l }
    run_picked-Keeps before (p ∷ rest) = record {
      at = λ w l. (relay_payment-Keeps p).at (record w { relays = append before rest }) l;
    }

    pub run_relay-Keeps : (n : ℕ) → Keeps IsLedger (run_relay e h n)
    unfolding run_relay
    run_relay-Keeps n = record {
      at = λ w l. (run_picked-Keeps (take n w.relays) (drop n w.relays)).at w l;
    }
