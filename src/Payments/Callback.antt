-- ===== src/Payments/Callback.antt =====
-- DiarraCallback, verifySignature and PaymentStatus of payment_handler.go.
use abmcy_core_payment.Base.{
  ℕ, String, Bool, false, ◌||◌, Option, none, some, List, [], ◌∷◌, ◌++◌, take, drop, ◌==◌,
  non_empty, if◌then◌else◌,
}
use abmcy_core_payment.Model.{Payment}
use abmcy_core_payment.World.{Env, Result, ok, err, GatewayCallbackPayload, M, ◌>>=◌, ◌>>◌}
use abmcy_core_payment.Http.{Request, Response, empty, payment, respond, http_error}
use abmcy_core_payment.Repo.Payments.{
  find_payment_by_app_ref, find_payment_by_diarra_ref, update_payment_status,
}
use abmcy_core_payment.Payments.Handler.{PaymentHandler}
use abmcy_core_payment.Payments.Relay.{relay_payment}

unfoldable pub verify_gateway_signature : Env → String → String → String → Bool
verify_gateway_signature e hmac_secret_hash body sig =
    if hmac_secret_hash == "" || sig == "" then false else e.hmac_hex hmac_secret_hash body == sig

module _ (e : Env) (h : PaymentHandler) where
  abbrev pub called_back : Payment → GatewayCallbackPayload → Payment
  called_back p c = record p { status = c.status; failure_reason = non_empty c.failure_reason }

  -- `go func() { … }()`: the relay is left to a goroutine, which `run_relay` is.
  unfoldable pub spawn_relay : Payment → M (Unit {0})
  spawn_relay p w = (tt, record w { relays = p ∷ w.relays })

  abbrev pub callback_stored : Payment → GatewayCallbackPayload → Result (Unit {0}) → M Response
  callback_stored p c (err _) = http_error 500 "update_failed"
  callback_stored p c (ok _) = spawn_relay (called_back p c) >> respond 200 empty

  -- A reference that is not known is answered 200.
  unfoldable pub callback_found : GatewayCallbackPayload → Result Payment → M Response
  callback_found c (err _) = respond 200 empty
  callback_found c (ok p) = do
    r ← update_payment_status e p.id c.status none (non_empty c.failure_reason)
    callback_stored p c r

  unfoldable pub callback_decoded : Option GatewayCallbackPayload → M Response
  callback_decoded none = http_error 400 "invalid_request"
  callback_decoded (some c) = do p ← find_payment_by_diarra_ref e c.client_ref; callback_found c p

  unfoldable pub callback_read : Request → Option String → M Response
  callback_read r none = http_error 400 "read_failed"
  callback_read r (some body) =
      if verify_gateway_signature e h.diarra_hmac_secret_hash body
        (r.header "X-Diarra-Gateway-Signature")
      then callback_decoded (e.decode_callback body)
      else http_error 401 "invalid_signature"

  -- POST /webhooks/diarra
  unfoldable pub diarra_callback : Request → M Response
  diarra_callback r = callback_read r r.body

  abbrev pub run_picked : List Payment → List Payment → M (Unit {0})
  run_picked before [] w = (tt, w)
  run_picked before (p ∷ rest) w =
      (tt, (relay_payment e p (record w { relays = before ++ rest })).1)

  -- The goroutine at place `n` runs: an error of the relay is only logged.
  unfoldable pub run_relay : ℕ → M (Unit {0})
  run_relay n w = run_picked (take n w.relays) (drop n w.relays) w

  abbrev pub status_found : Result Payment → M Response
  status_found (err _) = http_error 404 "not_found"
  status_found (ok p) = respond 200 (payment p)

  -- GET /v1/payments/{app_ref}
  unfoldable pub payment_status : String → Request → M Response
  payment_status app_id r = do
    p ← find_payment_by_app_ref e app_id (r.param "app_ref")
    status_found p
