-- ===== src/Admin.antt =====
-- internal/handler/admin_handler.go: the console's writes, and its view of one payment.
pub mod Listings
pub mod Deactivation
pub mod Credentials
pub mod Levels
use abmcy_core_payment.Base.{
  String, Bool, true, false, not, ◌&&◌, Option, none, some, ◌==◌, deref, non_empty, if◌then◌else◌,
}
use abmcy_core_payment.Model.{App, Payment, kyc_none, kyc_verified}
use abmcy_core_payment.World.{Env, Error, Result, ok, err, PayoutAdminParams, M, ◌>>=◌}
use abmcy_core_payment.Http.{
  Request, Response, payment, outcome, credentials, done, respond, http_error,
}
use abmcy_core_payment.Repo.Apps.{create, set_active, set_kyc_level}
use abmcy_core_payment.Repo.Payments.{find_payment_by_id}
use abmcy_core_payment.Token.{generate_token, hash_token}

-- What the console may trigger of the payments.
pub record Relayer : Type 0 where
  pub relay_payment : Payment → M (Result (Unit {0}))
  pub refund_deposit : Payment → M (Result Payment)
  pub payout_for_admin : PayoutAdminParams → M (Result Payment)

-- A value, or nil.
abbrev pub value_of : {A : Type 0} → Result A → Option A
value_of (ok a) = some a
value_of (err _) = none

abbrev pub error_of : {A : Type 0} → Result A → Option Error
error_of (ok _) = none
error_of (err x) = some x

abbrev pub is_ok : {A : Type 0} → Result A → Bool
is_ok (ok _) = true
is_ok (err _) = false

module _ (e : Env) (relay : Relayer) where
  abbrev pub app_created : String → String → Result App → M Response
  app_created key secret (err _) = http_error 500 "creation_failed"
  app_created key secret (ok app) = respond 201 (credentials app key secret none)

  abbrev pub create_secret : String × String → String → Result String → M Response
  create_secret i key (err _) = http_error 500 "key_generation_failed"
  create_secret (name, callback) key (ok secret) = do
    app ← create e name (hash_token e key) (hash_token e secret) (non_empty callback)
    app_created key secret app

  abbrev pub create_key : String × String → Result String → M Response
  create_key i (err _) = http_error 500 "key_generation_failed"
  create_key i (ok key) = do secret ← generate_token e; create_secret i key secret

  unfoldable pub create_app_input : Option (String × String) → M Response
  create_app_input none = http_error 400 "invalid_request"
  create_app_input (some i) =
      if i.0 == ""
      then http_error 400 "name_required"
      else (do key ← generate_token e; create_key i key)

  -- POST /admin/apps
  unfoldable pub create_app : Request → M Response
  create_app r = create_app_input (e.decode_app (deref r.body))

  abbrev pub payment_found : Result Payment → M Response
  payment_found (err _) = http_error 404 "not_found"
  payment_found (ok p) = respond 200 (payment p)

  -- GET /admin/payments/{id}
  unfoldable pub get_payment : Request → M Response
  get_payment r = do p ← find_payment_by_id e (r.param "id"); payment_found p

  -- The answer shows the row as it is after the relay.
  unfoldable pub relay_found : Result Payment → M Response
  relay_found (err _) = http_error 404 "not_found"
  relay_found (ok p) = do
    r ← relay.relay_payment p
    fresh ← find_payment_by_id e p.id
    respond 200 (outcome (is_ok r) (error_of r) (value_of fresh))

  -- POST /admin/payments/{id}/relay
  unfoldable pub relay_again : Request → M Response
  relay_again r = do p ← find_payment_by_id e (r.param "id"); relay_found p

  abbrev pub answer_outcome : Result Payment → M Response
  answer_outcome r = respond 200 (outcome (is_ok r) (error_of r) (value_of r))

  unfoldable pub create_payout_input : Option PayoutAdminParams → M Response
  create_payout_input none = http_error 400 "invalid_request"
  create_payout_input (some p) =
      if p.app_id == ""
      then http_error 400 "app_id_required"
      else (do r ← relay.payout_for_admin p; answer_outcome r)

  -- POST /admin/payouts
  unfoldable pub create_payout : Request → M Response
  create_payout r = create_payout_input (e.decode_admin_payout (deref r.body))

  unfoldable pub refund_found : Result Payment → M Response
  refund_found (err _) = http_error 404 "not_found"
  refund_found (ok d) = do r ← relay.refund_deposit d; answer_outcome r

  -- POST /admin/payments/{id}/refund
  unfoldable pub refund_payment : Request → M Response
  refund_payment r = do p ← find_payment_by_id e (r.param "id"); refund_found p

  abbrev pub answer_done : Result (Unit {0}) → M Response
  answer_done (err _) = http_error 500 "update_failed"
  answer_done (ok _) = respond 200 done

  unfoldable pub set_app_kyc_input : String → Option String → M Response
  set_app_kyc_input id none = http_error 400 "invalid_request"
  set_app_kyc_input id (some level) =
      if not (level == kyc_none) && not (level == kyc_verified)
      then http_error 400 "level_must_be_none_or_verified"
      else (do r ← set_kyc_level e id level; answer_done r)

  -- PUT /admin/apps/{id}/kyc
  unfoldable pub set_app_kyc : Request → M Response
  set_app_kyc r = set_app_kyc_input (r.param "id") (e.decode_level (deref r.body))

  unfoldable pub set_app_active_input : String → Option Bool → M Response
  set_app_active_input id none = http_error 400 "invalid_request"
  set_app_active_input id (some active) = do r ← set_active e id active; answer_done r

  -- PUT /admin/apps/{id}/active
  unfoldable pub set_app_active : Request → M Response
  set_app_active r = set_app_active_input (r.param "id") (e.decode_active (deref r.body))
