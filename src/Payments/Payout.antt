-- ===== src/Payments/Payout.antt =====
-- Payout and PayoutForAdmin of payment_handler.go.
use Prim.Native.String.{◌++◌, slice}
use abmcy_core_payment.Base.{
  String, Bool, ◌||◌, Option, none, some, ◌==◌, deref, non_empty, if◌then◌else◌,
}
use abmcy_core_payment.Int64.{pos, ltb_ℤ, leb_ℤ}
use abmcy_core_payment.Fees.{compute}
use abmcy_core_payment.Gateway.{create_payout}
use abmcy_core_payment.Model.{
  App, Payment, CreatePayoutInput, failed, type_payout, kyc_none, max_amount_for,
}
use abmcy_core_payment.World.{
  Env, Result, ok, err, message, Transaction, PayoutRequest, PayoutAdminParams, M, pure, ◌>>=◌,
  ◌>>◌, on_ok,
}
use abmcy_core_payment.Http.{Request, Response, payment, limit_exceeded, respond, http_error}
use abmcy_core_payment.Repo.Apps.{find_by_id}
use abmcy_core_payment.Repo.Payments.{
  PaymentParams, find_payment_by_app_ref_type, find_payment_by_id, create_payout_payment,
  update_payment_status,
}
use abmcy_core_payment.Uuid.{abmcy_uuid}
use abmcy_core_payment.Payments.Handler.{PaymentHandler}
use abmcy_core_payment.Payments.Refund.{record_status, with_status}

abbrev pub is_missing : CreatePayoutInput → Bool
is_missing i =
    i.app_ref == ""
    || (leb_ℤ i.amount_cfa (pos 0)
        || (i.recipient_phone == "" || (i.recipient_operator == "" || i.country == "")))

abbrev pub is_incomplete : PayoutAdminParams → Bool
is_incomplete p =
    leb_ℤ p.amount_cfa (pos 0)
    || (p.recipient_phone == "" || (p.recipient_operator == "" || p.country == ""))

module _ (e : Env) (h : PaymentHandler) where
  abbrev pub payout_params : String → CreatePayoutInput → String → PaymentParams
  payout_params app_id i ref =
      let fee = compute i.amount_cfa h.usd_rate in
      record {
        app_id = app_id;
        app_ref = i.app_ref;
        diarra_client_ref = ref;
        amount_cfa = i.amount_cfa;
        fee_cfa = fee.fee_cfa;
        net_cfa = fee.net_cfa;
        usd_rate_used = fee.usd_rate_used;
        currency = "XOF";
        description = non_empty i.description;
        callback_url = non_empty i.callback_url;
      }

  -- The recipient is sent the net.
  abbrev pub payout_request : CreatePayoutInput → String → PayoutRequest
  payout_request i ref = record {
    client_ref = ref;
    amount_cfa = (compute i.amount_cfa h.usd_rate).net_cfa;
    recipient_phone = i.recipient_phone;
    recipient_operator = i.recipient_operator;
    country = i.country;
    callback_url = h.self_callback_url;
  }

  abbrev pub payout_sent : Payment → Result Transaction → M Response
  payout_sent p (err _) =
      update_payment_status e p.id failed none (some "diarra_payout_failed")
      >> http_error 502 "payout_init_failed"
  payout_sent p (ok tx) = record_status e h p tx >> respond 201 (payment (with_status e h p tx))

  unfoldable pub payout_created : CreatePayoutInput → String → Result Payment → M Response
  payout_created i ref (err _) = http_error 500 "payout_creation_failed"
  payout_created i ref (ok p) = do
    tx ← create_payout e h.diarra (payout_request i ref)
    payout_sent p tx

  unfoldable pub payout_allowed : String → CreatePayoutInput → M Response
  payout_allowed app_id i =
      if leb_ℤ (compute i.amount_cfa h.usd_rate).net_cfa (pos 0)
      then http_error 422 "amount_too_small_after_fee"
      else do
        ref ← abmcy_uuid e
        p ←
            create_payout_payment e (payout_params app_id i ref) i.recipient_phone
              i.recipient_operator i.country
        payout_created i ref p

  unfoldable pub payout_limited : String → CreatePayoutInput → Result App → M Response
  payout_limited app_id i (err _) = http_error 500 "app_lookup_failed"
  payout_limited app_id i (ok app) =
      let max = max_amount_for app.kyc_level in
      if ltb_ℤ max i.amount_cfa
      then respond 422 (
          limit_exceeded
            (record { max_cfa = max; kyc_level = none; kyc_required = app.kyc_level == kyc_none }))
      else payout_allowed app_id i

  unfoldable pub payout_looked_up : String → CreatePayoutInput → Result Payment → M Response
  payout_looked_up app_id i (ok existing) = respond 200 (payment existing)
  payout_looked_up app_id i (err _) = do app ← find_by_id e app_id; payout_limited app_id i app

  unfoldable pub payout_input : String → CreatePayoutInput → M Response
  payout_input app_id i =
      if is_missing i
      then http_error 400 "app_ref_amount_recipient_phone_operator_country_required"
      else do
        p ← find_payment_by_app_ref_type e app_id i.app_ref type_payout
        payout_looked_up app_id i p

  abbrev pub payout_decoded : String → Option CreatePayoutInput → M Response
  payout_decoded app_id none = http_error 400 "invalid_request"
  payout_decoded app_id (some i) = payout_input app_id i

  -- POST /v1/payouts
  unfoldable pub payout : String → Request → M Response
  payout app_id r = payout_decoded app_id (e.decode_payout (deref r.body))

  -- The console's payout in the form of a client's, under a reference of its own.
  abbrev pub as_input : PayoutAdminParams → String → CreatePayoutInput
  as_input p app_ref = record {
    app_ref = app_ref;
    amount_cfa = p.amount_cfa;
    recipient_phone = p.recipient_phone;
    recipient_operator = p.recipient_operator;
    country = p.country;
    description = p.description;
    callback_url = "";
  }

  abbrev pub admin_payout_sent : Payment → Result Transaction → M (Result Payment)
  admin_payout_sent p (err _) =
      update_payment_status e p.id failed none (some "diarra_payout_failed")
      >> find_payment_by_id e p.id
  admin_payout_sent p (ok tx) = record_status e h p tx >> find_payment_by_id e p.id

  unfoldable pub admin_payout_created : CreatePayoutInput → String → Payment → M (Result Payment)
  admin_payout_created i ref p = do
    tx ← create_payout e h.diarra (payout_request i ref)
    admin_payout_sent p tx

  -- The payout from the console: no limit is looked up.
  unfoldable pub payout_for_admin : PayoutAdminParams → M (Result Payment)
  payout_for_admin p =
      if is_incomplete p
      then pure (err (message "montant, numéro, opérateur et pays requis"))
      else if leb_ℤ (compute p.amount_cfa h.usd_rate).net_cfa (pos 0)
      then pure (err (message "montant trop faible après commission"))
      else do
        name ← abmcy_uuid e
        let i = as_input p ("admin-payout-" ++ slice name 0 8)
        ref ← abmcy_uuid e
        row ←
            create_payout_payment e (payout_params p.app_id i ref) p.recipient_phone
              p.recipient_operator p.country
        on_ok row (admin_payout_created i ref)
