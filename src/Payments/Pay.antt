-- ===== src/Payments/Pay.antt =====
-- Pay, linkLikelyExpired and refreshDepositLink of payment_handler.go.
use Prim.Native.String.{◌++◌}
use abmcy_core_payment.Base.{
  ℕ, ◌*◌, ◌-◌, ◌^◌, String, Bool, true, ◌&&◌, ◌||◌, Option, none, some, ◌==◌, deref, non_empty, ltb,
  if◌then◌else◌,
}
use abmcy_core_payment.Int64.{ℤ, pos, ltb_ℤ, leb_ℤ}
use abmcy_core_payment.Fees.{compute}
use abmcy_core_payment.Gateway.{create_deposit}
use abmcy_core_payment.Model.{
  App, Payment, CreatePaymentInput, pending, processing, failed, kyc_none, max_amount_for,
}
use abmcy_core_payment.World.{
  Env, Result, ok, err, Transaction, DepositRequest, M, pure, ◌>>=◌, ◌>>◌,
}
use abmcy_core_payment.Http.{
  Request, Response, payment_with_hosted, limit_exceeded, respond, http_error,
}
use abmcy_core_payment.Repo.Apps.{find_by_id}
use abmcy_core_payment.Repo.Payments.{
  PaymentParams, find_payment_by_app_ref, create_payment, update_payment_status,
  update_payment_redirect, update_diarra_ref_and_redirect,
}
use abmcy_core_payment.Uuid.{abmcy_uuid}
use abmcy_core_payment.Payments.Handler.{PaymentHandler, hosted_pay_url}

-- writePaymentWithHosted: no hosted_pay_url where it is empty.
abbrev pub with_hosted : ℕ → Payment → String → M Response
with_hosted status p url = respond status (payment_with_hosted p (non_empty url))

-- 23 hours, in nanoseconds
abbrev pub link_age : ℕ
link_age = 23 * 3600 * 10 ^ 9

unfoldable pub link_likely_expired : ℕ → Payment → Bool
link_likely_expired now p =
    if deref p.redirect_url == "" then true else ltb link_age (now - p.created_at)

unfoldable pub is_open : Payment → Bool
is_open p = p.status == pending || p.status == processing

-- `country` of refreshDepositLink
unfoldable pub deposit_country : Payment → String → String
deposit_country p country =
    if country == "" then elim p.country [ none ↦ "SEN" | some c ↦ c ] else country

abbrev pub is_missing : CreatePaymentInput → Bool
is_missing i = i.app_ref == "" || (leb_ℤ i.amount_cfa (pos 0) || i.country == "")

module _ (e : Env) (h : PaymentHandler) where
  abbrev pub deposit_request : String → ℤ → String → String → DepositRequest
  deposit_request ref amount country description = record {
    client_ref = ref;
    amount_cfa = amount;
    country = country;
    description = description;
    callback_url = h.self_callback_url;
    return_url = hosted_pay_url h ref ++ "?done";
  }

  abbrev pub relinked : Payment → String → String → Result (Unit {0}) → Result Payment
  relinked p ref url (ok _) = ok (record p { diarra_client_ref = ref; redirect_url = some url })
  relinked p ref url (err x) = err x

  abbrev pub store_link : Payment → String → Result Transaction → M (Result Payment)
  store_link p ref (err x) = pure (err x)
  store_link p ref (ok tx) = do
    r ← update_diarra_ref_and_redirect e p.id ref tx.redirect_url
    pure (relinked p ref tx.redirect_url r)

  -- A new deposit at the gateway for a payment whose link has expired.
  unfoldable pub refresh_deposit_link : Payment → String → M (Result Payment)
  refresh_deposit_link p country = do
    ref ← abmcy_uuid e
    tx ←
        create_deposit e h.diarra
          (deposit_request ref p.amount_cfa (deposit_country p country) (deref p.description))
    store_link p ref tx

  abbrev pub refreshed_or : Payment → Result Payment → Payment
  refreshed_or p (ok q) = q
  refreshed_or p (err _) = p

  abbrev pub answer_existing : Payment → M Response
  answer_existing p = with_hosted 200 p (hosted_pay_url h p.diarra_client_ref)

  -- The app_ref is in use: the same payment, with a new link if it is open and its link is old.
  unfoldable pub pay_existing : Payment → String → M Response
  pay_existing p country w =
      if is_open p && link_likely_expired (e.now w.tick) p
      then (do r ← refresh_deposit_link p country; answer_existing (refreshed_or p r)) w
      else answer_existing p w

  abbrev pub payment_params : String → CreatePaymentInput → String → PaymentParams
  payment_params app_id i ref =
      let fee = compute i.amount_cfa h.usd_rate in
      record {
        app_id = app_id;
        app_ref = i.app_ref;
        diarra_client_ref = ref;
        amount_cfa = i.amount_cfa;
        fee_cfa = fee.fee_cfa;
        net_cfa = fee.net_cfa;
        usd_rate_used = fee.usd_rate_used;
        currency = "XOF";
        description = non_empty i.description;
        callback_url = non_empty i.callback_url;
      }

  abbrev pub answer_created : Payment → String → Result (Unit {0}) → M Response
  answer_created p url (err _) = http_error 500 "payment_update_failed"
  answer_created p url (ok _) =
      with_hosted 201 (record p { redirect_url = some url }) (hosted_pay_url h p.diarra_client_ref)

  abbrev pub pay_deposited : Payment → Result Transaction → M Response
  pay_deposited p (err _) =
      update_payment_status e p.id failed none (some "diarra_init_failed")
      >> http_error 502 "payment_init_failed"
  pay_deposited p (ok tx) = do
    r ← update_payment_redirect e p.id tx.redirect_url
    answer_created p tx.redirect_url r

  -- The deposit goes out under the reference that was made here, `ref`.
  unfoldable pub pay_created : CreatePaymentInput → String → Result Payment → M Response
  pay_created i ref (err _) = http_error 500 "payment_creation_failed"
  pay_created i ref (ok p) = do
    tx ← create_deposit e h.diarra (deposit_request ref i.amount_cfa i.country i.description)
    pay_deposited p tx

  unfoldable pub pay_allowed : String → CreatePaymentInput → M Response
  pay_allowed app_id i = do
    ref ← abmcy_uuid e
    p ← create_payment e (payment_params app_id i ref) (non_empty i.return_url)
    pay_created i ref p

  unfoldable pub pay_limited : String → CreatePaymentInput → Result App → M Response
  pay_limited app_id i (err _) = http_error 500 "app_lookup_failed"
  pay_limited app_id i (ok app) =
      let max = max_amount_for app.kyc_level in
      if ltb_ℤ max i.amount_cfa
      then respond 422 (
          limit_exceeded (record {
            max_cfa = max;
            kyc_level = some app.kyc_level;
            kyc_required = app.kyc_level == kyc_none;
          }))
      else pay_allowed app_id i

  -- Any error of the lookup counts as "not found".
  unfoldable pub pay_looked_up : String → CreatePaymentInput → Result Payment → M Response
  pay_looked_up app_id i (ok p) = pay_existing p i.country
  pay_looked_up app_id i (err _) = do app ← find_by_id e app_id; pay_limited app_id i app

  unfoldable pub pay_input : String → CreatePaymentInput → M Response
  pay_input app_id i =
      if is_missing i
      then http_error 400 "app_ref_amount_country_required"
      else (do p ← find_payment_by_app_ref e app_id i.app_ref; pay_looked_up app_id i p)

  abbrev pub pay_decoded : String → Option CreatePaymentInput → M Response
  pay_decoded app_id none = http_error 400 "invalid_request"
  pay_decoded app_id (some i) = pay_input app_id i

  -- POST /v1/pay
  unfoldable pub pay : String → Request → M Response
  pay app_id r = pay_decoded app_id (e.decode_payment (deref r.body))
