-- ===== src/Payments/Refund.antt =====
-- Refund and RefundDeposit of payment_handler.go.
use Prim.Native.String.{◌++◌}
use abmcy_core_payment.Base.{String, not, Option, none, some, ◌==◌, deref, non_empty, if◌then◌else◌}
use abmcy_core_payment.Fees.{compute}
use abmcy_core_payment.Gateway.{create_refund}
use abmcy_core_payment.Model.{
  Payment, CreateRefundInput, completed, failed, type_deposit, type_refund,
}
use abmcy_core_payment.World.{
  Env, Result, ok, err, message, Transaction, RefundRequest, M, pure, ◌>>=◌, ◌>>◌, on_ok,
}
use abmcy_core_payment.Http.{Request, Response, payment, not_refundable, respond, http_error}
use abmcy_core_payment.Repo.Payments.{
  PaymentParams, find_payment_by_app_ref, find_payment_by_app_ref_type, find_payment_by_id,
  create_refund_payment, update_payment_status,
}
use abmcy_core_payment.Uuid.{abmcy_uuid}
use abmcy_core_payment.Payments.Handler.{PaymentHandler, normalize_status}

-- The default reference of a refund.
abbrev pub refund_ref_of : CreateRefundInput → String
refund_ref_of i =
    if i.refund_app_ref == "" then "refund-" ++ i.deposit_app_ref else i.refund_app_ref

module _ (e : Env) (h : PaymentHandler) where
  -- The whole amount is refunded, and a commission is taken again.
  abbrev pub refund_params : Payment → String → String → Option String → String → PaymentParams
  refund_params deposit refund_ref description callback_url ref =
      let fee = compute deposit.amount_cfa h.usd_rate in
      record {
        app_id = deposit.app_id;
        app_ref = refund_ref;
        diarra_client_ref = ref;
        amount_cfa = deposit.amount_cfa;
        fee_cfa = fee.fee_cfa;
        net_cfa = fee.net_cfa;
        usd_rate_used = fee.usd_rate_used;
        currency = deposit.currency;
        description = some description;
        callback_url = callback_url;
      }

  -- The gateway is given the reference under which the deposit is stored.
  abbrev pub refund_request : String → Payment → RefundRequest
  refund_request ref deposit = record {
    client_ref = ref;
    deposit_client_ref = deposit.diarra_client_ref;
    callback_url = h.self_callback_url;
  }

  -- `if tx.Status != "" { _ = UpdatePaymentStatus(…) }`: the error is dropped.
  unfoldable pub record_status : Payment → Transaction → M (Unit {0})
  record_status p tx =
      if tx.status == ""
      then pure tt
      else update_payment_status e p.id (normalize_status tx.status) (non_empty tx.provider) none
        >> pure tt

  abbrev pub with_status : Payment → Transaction → Payment
  with_status p tx = if tx.status == "" then p else record p { status = normalize_status tx.status }

  abbrev pub refund_sent : Payment → Result Transaction → M Response
  refund_sent p (err _) =
      update_payment_status e p.id failed none (some "diarra_refund_failed")
      >> http_error 502 "refund_init_failed"
  refund_sent p (ok tx) = record_status p tx >> respond 201 (payment (with_status p tx))

  unfoldable pub refund_created : Payment → String → Result Payment → M Response
  refund_created deposit ref (err _) = http_error 500 "refund_creation_failed"
  refund_created deposit ref (ok p) = do
    tx ← create_refund e h.diarra (refund_request ref deposit)
    refund_sent p tx

  -- In `Refund` the row takes the app of the caller, which is that of the deposit found.
  unfoldable pub refund_deposit_found : String → CreateRefundInput → Result Payment → M Response
  refund_deposit_found app_id i (err _) = http_error 404 "deposit_not_found"
  refund_deposit_found app_id i (ok deposit) =
      if not (deposit.status == completed) then respond 422 (not_refundable deposit.status) else do
        ref ← abmcy_uuid e
        p ←
            create_refund_payment e
              (record (refund_params deposit (refund_ref_of i)
                ("Remboursement de " ++ i.deposit_app_ref) (non_empty i.callback_url) ref) {
                  app_id = app_id;
                })
              deposit.id
        refund_created deposit ref p

  unfoldable pub refund_looked_up : String → CreateRefundInput → Result Payment → M Response
  refund_looked_up app_id i (ok existing) = respond 200 (payment existing)
  refund_looked_up app_id i (err _) = do
    d ← find_payment_by_app_ref e app_id i.deposit_app_ref
    refund_deposit_found app_id i d

  unfoldable pub refund_input : String → CreateRefundInput → M Response
  refund_input app_id i =
      if i.deposit_app_ref == "" then http_error 400 "deposit_app_ref_required" else do
        p ← find_payment_by_app_ref_type e app_id (refund_ref_of i) type_refund
        refund_looked_up app_id i p

  abbrev pub refund_decoded : String → Option CreateRefundInput → M Response
  refund_decoded app_id none = http_error 400 "invalid_request"
  refund_decoded app_id (some i) = refund_input app_id i

  -- POST /v1/refunds
  unfoldable pub refund : String → Request → M Response
  refund app_id r = refund_decoded app_id (e.decode_refund (deref r.body))

  abbrev pub admin_refund_sent : Payment → Result Transaction → M (Result Payment)
  admin_refund_sent p (err _) =
      update_payment_status e p.id failed none (some "diarra_refund_failed")
      >> find_payment_by_id e p.id
  admin_refund_sent p (ok tx) = record_status p tx >> find_payment_by_id e p.id

  unfoldable pub admin_refund_created : Payment → String → Payment → M (Result Payment)
  admin_refund_created deposit ref p = do
    tx ← create_refund e h.diarra (refund_request ref deposit)
    admin_refund_sent p tx

  unfoldable pub admin_refund_looked_up : Payment → Result Payment → M (Result Payment)
  admin_refund_looked_up deposit (ok existing) = pure (ok existing)
  admin_refund_looked_up deposit (err _) = do
    ref ← abmcy_uuid e
    p ←
        create_refund_payment e
          (refund_params deposit ("refund-" ++ deposit.app_ref)
            ("Remboursement de " ++ deposit.app_ref) none ref)
          deposit.id
    on_ok p (admin_refund_created deposit ref)

  -- The refund from the console.
  unfoldable pub refund_deposit : Payment → M (Result Payment)
  refund_deposit deposit =
      if not (deposit.kind == type_deposit)
      then pure (err (message "seul un dépôt peut être remboursé"))
      else if not (deposit.status == completed)
      then pure (err (message ("dépôt non remboursable (statut " ++ deposit.status ++ ")")))
      else do
        p ← find_payment_by_app_ref_type e deposit.app_id ("refund-" ++ deposit.app_ref) type_refund
        admin_refund_looked_up deposit p
