-- ===== src/Payments/Refusals.antt =====
-- A refund is begun only for a deposit that was paid.
use abmcy_core_payment.Base.{
  ◌+◌, String, false, ◌&&◌, none, some, ◌≡◌, ◌≢◌, arith, ◌==◌, find, deref,
}
use abmcy_core_payment.Model.{Payment, CreateRefundInput, type_deposit, type_refund, completed}
use abmcy_core_payment.World.{World, Env, fine, statement}
use abmcy_core_payment.Http.{Request, not_refundable}
use abmcy_core_payment.Repo.Payments.{find_payment_by_app_ref, find_payment_by_app_ref_type}
use abmcy_core_payment.Payments.Handler.{PaymentHandler}
use abmcy_core_payment.Payments.Refund.{
  refund_ref_of, refund, refund_input, refund_looked_up, refund_deposit_found,
}

module _ (e : Env) (h : PaymentHandler) where
  -- A refund under a new reference, of a deposit that is not completed, is answered 422 with the
  -- status of the deposit; no row is made and nothing is sent to the gateway, where the two reads run.
  pub refund_unpaid :
      (app_id : String) (r : Request) (i : CreateRefundInput) (d : Payment) (w : World)
      → e.decode_refund (deref r.body) ≡ some i
      → i.deposit_app_ref ≢ ""
      → e.fault w.tick ≡ fine
      → e.fault (w.tick + 1) ≡ fine
      → find
          (λ (q : Payment).
            q.app_id == app_id && (q.app_ref == refund_ref_of i && q.kind == type_refund))
          w.payments
        ≡ none
      → find
          (λ (q : Payment).
            q.app_id == app_id && (q.app_ref == i.deposit_app_ref && q.kind == type_deposit))
          w.payments
        ≡ some d
      → d.status ≢ completed
      → refund e h app_id r w ≡ (
        record { status = 422; body = not_refundable d.status },
        record w { tick = w.tick + 1 + 1 },
      )
  unfolding refund refund_input refund_looked_up refund_deposit_found find_payment_by_app_ref
      find_payment_by_app_ref_type statement
  refund_unpaid app_id r i d w decoded given first second absent found unpaid =
      let named : (i.deposit_app_ref == "") ≡ false = ground arith in
      let open' : (d.status == completed) ≡ false = ground arith in
      rw (decoded, named, first, absent, second, found, open')
