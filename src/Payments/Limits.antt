-- ===== src/Payments/Limits.antt =====
-- No deposit and no payout of a client is begun above the limit of its app.
use abmcy_core_payment.Base.{
  ◌+◌, String, true, false, ◌&&◌, none, some, ◌≡◌, arith, ◌==◌, find, deref,
}
use abmcy_core_payment.Int64.{ltb_ℤ, ◌<ℤ◌}
use abmcy_core_payment.Model.{
  App, Payment, CreatePaymentInput, CreatePayoutInput, type_deposit, type_payout, kyc_none,
  max_amount_for,
}
use abmcy_core_payment.World.{World, Env, fine, statement}
use abmcy_core_payment.Http.{Request, limit_exceeded}
use abmcy_core_payment.Repo.Apps.{find_by_id}
use abmcy_core_payment.Repo.Payments.{find_payment_by_app_ref, find_payment_by_app_ref_type}
use abmcy_core_payment.Payments.Handler.{PaymentHandler}
use abmcy_core_payment.Payments.Pay.{is_missing, pay, pay_input, pay_looked_up, pay_limited}
use abmcy_core_payment.Payments.Payout.{
  is_missing as is_missing_payout, payout, payout_input, payout_looked_up, payout_limited,
}

module _ (e : Env) (h : PaymentHandler) (app_id : String) (r : Request) (app : App)
    (w : World) where
  -- The app of the request is there, and both reads run.
  pub record IsKnown : Type 0 where
    pub first : e.fault w.tick ≡ fine
    pub second : e.fault (w.tick + 1) ≡ fine
    pub found : find (λ (a : App). a.id == app_id) w.apps ≡ some app

  -- A deposit under a new app_ref and above the limit of the app's KYC level is refused with 422 and
  -- that limit; no row is made and nothing is sent to the gateway, where the two
  -- reads run.
  pub pay_over :
      (i : CreatePaymentInput)
      → IsKnown
      → e.decode_payment (deref r.body) ≡ some i
      → is_missing i ≡ false
      → find
          (λ (q : Payment).
            q.app_id == app_id && (q.app_ref == i.app_ref && q.kind == type_deposit))
          w.payments
        ≡ none
      → max_amount_for app.kyc_level <ℤ i.amount_cfa
      → pay e h app_id r w ≡ (
        record {
          status = 422;
          body = limit_exceeded (record {
            max_cfa = max_amount_for app.kyc_level;
            kyc_level = some app.kyc_level;
            kyc_required = app.kyc_level == kyc_none;
          });
        },
        record w { tick = w.tick + 1 + 1 },
      )
  unfolding pay pay_input pay_looked_up pay_limited find_payment_by_app_ref
      find_payment_by_app_ref_type find_by_id statement
  pay_over i k decoded given absent over =
      let over' : ltb_ℤ (max_amount_for app.kyc_level) i.amount_cfa ≡ true = ground arith in
      rw (decoded, given, k.first, absent, k.second, k.found, over')

  -- A payout under a new app_ref and above the limit of the app's KYC level is refused with 422 and
  -- that limit; no row is made and nothing is sent to the gateway, where the two
  -- reads run.
  pub payout_over :
      (i : CreatePayoutInput)
      → IsKnown
      → e.decode_payout (deref r.body) ≡ some i
      → is_missing_payout i ≡ false
      → find
          (λ (q : Payment). q.app_id == app_id && (q.app_ref == i.app_ref && q.kind == type_payout))
          w.payments
        ≡ none
      → max_amount_for app.kyc_level <ℤ i.amount_cfa
      → payout e h app_id r w ≡ (
        record {
          status = 422;
          body = limit_exceeded (record {
            max_cfa = max_amount_for app.kyc_level;
            kyc_level = none;
            kyc_required = app.kyc_level == kyc_none;
          });
        },
        record w { tick = w.tick + 1 + 1 },
      )
  unfolding payout payout_input payout_looked_up payout_limited find_payment_by_app_ref_type
      find_by_id statement
  payout_over i k decoded given absent over =
      let over' : ltb_ℤ (max_amount_for app.kyc_level) i.amount_cfa ≡ true = ground arith in
      rw (decoded, given, k.first, absent, k.second, k.found, over')
