-- ===== src/Ledger/Handlers/Pay.antt =====
-- `Pay` keeps the ledger.
use abmcy_core_payment.Base.{
  String, Bool, true, false, ◌&&◌, Option, none, some, arith, non_empty, deref, if◌then◌else◌,
}
use abmcy_core_payment.Int64.{pos, ◌≤ℤ◌, ltb_ℤ, FitsInt64}
use abmcy_core_payment.Model.{
  App, Payment, CreatePaymentInput, type_deposit, max_amount_for, max_amount_verified, failed,
}
use abmcy_core_payment.World.{World, Env, Result, ok, err, Transaction, ◌>>=◌}
use abmcy_core_payment.World.Keeps.{
  Keeps, Triple-if, Triple-bind, Triple-after, Keeps-bind, Keeps-pure,
}
use abmcy_core_payment.Http.{Request, Response, error}
use abmcy_core_payment.Ledger.Respond.{Keeps-respond}
use abmcy_core_payment.Payments.Handler.{PaymentHandler}
use abmcy_core_payment.Payments.Pay.{
  is_missing, is_open, link_likely_expired, store_link, refresh_deposit_link, answer_existing,
  refreshed_or, pay_existing, payment_params, relinked, answer_created, deposit_request,
  deposit_country, pay_deposited, pay_created, pay_allowed, pay_limited, pay_looked_up, pay_input,
  pay_decoded, pay,
}
use abmcy_core_payment.Ledger.{IsLedger}
use abmcy_core_payment.Ledger.Amounts.{positive_of_test, capped_of_test, compute-IsAccountedAs}
use abmcy_core_payment.Ledger.Reads.{abmcy_uuid-Reads, create_deposit-Reads, find_by_id-Reads}
use abmcy_core_payment.Ledger.Statements.{
  find_payment_by_app_ref-Gives, update_payment_status-Runs, update_payment_redirect-Runs,
  update_diarra_ref_and_redirect-Runs,
}
use abmcy_core_payment.Ledger.Inserts.{create_payment-Gives}

module _ (e : Env) (h : PaymentHandler) where
  store_link-Keeps :
      (p : Payment) (ref : String) (r : Result Transaction)
      → Keeps IsLedger (store_link e h p ref r)
  store_link-Keeps p ref (err x) = Keeps-pure (err x)
  store_link-Keeps p ref (ok tx) =
      Keeps-bind (update_diarra_ref_and_redirect-Runs e p.id ref tx.redirect_url)
        (λ r. Keeps-pure (relinked e h p ref tx.redirect_url r))

  refresh_deposit_link-Keeps :
      (p : Payment) (country : String) → Keeps IsLedger (refresh_deposit_link e h p country)
  unfolding refresh_deposit_link
  refresh_deposit_link-Keeps p country = Triple-after (abmcy_uuid-Reads e) λ ref.
      Triple-after
        (create_deposit-Reads e h.diarra
          (deposit_request e h ref p.amount_cfa (deposit_country p country) (deref p.description)))
        (store_link-Keeps p ref)

  answer_existing-Keeps : (p : Payment) → Keeps IsLedger (answer_existing e h p)
  answer_existing-Keeps p = record { at = λ w l. l }

  answer_created-Keeps :
      (p : Payment) (url : String) (r : Result (Unit {0}))
      → Keeps IsLedger (answer_created e h p url r)
  answer_created-Keeps p url (err x) = record { at = λ w l. l }
  answer_created-Keeps p url (ok u) = record { at = λ w l. l }

  pay_existing-Keeps :
      (p : Payment) (country : String) → Keeps IsLedger (pay_existing e h p country)
  unfolding pay_existing
  pay_existing-Keeps p country = record {
    at = λ w l. by_test w l (is_open p && link_likely_expired (e.now w.tick) p);
  }
    where
      refreshed :
          Keeps IsLedger
            (refresh_deposit_link e h p country >>= λ r. answer_existing e h (refreshed_or e h p r))
      refreshed =
          Triple-bind _ _ (refresh_deposit_link-Keeps p country)
            (λ r. answer_existing-Keeps (refreshed_or e h p r))

      by_test :
          (w : World)
          → IsLedger w.payments
          → (b : Bool)
          → IsLedger
              (let u : Response × World =
                  if b
                  then (refresh_deposit_link e h p country >>= λ r.
                        answer_existing e h (refreshed_or e h p r))
                      w
                  else answer_existing e h p w in
                u).1.payments
      by_test w l true = refreshed.at w l
      by_test w l false = l

  pay_deposited-Keeps :
      (p : Payment) (r : Result Transaction) → Keeps IsLedger (pay_deposited e h p r)
  pay_deposited-Keeps p (err x) =
      Keeps-bind (update_payment_status-Runs e p.id failed none (some "diarra_init_failed"))
        (λ _. Keeps-respond 502 (error "payment_init_failed"))
  pay_deposited-Keeps p (ok tx) =
      Keeps-bind (update_payment_redirect-Runs e p.id tx.redirect_url)
        (answer_created-Keeps p tx.redirect_url)

  pay_created-Keeps :
      (i : CreatePaymentInput) (ref : String) (r : Result Payment)
      → Keeps IsLedger (pay_created e h i ref r)
  unfolding pay_created
  pay_created-Keeps i ref (err x) = Keeps-pure _
  pay_created-Keeps i ref (ok p) =
      Triple-after
        (create_deposit-Reads e h.diarra
          (deposit_request e h ref i.amount_cfa i.country i.description))
        (pay_deposited-Keeps p)

  module _ (rate : FitsInt64 h.usd_rate) (app_id : String) (i : CreatePaymentInput) where
    pay_allowed-Keeps :
        pos 1 ≤ℤ i.amount_cfa
        → i.amount_cfa ≤ℤ max_amount_verified
        → Keeps IsLedger (pay_allowed e h app_id i)
    unfolding pay_allowed
    pay_allowed-Keeps positive capped = Triple-after (abmcy_uuid-Reads e) λ ref.
        Keeps-bind
          (create_payment-Gives e (payment_params e h app_id i ref) (non_empty i.return_url) (
            compute-IsAccountedAs type_deposit i.amount_cfa h.usd_rate positive (λ _. capped) rate
              _))
          (pay_created-Keeps i ref)

    pay_limited-Keeps :
        pos 1 ≤ℤ i.amount_cfa → (r : Result App) → Keeps IsLedger (pay_limited e h app_id i r)
    unfolding pay_limited
    pay_limited-Keeps positive (err x) = Keeps-pure _
    pay_limited-Keeps positive (ok app) =
        Triple-if (ltb_ℤ (max_amount_for app.kyc_level) i.amount_cfa) (λ _. Keeps-pure _)
          λ within. pay_allowed-Keeps positive (capped_of_test i.amount_cfa app.kyc_level within)

    pay_looked_up-Keeps :
        pos 1 ≤ℤ i.amount_cfa → (r : Result Payment) → Keeps IsLedger (pay_looked_up e h app_id i r)
    unfolding pay_looked_up
    pay_looked_up-Keeps positive (ok p) = pay_existing-Keeps p i.country
    pay_looked_up-Keeps positive (err x) =
        Triple-after (find_by_id-Reads e app_id) (pay_limited-Keeps positive)

    pub pay_input-Keeps : Keeps IsLedger (pay_input e h app_id i)
    unfolding pay_input
    pay_input-Keeps =
        Triple-if (is_missing i) (λ _. Keeps-pure _)
          λ given.
            Keeps-bind (find_payment_by_app_ref-Gives e app_id i.app_ref)
              (pay_looked_up-Keeps (positive_of_test i.amount_cfa (ground arith)))

  pay_decoded-Keeps :
      FitsInt64 h.usd_rate
      → (app_id : String) (o : Option CreatePaymentInput)
      → Keeps IsLedger (pay_decoded e h app_id o)
  pay_decoded-Keeps rate app_id none = Keeps-respond 400 (error "invalid_request")
  pay_decoded-Keeps rate app_id (some i) = pay_input-Keeps rate app_id i

  pub pay-Keeps :
      FitsInt64 h.usd_rate → (app_id : String) (r : Request) → Keeps IsLedger (pay e h app_id r)
  unfolding pay
  pay-Keeps rate app_id r = pay_decoded-Keeps rate app_id (e.decode_payment (deref r.body))
