-- ===== src/Ledger/Handlers/Payout.antt =====
-- `Payout` and `PayoutForAdmin` keep the ledger.
use Prim.Native.String.{◌++◌, slice}
use abmcy_core_payment.Base.{String, Option, none, some, ◌≡◌, refl, arith, deref}
use abmcy_core_payment.Int64.{pos, ◌≤ℤ◌, leb_ℤ, ltb_ℤ, FitsInt64}
use abmcy_core_payment.Fees.{compute}
use abmcy_core_payment.Model.{App, Payment, CreatePayoutInput, type_payout, max_amount_for, failed}
use abmcy_core_payment.World.{Env, Result, ok, err, Transaction, PayoutAdminParams, on_ok}
use abmcy_core_payment.World.Keeps.{
  Triple, Keeps, Triple-if, Triple-bind, Triple-after, Keeps-bind, Keeps-pure, Ends-Keeps,
}
use abmcy_core_payment.Http.{Request, error, payment}
use abmcy_core_payment.Repo.Payments.{create_payout_payment}
use abmcy_core_payment.Payments.Handler.{PaymentHandler}
use abmcy_core_payment.Payments.Refund.{with_status}
use abmcy_core_payment.Payments.Payout.{
  is_missing, is_incomplete, payout_params, payout_request, payout_sent, payout_created,
  payout_allowed, payout_limited, payout_looked_up, payout_input, payout_decoded, payout, as_input,
  admin_payout_sent, admin_payout_created, payout_for_admin,
}
use abmcy_core_payment.Ledger.{IsLedger}
use abmcy_core_payment.Ledger.Amounts.{positive_of_test, compute-IsAccountedAs}
use abmcy_core_payment.Ledger.Reads.{abmcy_uuid-Reads, create_payout-Reads, find_by_id-Reads}
use abmcy_core_payment.Ledger.Respond.{Keeps-respond}
use abmcy_core_payment.Ledger.Statements.{
  Gives, find_payment_by_app_ref_type-Gives, find_payment_by_id-Gives, update_payment_status-Runs,
}
use abmcy_core_payment.Ledger.Inserts.{create_payout_payment-Gives}
use abmcy_core_payment.Ledger.Handlers.Refund.{record_status-Keeps}

module _ (e : Env) (h : PaymentHandler) where
  payout_sent-Keeps : (p : Payment) (r : Result Transaction) → Keeps IsLedger (payout_sent e h p r)
  payout_sent-Keeps p (err x) =
      Keeps-bind (update_payment_status-Runs e p.id failed none (some "diarra_payout_failed"))
        (λ _. Keeps-respond 502 (error "payout_init_failed"))
  payout_sent-Keeps p (ok tx) =
      Triple-bind _ _ (record_status-Keeps e h p tx)
        (λ _. Keeps-respond 201 (payment (with_status e h p tx)))

  payout_created-Keeps :
      (i : CreatePayoutInput) (ref : String) (r : Result Payment)
      → Keeps IsLedger (payout_created e h i ref r)
  unfolding payout_created
  payout_created-Keeps i ref (err x) = Keeps-respond 500 (error "payout_creation_failed")
  payout_created-Keeps i ref (ok p) =
      Triple-after (create_payout-Reads e h.diarra (payout_request e h i ref)) (payout_sent-Keeps p)

  admin_payout_sent-Keeps :
      (p : Payment) (r : Result Transaction) → Keeps IsLedger (admin_payout_sent e h p r)
  admin_payout_sent-Keeps p (err x) =
      Keeps-bind (update_payment_status-Runs e p.id failed none (some "diarra_payout_failed"))
        (λ _. Ends-Keeps (find_payment_by_id-Gives e p.id))
  admin_payout_sent-Keeps p (ok tx) =
      Triple-bind _ _ (record_status-Keeps e h p tx)
        (λ _. Ends-Keeps (find_payment_by_id-Gives e p.id))

  on_ok-Keeps :
      (i : CreatePayoutInput) (ref : String) (r : Result Payment)
      → Keeps IsLedger (on_ok r (admin_payout_created e h i ref))
  unfolding admin_payout_created
  on_ok-Keeps i ref (err x) = Keeps-pure (err x)
  on_ok-Keeps i ref (ok p) =
      Triple-after (create_payout-Reads e h.diarra (payout_request e h i ref))
        (admin_payout_sent-Keeps p)

  module _ (rate : FitsInt64 h.usd_rate) where
    -- A payout of any positive amount is accounted, if the columns hold it.
    payout_row-Gives :
        (app_id : String) (i : CreatePayoutInput) (ref : String)
        → pos 1 ≤ℤ i.amount_cfa
        → Triple IsLedger
            (create_payout_payment e
              (payout_params e h app_id i ref)
              i.recipient_phone
              i.recipient_operator
              i.country)
            (Gives (λ q.
              (q.kind ≡ type_payout) × (q.net_cfa ≡ some (payout_params e h app_id i ref).net_cfa)))
    payout_row-Gives app_id i ref positive =
        create_payout_payment-Gives e (payout_params e h app_id i ref) i.recipient_phone
          i.recipient_operator i.country
          (compute-IsAccountedAs type_payout i.amount_cfa h.usd_rate positive
            (λ other. absurd (other refl)) rate _)

    payout_allowed-Keeps :
        (app_id : String) (i : CreatePayoutInput)
        → pos 1 ≤ℤ i.amount_cfa
        → Keeps IsLedger (payout_allowed e h app_id i)
    unfolding payout_allowed
    payout_allowed-Keeps app_id i positive =
        Triple-if (leb_ℤ (compute i.amount_cfa h.usd_rate).net_cfa (pos 0))
          (λ _. Keeps-respond 422 (error "amount_too_small_after_fee"))
          λ _.
            Triple-after (abmcy_uuid-Reads e) λ ref.
              Keeps-bind (payout_row-Gives app_id i ref positive) (payout_created-Keeps i ref)

    payout_limited-Keeps :
        (app_id : String) (i : CreatePayoutInput)
        → pos 1 ≤ℤ i.amount_cfa
        → (r : Result App) → Keeps IsLedger (payout_limited e h app_id i r)
    unfolding payout_limited
    payout_limited-Keeps app_id i positive (err x) = Keeps-respond 500 (error "app_lookup_failed")
    payout_limited-Keeps app_id i positive (ok app) =
        Triple-if (ltb_ℤ (max_amount_for app.kyc_level) i.amount_cfa)
          (λ _. record { at = λ w l. l }) λ _. payout_allowed-Keeps app_id i positive

    payout_looked_up-Keeps :
        (app_id : String) (i : CreatePayoutInput)
        → pos 1 ≤ℤ i.amount_cfa
        → (r : Result Payment) → Keeps IsLedger (payout_looked_up e h app_id i r)
    unfolding payout_looked_up
    payout_looked_up-Keeps app_id i positive (ok p) = Keeps-respond 200 (payment p)
    payout_looked_up-Keeps app_id i positive (err x) =
        Triple-after (find_by_id-Reads e app_id) (payout_limited-Keeps app_id i positive)

    payout_input-Keeps :
        (app_id : String) (i : CreatePayoutInput) → Keeps IsLedger (payout_input e h app_id i)
    unfolding payout_input
    payout_input-Keeps app_id i =
        Triple-if (is_missing i)
          (λ _.
            Keeps-respond 400 (error "app_ref_amount_recipient_phone_operator_country_required"))
          λ given.
            Keeps-bind (find_payment_by_app_ref_type-Gives e app_id i.app_ref type_payout)
              (payout_looked_up-Keeps app_id i (positive_of_test i.amount_cfa (ground arith)))

    payout_decoded-Keeps :
        (app_id : String) (o : Option CreatePayoutInput)
        → Keeps IsLedger (payout_decoded e h app_id o)
    payout_decoded-Keeps app_id none = Keeps-respond 400 (error "invalid_request")
    payout_decoded-Keeps app_id (some i) = payout_input-Keeps app_id i

    pub payout-Keeps : (app_id : String) (r : Request) → Keeps IsLedger (payout e h app_id r)
    unfolding payout
    payout-Keeps app_id r = payout_decoded-Keeps app_id (e.decode_payout (deref r.body))

    pub payout_for_admin-Keeps : (p : PayoutAdminParams) → Keeps IsLedger (payout_for_admin e h p)
    unfolding payout_for_admin
    payout_for_admin-Keeps p =
        Triple-if (is_incomplete p) (λ _. record { at = λ w l. l })
          λ given.
            Triple-if (leb_ℤ (compute p.amount_cfa h.usd_rate).net_cfa (pos 0))
              (λ _. record { at = λ w l. l })
              λ _. Triple-after (abmcy_uuid-Reads e) λ name.
                Triple-after (abmcy_uuid-Reads e) λ ref.
                  let i = as_input e h p ("admin-payout-" ++ slice name 0 8) in
                  Keeps-bind
                    (payout_row-Gives p.app_id i ref (positive_of_test p.amount_cfa (ground arith)))
                    (on_ok-Keeps i ref)
