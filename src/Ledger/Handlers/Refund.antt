-- ===== src/Ledger/Handlers/Refund.antt =====
-- `Refund` and `RefundDeposit` keep the ledger: each refund row points at a deposit of the same
-- app and has its amount.
use Prim.Native.String.{◌++◌}
use abmcy_core_payment.Base.{
  String, not, Option, none, some, List, ◌≡◌, ◌≢◌, refl, arith, ◌==◌, In, All-In, non_empty, deref,
}
use abmcy_core_payment.Int64.{FitsInt64}
use abmcy_core_payment.Model.{
  Payment, CreateRefundInput, type_deposit, type_payout, type_refund, completed, failed,
}
use abmcy_core_payment.World.{Env, Result, ok, err, Transaction, on_ok}
use abmcy_core_payment.World.Keeps.{
  Triple, Keeps, Triple-if, Triple-bind, Triple-after, Triple-assume, Triple-weaken, Keeps-bind,
  Keeps-pure, Ends-Keeps,
}
use abmcy_core_payment.Http.{Request, error, payment, not_refundable}
use abmcy_core_payment.Repo.Payments.{create_refund_payment}
use abmcy_core_payment.Payments.Handler.{PaymentHandler, normalize_status}
use abmcy_core_payment.Payments.Refund.{
  refund_ref_of, refund_params, refund_request, record_status, with_status, refund_sent,
  refund_created, refund_deposit_found, refund_looked_up, refund_input, refund_decoded, refund,
  admin_refund_sent, admin_refund_created, admin_refund_looked_up, refund_deposit,
}
use abmcy_core_payment.Ledger.{IsAccounted, IsLedger}
use abmcy_core_payment.Ledger.Amounts.{compute-IsAccountedAs}
use abmcy_core_payment.Ledger.Reads.{
  abmcy_uuid-Reads, create_refund-Reads, find_payment_by_app_ref_type-Reads,
}
use abmcy_core_payment.Ledger.Respond.{Keeps-respond}
use abmcy_core_payment.Ledger.Statements.{
  Gives, HasKey, find_payment_by_app_ref-Gives, find_payment_by_app_ref_type-Gives,
  find_payment_by_id-Gives, update_payment_status-Runs,
}
use abmcy_core_payment.Ledger.Inserts.{
  AccountedParams, create_refund_payment-Gives, deposit-ne-payout,
}

-- A row of the table that is a deposit, in a ledger.
abbrev pub HasDeposit : Payment → List Payment → Type 0
HasDeposit d ps = IsLedger ps × In d ps

kind-ne-payout : (d : Payment) → d.kind ≡ type_deposit → d.kind ≢ type_payout
kind-ne-payout d h = rw h deposit-ne-payout

module _ (e : Env) (h : PaymentHandler) where
  pub record_status-Keeps :
      (p : Payment) (tx : Transaction) → Keeps IsLedger (record_status e h p tx)
  unfolding record_status
  record_status-Keeps p tx =
      Triple-if (tx.status == "") (λ _. Keeps-pure tt)
        λ _.
          Keeps-bind
            (update_payment_status-Runs e p.id (normalize_status tx.status) (non_empty tx.provider)
              none)
            (λ _. Keeps-pure tt)

  refund_sent-Keeps : (p : Payment) (r : Result Transaction) → Keeps IsLedger (refund_sent e h p r)
  refund_sent-Keeps p (err x) =
      Keeps-bind (update_payment_status-Runs e p.id failed none (some "diarra_refund_failed"))
        (λ _. Keeps-respond 502 (error "refund_init_failed"))
  refund_sent-Keeps p (ok tx) =
      Triple-bind _ _ (record_status-Keeps p tx)
        (λ _. Keeps-respond 201 (payment (with_status e h p tx)))

  refund_created-Keeps :
      (d : Payment) (ref : String) (r : Result Payment)
      → Keeps IsLedger (refund_created e h d ref r)
  unfolding refund_created
  refund_created-Keeps d ref (err x) = Keeps-respond 500 (error "refund_creation_failed")
  refund_created-Keeps d ref (ok p) =
      Triple-after (create_refund-Reads e h.diarra (refund_request e h ref d)) (refund_sent-Keeps p)

  admin_refund_sent-Keeps :
      (p : Payment) (r : Result Transaction) → Keeps IsLedger (admin_refund_sent e h p r)
  admin_refund_sent-Keeps p (err x) =
      Keeps-bind (update_payment_status-Runs e p.id failed none (some "diarra_refund_failed"))
        (λ _. Ends-Keeps (find_payment_by_id-Gives e p.id))
  admin_refund_sent-Keeps p (ok tx) =
      Triple-bind _ _ (record_status-Keeps p tx) (λ _. Ends-Keeps (find_payment_by_id-Gives e p.id))

  on_ok-Keeps :
      (d : Payment) (ref : String) (r : Result Payment)
      → Keeps IsLedger (on_ok r (admin_refund_created e h d ref))
  unfolding admin_refund_created
  on_ok-Keeps d ref (err x) = Keeps-pure (err x)
  on_ok-Keeps d ref (ok p) =
      Triple-after (create_refund-Reads e h.diarra (refund_request e h ref d))
        (admin_refund_sent-Keeps p)

  module _ (rate : FitsInt64 h.usd_rate) (d : Payment) (deposit : d.kind ≡ type_deposit) where
    -- The whole amount of a deposit of the ledger is accounted for a refund.
    refund_params-Accounted :
        (refund_ref text : String) (callback : Option String) (ref app_id : String)
        → IsAccounted d
        → AccountedParams type_refund
            (record (refund_params e h d refund_ref text callback ref) { app_id = app_id })
    refund_params-Accounted refund_ref text callback ref app_id a =
        compute-IsAccountedAs type_refund d.amount_cfa h.usd_rate a.positive
          (λ _. a.capped (kind-ne-payout d deposit)) rate _

    refund_row-Gives :
        (refund_ref text : String) (callback : Option String) (ref app_id : String)
        → d.app_id ≡ app_id
        → Triple
            (HasDeposit d)
            (create_refund_payment e
              (record (refund_params e h d refund_ref text callback ref) { app_id = app_id })
              d.id)
            (Gives (λ q. q.refund_of_payment_id ≡ some d.id))
    refund_row-Gives refund_ref text callback ref app_id app =
        Triple-assume (λ ps l. All-In IsAccounted l.1 (l.0).rows)
          λ a.
            create_refund_payment-Gives e _ d
              (refund_params-Accounted refund_ref text callback ref app_id a) deposit app refl

    refund_deposit_found-Keeps :
        (app_id : String) (i : CreateRefundInput)
        → d.app_id ≡ app_id
        → Triple (HasDeposit d) (refund_deposit_found e h app_id i (ok d)) (λ ps _. IsLedger ps)
    unfolding refund_deposit_found
    refund_deposit_found-Keeps app_id i app =
        Triple-if (not (d.status == completed))
          (λ _.
            Triple-weaken (λ ps l. l.0) (λ ps r l. l) (Keeps-respond 422 (not_refundable d.status)))
          λ _. Triple-after (abmcy_uuid-Reads e) λ ref.
            Keeps-bind
              (refund_row-Gives (refund_ref_of i) ("Remboursement de " ++ i.deposit_app_ref)
                (non_empty i.callback_url) ref app_id app)
              (refund_created-Keeps d ref)

    admin_refund_looked_up-Keeps :
        (r : Result Payment)
        → Triple (HasDeposit d) (admin_refund_looked_up e h d r) (λ ps _. IsLedger ps)
    unfolding admin_refund_looked_up
    admin_refund_looked_up-Keeps (ok p) = record { at = λ w l. l.0 }
    admin_refund_looked_up-Keeps (err x) = Triple-after (abmcy_uuid-Reads e) λ ref.
        Keeps-bind
          (refund_row-Gives ("refund-" ++ d.app_ref) ("Remboursement de " ++ d.app_ref) none ref
            d.app_id refl)
          (on_ok-Keeps d ref)

  module _ (rate : FitsInt64 h.usd_rate) where
    found-Keeps :
        (app_id : String) (i : CreateRefundInput) (r : Result Payment)
        → Triple
            (λ ps. Gives (HasKey app_id i.deposit_app_ref type_deposit) ps r)
            (refund_deposit_found e h app_id i r)
            (λ ps _. IsLedger ps)
    found-Keeps app_id i (err x) =
        unfold refund_deposit_found in Keeps-respond 404 (error "deposit_not_found")
    found-Keeps app_id i (ok d) =
        Triple-assume (λ ps l. l.1.1)
          λ key.
            Triple-weaken (λ ps l. (l.0, l.1.0)) (λ ps r l. l)
              (refund_deposit_found-Keeps rate d key.type app_id i key.app)

    refund_looked_up-Keeps :
        (app_id : String) (i : CreateRefundInput) (r : Result Payment)
        → Keeps IsLedger (refund_looked_up e h app_id i r)
    unfolding refund_looked_up
    refund_looked_up-Keeps app_id i (ok p) = Keeps-respond 200 (payment p)
    refund_looked_up-Keeps app_id i (err x) =
        Triple-bind _ _ (find_payment_by_app_ref-Gives e app_id i.deposit_app_ref)
          (found-Keeps app_id i)

    pub refund_input-Keeps :
        (app_id : String) (i : CreateRefundInput) → Keeps IsLedger (refund_input e h app_id i)
    unfolding refund_input
    refund_input-Keeps app_id i =
        Triple-if (i.deposit_app_ref == "")
          (λ _. Keeps-respond 400 (error "deposit_app_ref_required"))
          λ _.
            Keeps-bind (find_payment_by_app_ref_type-Gives e app_id (refund_ref_of i) type_refund)
              (refund_looked_up-Keeps app_id i)

    refund_decoded-Keeps :
        (app_id : String) (o : Option CreateRefundInput)
        → Keeps IsLedger (refund_decoded e h app_id o)
    refund_decoded-Keeps app_id none = Keeps-respond 400 (error "invalid_request")
    refund_decoded-Keeps app_id (some i) = refund_input-Keeps app_id i

    pub refund-Keeps : (app_id : String) (r : Request) → Keeps IsLedger (refund e h app_id r)
    unfolding refund
    refund-Keeps app_id r = refund_decoded-Keeps app_id (e.decode_refund (deref r.body))

    -- The console's refund, of a row that was read from the table.
    pub refund_deposit-Keeps :
        (d : Payment) → Triple (HasDeposit d) (refund_deposit e h d) (λ ps _. IsLedger ps)
    unfolding refund_deposit
    refund_deposit-Keeps d =
        Triple-if (not (d.kind == type_deposit)) (λ _. record { at = λ w l. l.0 })
          λ deposit.
            Triple-if (not (d.status == completed)) (λ _. record { at = λ w l. l.0 })
              λ _.
                Triple-after
                  (find_payment_by_app_ref_type-Reads e d.app_id ("refund-" ++ d.app_ref)
                    type_refund)
                  (admin_refund_looked_up-Keeps rate d (ground arith))
