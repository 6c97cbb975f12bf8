-- ===== src/Ledger/Inserts.antt =====
-- The INSERTs on `payments`: each keeps the ledger, if its row is accounted wherever the columns
-- hold it.
use abmcy_core_payment.Base.{
  String, Bool, true, false, not, Option, none, some, List, ◌∷◌, ◌≡◌, ◌≢◌, refl, arith, In, here,
  any, ◌&&◌, ◌||◌, if◌then◌else◌,
}
use text.Mathlib.TextEquality.{eq_iff}
use abmcy_core_payment.Int64.{fits_int4}
use abmcy_core_payment.Model.{Payment, type_deposit, type_payout, type_refund}
use abmcy_core_payment.World.{
  World, Env, Result, ok, err, payment_not_found, unique_violation, foreign_key_violation,
  out_of_range, app_not_found,
}
use abmcy_core_payment.World.Keeps.{Triple, Triple-weaken, Triple-bind, Triple-statement}
use abmcy_core_payment.Repo.Payments.{
  PaymentParams, same_key, same_ref, fits_columns, refers, insert_payment, insert_or_nothing, fresh,
  create_payout_payment, create_refund_payment, create_payment, or_existing,
}
use abmcy_core_payment.Ledger.{IsAccounted, IsAccountedAs, IsLinked, IsLedger}
use abmcy_core_payment.Ledger.Rows.{IsLedger-insert}
use abmcy_core_payment.Ledger.Statements.{
  Gives, Gives-weaker, HasKey, find_payment_by_app_ref_type-Gives,
}

-- The types of a payment differ.
pub payout-ne-refund : type_payout ≢ type_refund
payout-ne-refund = ground (arith, eq_iff type_payout type_refund)

pub deposit-ne-refund : type_deposit ≢ type_refund
deposit-ne-refund = ground (arith, eq_iff type_deposit type_refund)

pub deposit-ne-payout : type_deposit ≢ type_payout
deposit-ne-payout = ground (arith, eq_iff type_deposit type_payout)

-- What an INSERT needs of its row.
abbrev pub Insertable : Payment → List Payment → Type 0
Insertable p ps = IsLedger ps × IsLinked ps p

module _ (p : Payment) (accounted : fits_columns p ≡ true → IsAccounted p) where
  insert_by_tests :
      (w : World)
      → Insertable p w.payments
      → (fits clash refs : Bool) → fits_columns p ≡ fits
      → (any (same_key p) w.payments || any (same_ref p) w.payments) ≡ clash
      → let r =
          (let u : Result Payment × World =
              if not fits
              then (err out_of_range, w)
              else if clash
              then (err unique_violation, w)
              else if not refs
              then (err foreign_key_violation, w)
              else (ok p, record w { payments = p ∷ w.payments }) in
            u) in
        Gives (λ q. q ≡ p) r.1.payments r.0
  insert_by_tests w h false clash refs e f = h.0
  insert_by_tests w h true true refs e f = h.0
  insert_by_tests w h true false false e f = h.0
  insert_by_tests w h true false true e f = (
    IsLedger-insert p w.payments h.0 (accounted e) h.1 (ground arith) (ground arith),
    (here, refl),
  )

  -- A row that is accounted wherever its columns fit is inserted, or nothing changes.
  pub insert_payment-Gives : Triple (Insertable p) (insert_payment p) (Gives (λ q. q ≡ p))
  unfolding insert_payment
  insert_payment-Gives = record { at = λ w h. insert_by_tests w h _ _ (refers w p) refl refl }

  insert_or_nothing-Gives : Triple (Insertable p) (insert_or_nothing p) (Gives (λ q. q ≡ p))
  unfolding insert_or_nothing
  insert_or_nothing-Gives = record {
    at = λ w h. by_test w h (fits_columns p && any (same_key p) w.payments);
  }
    where
      by_test :
          (w : World)
          → Insertable p w.payments
          → (b : Bool)
          → let r =
              (let u : Result Payment × World =
                  if b then (err payment_not_found, w) else insert_payment p w in
                u) in
            Gives (λ q. q ≡ p) r.1.payments r.0
      by_test w h true = h.0
      by_test w h false = insert_payment-Gives.at w h

-- Rows that are not refunds are linked to nothing.
linked_to_nothing :
    (p : Payment)
    → p.refund_of_payment_id ≡ none
    → p.kind ≢ type_refund
    → (ps : List Payment) → IsLedger ps
    → Insertable p ps
linked_to_nothing p e k ps l = (l, rw e k)

-- The amounts of the parameters are accounted, wherever the columns hold them.
abbrev pub AccountedParams : String → PaymentParams → Type 0
AccountedParams kind p =
    (fits_int4 p.amount_cfa
        && (fits_int4 p.fee_cfa && (fits_int4 p.net_cfa && fits_int4 p.usd_rate_used)))
      ≡ true
    → IsAccountedAs kind p.amount_cfa p.fee_cfa (some p.net_cfa)

module _ (e : Env) (p : PaymentParams) where
  pub create_payout_payment-Gives :
      (phone operator country : String)
      → AccountedParams type_payout p
      → Triple IsLedger
          (create_payout_payment e p phone operator country)
          (Gives (λ q. (q.kind ≡ type_payout) × (q.net_cfa ≡ some p.net_cfa)))
  unfolding create_payout_payment
  create_payout_payment-Gives phone operator country accounted =
      Triple-statement e (λ ps l. l) _
        λ w.
          let row : Payment = record (fresh e type_payout p w) {
            recipient_phone = some phone;
            recipient_operator = some operator;
            country = some country;
          } in
          Triple-weaken (linked_to_nothing row refl payout-ne-refund)
            (Gives-weaker (λ q same. rw same (refl, refl))) (insert_payment-Gives row accounted)

  -- A refund is inserted where its deposit is in the table.
  pub create_refund_payment-Gives :
      (d : Payment)
      → AccountedParams type_refund p
      → d.kind ≡ type_deposit
      → d.app_id ≡ p.app_id
      → d.amount_cfa ≡ p.amount_cfa
      → Triple
          (λ ps. IsLedger ps × In d ps)
          (create_refund_payment e p d.id)
          (Gives (λ q. q.refund_of_payment_id ≡ some d.id))
  unfolding create_refund_payment
  create_refund_payment-Gives d accounted deposit app whole =
      Triple-statement e (λ ps l. l.0) _
        λ w.
          let row : Payment = record (fresh e type_refund p w) {
            refund_of_payment_id = some d.id;
          } in
          Triple-weaken
            (λ ps h. (h.0, (d, h.1, refl, record { deposit = deposit; app = app; whole = whole })))
            (Gives-weaker (λ q same. rw same refl)) (insert_payment-Gives row accounted)

  or_existing-Gives :
      (r : Result Payment)
      → Triple
          (λ ps. Gives (HasKey p.app_id p.app_ref type_deposit) ps r)
          (or_existing e p r)
          (Gives (HasKey p.app_id p.app_ref type_deposit))
  or_existing-Gives (ok q) = record { at = λ w h. h }
  or_existing-Gives (err payment_not_found) =
      find_payment_by_app_ref_type-Gives e p.app_id p.app_ref type_deposit
  or_existing-Gives (err app_not_found) = record { at = λ w h. h }
  or_existing-Gives (err _) = record { at = λ w h. h }

  -- The row returned is the deposit of this app and reference: the new one or the one that was
  -- there.
  pub create_payment-Gives :
      (return_url : Option String)
      → AccountedParams type_deposit p
      → Triple IsLedger
          (create_payment e p return_url)
          (Gives (HasKey p.app_id p.app_ref type_deposit))
  unfolding create_payment
  create_payment-Gives return_url accounted =
      Triple-bind _ _
        (Triple-statement e (λ ps l. l) _
          λ w.
            let row : Payment = record (fresh e type_deposit p w) { return_url = return_url } in
            Triple-weaken (linked_to_nothing row refl deposit-ne-refund)
              (Gives-weaker (λ q same. rw same (record { app = refl; ref = refl; type = refl })))
              (insert_or_nothing-Gives row accounted))
        or_existing-Gives
