-- ===== src/Payments/Slips.antt =====
-- What the rows say of the transfers, and what keeps it.
use abmcy_core_payment.Base.{
  map-update, ℕ, String, Bool, true, false, not, ◌||◌, Option, none, some, List, ◌∷◌, ◌≡◌, refl,
  arith, ◌==◌, map, any, In, here, non_empty, if◌then◌else◌,
}
use abmcy_core_payment.Int64.{ℤ}
use abmcy_core_payment.Model.{Payment, failed}
use abmcy_core_payment.World.{
  World, Env, Fault, fine, refused, reply_lost, Result, ok, err, HttpRequest, Transaction, ◌>>◌,
  pure, advance, statement, run_statement, out_of_range, unique_violation, foreign_key_violation,
}
use abmcy_core_payment.World.Preserves.{
  Preserves, IsTimeless, Preserves-pure, Preserves-bind, Preserves-statement,
}
use abmcy_core_payment.Http.{Body, respond, payment, error}
use abmcy_core_payment.Repo.Payments.{
  insert_payment, fits_columns, same_key, same_ref, refers, update_payment_status, set_where,
  or_else,
}
use abmcy_core_payment.Payments.Handler.{PaymentHandler, normalize_status}
use abmcy_core_payment.Payments.Refund.{record_status, with_status}
use abmcy_core_payment.Payments.Payout.{payout_sent}

-- What a row says of a transfer.
pub record Slip : Type 0 where
  pub kind : String
  pub ref : String
  pub net : Option ℤ
  pub refunds : Option String

abbrev pub slip : Payment → Slip
slip p = record {
  kind = p.kind;
  ref = p.diarra_client_ref;
  net = p.net_cfa;
  refunds = p.refund_of_payment_id;
}

abbrev pub slips : World → List Slip
slips w = map slip w.payments

-- The requests that went out, and the slips.
abbrev pub books : World → List HttpRequest × List Slip
books w = (w.sent, slips w)

-- A row that an INSERT gives is in the table.
abbrev pub IsGiven : Payment → World → Result Payment → Type 0
IsGiven row w (ok p) = (p ≡ row) × In (slip row) (slips w)
IsGiven row w (err x) = Unit

abbrev pub IsInserted : Payment → World → Result Payment × World → Type 0
IsInserted row w a = (a.1.sent ≡ w.sent) × IsGiven row a.1 a.0

insert_payment-IsInserted : (row : Payment) (w : World) → IsInserted row w (insert_payment row w)
unfolding insert_payment
insert_payment-IsInserted row w =
    by_tests (not (fits_columns row))
      (any (same_key row) w.payments || any (same_ref row) w.payments) (not (refers w row))
  where
    by_tests :
        (a b c : Bool)
        → IsInserted row w (
            if a
            then (err out_of_range, w)
            else if b
            then (err unique_violation, w)
            else if c
            then (err foreign_key_violation, w)
            else (ok row, record w { payments = row ∷ w.payments }))
    by_tests true b c = (refl, tt)
    by_tests false true c = (refl, tt)
    by_tests false false true = (refl, tt)
    by_tests false false false = (refl, (refl, here))

pub statement-IsInserted :
    (e : Env) (row : Payment) (w : World) → IsInserted row w (statement e (insert_payment row) w)
unfolding statement
statement-IsInserted e row w = by_fault (e.fault w.tick)
  where
    by_fault : (f : Fault) → IsInserted row w (run_statement e f (insert_payment row) w)
    by_fault fine = insert_payment-IsInserted row (advance w)
    by_fault (refused s) = (refl, tt)
    by_fault (reply_lost s) = ((insert_payment-IsInserted row (advance w)).0, tt)

pub respond-Preserves : (status : ℕ) (body : Body) → Preserves books (respond status body)
respond-Preserves status body = record { same = λ w. refl }

books-IsTimeless : IsTimeless books
books-IsTimeless = record { same = λ w t. refl }

module _ (e : Env) where
  pub update_status-Preserves :
      (id s : String) (provider reason : Option String)
      → Preserves books (update_payment_status e id s provider reason)
  unfolding update_payment_status set_where
  update_status-Preserves id s provider reason = Preserves-statement books-IsTimeless e _ λ v.
      record {
        same = λ w.
            let u =
              map-update slip (λ p. p.id == id)
                (λ p. record p {
                  status = s;
                  provider = or_else provider p.provider;
                  failure_reason = reason;
                  updated_at = e.now v.tick;
                })
                (λ p. refl) w.payments in
            ground arith;
      }

  module _ (h : PaymentHandler) where
    pub record_status-Preserves :
        (p : Payment) (tx : Transaction) → Preserves books (record_status e h p tx)
    unfolding record_status
    record_status-Preserves p tx = by_test (tx.status == "")
      where
        by_test :
            (b : Bool)
            → Preserves books (
                if b
                then pure tt
                else update_payment_status e p.id
                    (normalize_status tx.status)
                    (non_empty tx.provider)
                    none
                  >> pure tt)
        by_test true = Preserves-pure tt
        by_test false =
            Preserves-bind _ _ (update_status-Preserves _ _ _ _) (λ _. Preserves-pure tt)

    pub payout_sent-Preserves :
        (p : Payment) (r : Result Transaction) → Preserves books (payout_sent e h p r)
    payout_sent-Preserves p (err x) =
        Preserves-bind _ _ (update_status-Preserves p.id failed none (some "diarra_payout_failed"))
          (λ _. respond-Preserves 502 (error "payout_init_failed"))
    payout_sent-Preserves p (ok tx) =
        Preserves-bind _ _ (record_status-Preserves p tx)
          (λ _. respond-Preserves 201 (payment (with_status e h p tx)))
