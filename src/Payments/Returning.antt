-- ===== src/Payments/Returning.antt =====
-- Money is given back only for a deposit that was completed, and once its refund is in the table.
use Prim.Native.String.{◌++◌}
use abmcy_core_payment.Base.{
  String, Bool, true, false, ◌&&◌, Option, none, some, List, ◌∷◌, ◌≡◌, refl, ap, subst, ◌∙◌, ◌⊎◌,
  inl, inr, arith, map, In, find, find-In, ◌==◌, deref, non_empty,
}
use abmcy_core_payment.Int64.{ℤ}
use abmcy_core_payment.Fees.{compute}
use abmcy_core_payment.Model.{
  Payment, CreateRefundInput, completed, failed, type_deposit, type_refund,
}
use abmcy_core_payment.World.{
  World, Env, Fault, fine, refused, reply_lost, Result, ok, err, HttpRequest, refund_body,
  RefundRequest, Transaction, statement, run_statement,
}
use abmcy_core_payment.World.Preserves.{Preserves, Preserves-bind}
use abmcy_core_payment.Http.{Request, payment, error}
use abmcy_core_payment.Gateway.{create_refund}
use abmcy_core_payment.Repo.Payments.{
  insert_payment, create_refund_payment, find_payment_by_app_ref, find_payment_by_app_ref_type,
  fresh, scan_payment,
}
use abmcy_core_payment.Uuid.{abmcy_uuid}
use abmcy_core_payment.Payments.Handler.{PaymentHandler}
use abmcy_core_payment.Payments.Refund.{
  refund_ref_of, refund_params, refund_request, refund_sent, refund_created, refund_deposit_found,
  refund_looked_up, refund_input, refund_decoded, refund, with_status,
}
use abmcy_core_payment.Payments.Calls.{
  IsCall, do_signed-IsCall, abmcy_uuid_quiet, find_payment_quiet,
}
use abmcy_core_payment.Ledger.Reads.{find_payment_by_app_ref_type-Reads}
use abmcy_core_payment.Payments.Slips.{
  slip, slips, books, IsGiven, statement-IsInserted, update_status-Preserves,
  record_status-Preserves, respond-Preserves,
}

-- The deposit `d` of the table is one that was paid, and the request names it.
pub record IsPaidDeposit (v : World) (b : RefundRequest) (d : Payment) : Type 0 where
  pub row : In d v.payments
  pub kind : d.kind ≡ type_deposit
  pub paid : d.status ≡ completed
  pub named : b.deposit_client_ref ≡ d.diarra_client_ref

-- A refund of `d` is in the table, under the reference of the request.
pub record HasRefund (w : World) (b : RefundRequest) (d : Payment) : Type 0 where
  pub net : Option ℤ
  pub row :
      In
        (record { kind = type_refund; ref = b.client_ref; net = net; refunds = some d.id })
        (slips w)

-- From `v` to `w` nothing is sent, or one request for a refund that `w` has, of a deposit that `v`
-- has and that was paid.
abbrev pub IsReturned : World → World → Type 0
IsReturned v w =
    (w.sent ≡ v.sent)
    ⊎ ((q : HttpRequest) × (b : RefundRequest) × (d : Payment) × (w.sent ≡ q ∷ v.sent)
        × (q.payload ≡ refund_body b)
        × IsPaidDeposit v b d
        × HasRefund w b d)

-- The call, and then what keeps the books.
IsReturned-of_call :
    (v v' w w' : World) (b : RefundRequest) (d : Payment)
    → v'.sent ≡ v.sent
    → IsPaidDeposit v b d
    → HasRefund v' b d
    → IsCall (refund_body b) v' w
    → books w' ≡ books w
    → IsReturned v w'
IsReturned-of_call v v' w w' b d quiet paid has call same = by_case call.called
  where
    sent : w'.sent ≡ w.sent
    sent = ap (λ x. x.0) same

    has' : HasRefund w' b d
    has' =
        let eq : slips w' ≡ slips v' = ap (λ x. x.1) same ∙ ap (map slip) call.rows in
        record { net = has.net; row = rw eq has.row }

    by_case :
        ((w.sent ≡ v'.sent)
          ⊎ ((q : HttpRequest) × (w.sent ≡ q ∷ v'.sent) × (q.payload ≡ refund_body b)))
        → IsReturned v w'
    by_case (inl s) = inl (sent ∙ s ∙ quiet)
    by_case (inr (q, s, p)) = inr (q, b, d, sent ∙ s ∙ ap (λ l. q ∷ l) quiet, p, paid, has')

-- What the lookup of the deposit gives is in the table.
abbrev IsFoundIn : List Payment → Result Payment → Type 0
IsFoundIn ps (ok d) = In d ps × (d.kind ≡ type_deposit)
IsFoundIn ps (err x) = Unit

find-IsFoundIn :
    (e : Env) (app_id app_ref : String) (w : World)
    → IsFoundIn w.payments (find_payment_by_app_ref e app_id app_ref w).0
unfolding find_payment_by_app_ref find_payment_by_app_ref_type statement
find-IsFoundIn e app_id app_ref w = by_fault (e.fault w.tick)
  where
    by_row :
        (o : Option Payment)
        → find
            (λ (q : Payment).
              q.app_id == app_id && (q.app_ref == app_ref && q.kind == type_deposit))
            w.payments
          ≡ o
        → IsFoundIn w.payments (scan_payment o)
    by_row none eq = tt
    by_row (some d) eq = let (at, same) = find-In _ w.payments eq in (at, ground arith)

    by_fault :
        (f : Fault)
        → IsFoundIn w.payments
            (run_statement e f
              (λ w. (
                scan_payment (
                    find
                      (λ (q : Payment).
                        q.app_id == app_id && (q.app_ref == app_ref && q.kind == type_deposit))
                      w.payments),
                w,
              ))
              w).0
    by_fault fine = by_row _ refl
    by_fault (refused s) = tt
    by_fault (reply_lost s) = tt

module _ (e : Env) (h : PaymentHandler) where
  refund_sent-Preserves :
      (p : Payment) (r : Result Transaction) → Preserves books (refund_sent e h p r)
  refund_sent-Preserves p (err x) =
      Preserves-bind _ _ (update_status-Preserves e p.id failed none (some "diarra_refund_failed"))
        (λ _. respond-Preserves 502 (error "refund_init_failed"))
  refund_sent-Preserves p (ok tx) =
      Preserves-bind _ _ (record_status-Preserves e h p tx)
        (λ _. respond-Preserves 201 (payment (with_status e h p tx)))

  refund_created-IsReturned :
      (d : Payment) (ref : String) (net : Option ℤ) (row : Payment) (r : Result Payment)
      (v v' : World)
      → slip row ≡ record { kind = type_refund; ref = ref; net = net; refunds = some d.id }
      → IsPaidDeposit v (refund_request e h ref d) d
      → v'.sent ≡ v.sent
      → IsGiven row v' r
      → IsReturned v (refund_created e h d ref r v').1
  unfolding refund_created create_refund
  refund_created-IsReturned d ref net row (err x) v v' eq paid quiet given = inl quiet
  refund_created-IsReturned d ref net row (ok p) v v' eq paid quiet given =
      let b = refund_request e h ref d in
      let call = create_refund e h.diarra b v' in
      IsReturned-of_call v v' call.1 (refund_sent e h p call.0 call.1).1 b d quiet paid
        (record { net = net; row = subst (λ x. In x (slips v')) eq given.1 })
        (do_signed-IsCall e h.diarra "POST" "/api/gateway/v1/refunds" (refund_body b) v')
        ((refund_sent-Preserves p call.0).same call.1)

  refund_deposit_found-IsReturned :
      (app_id : String) (i : CreateRefundInput) (r : Result Payment) (w : World)
      → IsFoundIn w.payments r
      → IsReturned w (refund_deposit_found e h app_id i r w).1
  unfolding refund_deposit_found create_refund_payment
  refund_deposit_found-IsReturned app_id i (err x) w found = inl refl
  refund_deposit_found-IsReturned app_id i (ok d) w found = by_test (d.status == completed) refl
    where
      row : String → World → Payment
      row ref v =
          record (fresh e type_refund
            (record (refund_params e h d (refund_ref_of i)
              ("Remboursement de " ++ i.deposit_app_ref) (non_empty i.callback_url) ref) {
                app_id = app_id;
              })
            v) { refund_of_payment_id = some d.id }

      by_test :
          (b : Bool)
          → (d.status == completed) ≡ b
          → IsReturned w (refund_deposit_found e h app_id i (ok d) w).1
      by_test false q = rw q (inl refl)
      by_test true q =
          let (ref, v) = abmcy_uuid e w in
          let inserted = statement-IsInserted e (row ref v) v in
          let quiet : v.sent ≡ w.sent = abmcy_uuid_quiet e w in
          rw q (
            refund_created-IsReturned d ref (some (compute d.amount_cfa h.usd_rate).net_cfa)
              (row ref v) (statement e (insert_payment (row ref v)) v).0 w
              (statement e (insert_payment (row ref v)) v).1 refl
              (record { row = found.0; kind = found.1; paid = ground arith; named = refl })
              (inserted.0 ∙ quiet) inserted.1)

  -- Nothing was sent before, and no row changed.
  IsReturned-after :
      (u v w : World) → v.sent ≡ u.sent → v.payments ≡ u.payments → IsReturned v w → IsReturned u w
  IsReturned-after u v w eq rows (inl s) = inl (s ∙ eq)
  IsReturned-after u v w eq rows (inr (q, b, d, s, p, paid, has)) = inr (
    q,
    b,
    d,
    s ∙ ap (λ l. q ∷ l) eq,
    p,
    record {
      row = subst (In d) rows paid.row;
      kind = paid.kind;
      paid = paid.paid;
      named = paid.named;
    },
    has,
  )

  find_deposit_rows :
      (a r : String) (w : World) → (find_payment_by_app_ref e a r w).1.payments ≡ w.payments
  unfolding find_payment_by_app_ref
  find_deposit_rows a r w = (find_payment_by_app_ref_type-Reads e a r type_deposit).same w

  find_deposit_quiet :
      (a r : String) (w : World) → (find_payment_by_app_ref e a r w).1.sent ≡ w.sent
  unfolding find_payment_by_app_ref
  find_deposit_quiet a r w = find_payment_quiet e a r type_deposit w

  refund_looked_up-IsReturned :
      (app_id : String) (i : CreateRefundInput) (r : Result Payment) (w : World)
      → IsReturned w (refund_looked_up e h app_id i r w).1
  unfolding refund_looked_up
  refund_looked_up-IsReturned app_id i (ok p) w = inl refl
  refund_looked_up-IsReturned app_id i (err x) w =
      let (d, v) = find_payment_by_app_ref e app_id i.deposit_app_ref w in
      let rows = find_deposit_rows app_id i.deposit_app_ref w in
      let found = find-IsFoundIn e app_id i.deposit_app_ref w in
      IsReturned-after w v _ (find_deposit_quiet app_id i.deposit_app_ref w) rows
        (refund_deposit_found-IsReturned app_id i d v (rw rows found))

  refund_input-IsReturned :
      (app_id : String) (i : CreateRefundInput) (w : World)
      → IsReturned w (refund_input e h app_id i w).1
  unfolding refund_input
  refund_input-IsReturned app_id i w = by_test (i.deposit_app_ref == "") refl
    where
      by_test :
          (b : Bool) → (i.deposit_app_ref == "") ≡ b → IsReturned w (refund_input e h app_id i w).1
      by_test true q = rw q (inl refl)
      by_test false q =
          let (p, v) = find_payment_by_app_ref_type e app_id (refund_ref_of i) type_refund w in
          rw q (
            IsReturned-after w v _ (find_payment_quiet e app_id (refund_ref_of i) type_refund w)
              ((find_payment_by_app_ref_type-Reads e app_id (refund_ref_of i) type_refund).same w)
              (refund_looked_up-IsReturned app_id i p v))

  -- `Refund` sends nothing to the gateway, or one request, for a deposit that was in the table and
  -- was completed, under the reference that the deposit has; and a refund that points at this deposit
  -- is then in the table, under the reference of the request. So it is for every request, whatever
  -- the database and the gateway answer.
  pub refund-IsReturned :
      (app_id : String) (r : Request) (w : World) → IsReturned w (refund e h app_id r w).1
  unfolding refund
  refund-IsReturned app_id r w = by_body (e.decode_refund (deref r.body))
    where
      by_body : (o : Option CreateRefundInput) → IsReturned w (refund_decoded e h app_id o w).1
      by_body none = inl refl
      by_body (some i) = refund_input-IsReturned app_id i w
