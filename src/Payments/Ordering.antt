-- ===== src/Payments/Ordering.antt =====
-- A new order: the row, the deposit at the gateway, and the answer.
use abmcy_core_payment.Base.{
  ℕ, ◌+◌, String, true, false, ◌&&◌, none, some, List, [], ◌∷◌, update, ◌≡◌, refl, ap, ◌∙◌, arith,
  ◌==◌, any, find, deref, non_empty,
}
use abmcy_core_payment.Int64.{◌≤ℤ◌, ltb_ℤ}
use abmcy_core_payment.Fees.{compute}
use abmcy_core_payment.Model.{
  App, Payment, CreatePaymentInput, type_deposit, pending, max_amount_for,
}
use abmcy_core_payment.World.{
  World, Env, fine, ok, HttpRequest, deposit_body, DepositRequest, Transaction, statement,
}
use abmcy_core_payment.Http.{Request, Response, payment_with_hosted, send}
use abmcy_core_payment.Gateway.{create_deposit, do_signed, signed_request, read_reply}
use abmcy_core_payment.Repo.Apps.{find_by_id}
use abmcy_core_payment.Repo.Payments.{
  fits_columns, same_ref, refers, find_payment_by_app_ref, find_payment_by_app_ref_type,
  update_payment_redirect, set_where,
}
use abmcy_core_payment.Repo.Payments.Book.{new_row, key_of, has_key, is_unkeyed, create_payment_new}
use abmcy_core_payment.Uuid.{abmcy_uuid}
use abmcy_core_payment.Payments.Handler.{PaymentHandler, hosted_pay_url}
use abmcy_core_payment.Payments.Pay.{
  is_missing, payment_params, deposit_request, pay, pay_input, pay_looked_up, pay_limited,
  pay_allowed, pay_created,
}
use abmcy_core_payment.Payments.Limits.{IsKnown}

-- An UPDATE by the id of a row leaves the rows with other ids as they are.
update-apart :
    (row : Payment) (f : Payment → Payment) (ps : List Payment)
    → any (same_ref row) ps ≡ false
    → update (λ (p : Payment). p.id == row.id) f ps ≡ ps
unfolding any update
update-apart row f [] apart = refl
update-apart row f (p ∷ ps) apart =
    let rest = update-apart row f ps (ground arith) in
    let other : p.id == row.id ≡ false = ground arith in rw (other, rest)

update_own :
    (row : Payment) (f : Payment → Payment) (ps : List Payment)
    → update (λ (p : Payment). p.id == row.id) f (row ∷ ps)
      ≡ f row ∷ update (λ (p : Payment). p.id == row.id) f ps
unfolding update
update_own row f ps = let own : row.id == row.id ≡ true = ground arith in rw own

module _ (e : Env) (h : PaymentHandler) where
  -- The order `i` is taken: a pending row with the commission that Compute says, whose link is the
  -- gateway's, is the one new row of the table; one deposit was sent, under its reference and for the
  -- whole amount; and the answer is 201 with the row.
  pub record IsTaken (app_id : String) (i : CreatePaymentInput) (tx : Transaction)
      (requests : List HttpRequest) (ps : List Payment) (a : Response × World) : Type 0 where
    pub row : Payment
    pub owner : row.app_id ≡ app_id
    pub named : row.app_ref ≡ i.app_ref
    pub kind : row.kind ≡ type_deposit
    pub status : row.status ≡ pending
    pub amount : row.amount_cfa ≡ i.amount_cfa
    pub fee : row.fee_cfa ≡ (compute i.amount_cfa h.usd_rate).fee_cfa
    pub net : row.net_cfa ≡ some (compute i.amount_cfa h.usd_rate).net_cfa
    pub link : row.redirect_url ≡ some tx.redirect_url
    pub updated_at : ℕ
    pub rows : a.1.payments ≡ record row { updated_at = updated_at } ∷ ps
    pub request : HttpRequest
    pub deposit : DepositRequest
    pub sent : a.1.sent ≡ request ∷ requests
    pub payload : request.payload ≡ deposit_body deposit
    pub under : deposit.client_ref ≡ row.diarra_client_ref
    pub whole : deposit.amount_cfa ≡ i.amount_cfa
    pub answered : a.0 ≡ record {
      status = 201;
      body = payment_with_hosted row (non_empty (hosted_pay_url h row.diarra_client_ref));
    }

  -- The row that the order makes, and the world it is put into.
  abbrev pub next_row : String → CreatePaymentInput → World → Payment × World
  next_row app_id i w =
      let (ref, v) = abmcy_uuid e w in
      (new_row e (payment_params e h app_id i ref) (non_empty i.return_url) v, v)

  -- The table allows the row: its key and its ids are free, its amounts fit, and its app is there.
  pub record IsFree (next : Payment × World) : Type 0 where
    pub fits : fits_columns next.0 ≡ true
    pub key : find (has_key (key_of next.0)) next.1.payments ≡ none
    pub apart : any (same_ref next.0) next.1.payments ≡ false
    pub there : refers next.1 next.0 ≡ true

  module _ (runs : (n : ℕ) → e.fault n ≡ fine) (tx : Transaction)
      (valid : (url : String) → e.valid_url url ≡ true)
      (accepts : (n : ℕ) (q : HttpRequest) → read_reply e (e.http_do n q) ≡ ok tx) where
    create_deposit_accepted :
        (d : DepositRequest) (w : World)
        → create_deposit e h.diarra d w ≡ (
          ok tx,
          record w {
            sent =
                signed_request e h.diarra
                  (e.now w.tick)
                  "POST"
                  "/api/gateway/v1/deposits"
                  (deposit_body d)
                ∷ w.sent;
            tick = w.tick + 1;
          },
        )
    unfolding create_deposit do_signed send
    create_deposit_accepted d w = rw (valid _, accepts _ _)

    pay_created-IsTaken :
        (app_id : String) (i : CreatePaymentInput) (ref : String) (u v w : World)
        → w.sent ≡ u.sent
        → (let row = new_row e (payment_params e h app_id i ref) (non_empty i.return_url) v in
            w.payments ≡ row ∷ u.payments
            → any (same_ref row) u.payments ≡ false
            → IsTaken app_id i tx u.sent u.payments (pay_created e h i ref (ok row) w))
    unfolding pay_created update_payment_redirect statement set_where signed_request
    pay_created-IsTaken app_id i ref u v w quiet rows apart =
        let row = new_row e (payment_params e h app_id i ref) (non_empty i.return_url) v in
        let d = deposit_request e h ref i.amount_cfa i.country i.description in
        let link = (λ (p : Payment). record p {
          redirect_url = some tx.redirect_url;
          updated_at = e.now (w.tick + 1);
        }) in
        let others = update-apart row link u.payments apart in
        rw (create_deposit_accepted d w, runs (w.tick + 1))
          (record {
            row = record row { redirect_url = some tx.redirect_url };
            owner = refl;
            named = refl;
            kind = refl;
            status = refl;
            amount = refl;
            fee = refl;
            net = refl;
            link = refl;
            updated_at = e.now (w.tick + 1);
            rows =
                ap (update (λ (p : Payment). p.id == row.id) link) rows
                ∙ update_own row link u.payments
                ∙ ap (λ l. link row ∷ l) others;
            request =
                signed_request e h.diarra (e.now w.tick) "POST" "/api/gateway/v1/deposits"
                  (deposit_body d);
            deposit = d;
            sent =
                ap
                  (λ l.
                    signed_request e h.diarra (e.now w.tick) "POST" "/api/gateway/v1/deposits"
                      (deposit_body d)
                    ∷ l)
                  quiet;
            payload = refl;
            under = refl;
            whole = refl;
            answered = refl;
          })

    pay_allowed-IsTaken :
        (app_id : String) (i : CreatePaymentInput) (w : World)
        → IsFree (next_row app_id i w)
        → IsTaken app_id i tx w.sent w.payments (pay_allowed e h app_id i w)
    unfolding pay_allowed abmcy_uuid
    pay_allowed-IsTaken app_id i w free =
        let (ref, v) = abmcy_uuid e w in
        let params = payment_params e h app_id i ref in
        let row = new_row e params (non_empty i.return_url) v in
        let made =
          create_payment_new e params (non_empty i.return_url) v (runs v.tick) free.fits
            (is_unkeyed e row v.payments free.key) free.apart free.there in
        rw made (
          pay_created-IsTaken app_id i ref w v
            (record v { payments = row ∷ v.payments; tick = v.tick + 1 }) refl refl free.apart)

    pay_within :
        (app_id : String) (r : Request) (app : App) (i : CreatePaymentInput) (w : World)
        → IsKnown e h app_id r app w
        → e.decode_payment (deref r.body) ≡ some i
        → is_missing i ≡ false
        → find
            (λ (q : Payment).
              q.app_id == app_id && (q.app_ref == i.app_ref && q.kind == type_deposit))
            w.payments
          ≡ none
        → i.amount_cfa ≤ℤ max_amount_for app.kyc_level
        → pay e h app_id r w ≡ pay_allowed e h app_id i (record w { tick = w.tick + 1 + 1 })
    unfolding pay pay_input pay_looked_up pay_limited find_payment_by_app_ref
        find_payment_by_app_ref_type find_by_id statement
    pay_within app_id r app i w k decoded given absent within =
        let below : ltb_ℤ (max_amount_for app.kyc_level) i.amount_cfa ≡ false = ground arith in
        rw (decoded, given, k.first, absent, k.second, k.found, below)

    -- `Pay` takes an order of an app that is there, under a new app_ref and within the limit of the
    -- app's KYC level: a pending row with the commission that Compute says, whose link is the
    -- gateway's, is the one new row of the table; one deposit was sent, under its reference and for
    -- the whole amount; and the answer is 201 with the row. So it is where the statements run, the
    -- URLs are valid, the gateway accepts the deposit, and the id, the reference and the amounts of
    -- the row are allowed.
    pub pay-IsTaken :
        (app_id : String) (r : Request) (app : App) (i : CreatePaymentInput) (w : World)
        → IsKnown e h app_id r app w
        → e.decode_payment (deref r.body) ≡ some i
        → is_missing i ≡ false
        → find
            (λ (q : Payment).
              q.app_id == app_id && (q.app_ref == i.app_ref && q.kind == type_deposit))
            w.payments
          ≡ none
        → i.amount_cfa ≤ℤ max_amount_for app.kyc_level
        → IsFree (next_row app_id i (record w { tick = w.tick + 1 + 1 }))
        → IsTaken app_id i tx w.sent w.payments (pay e h app_id r w)
    pay-IsTaken app_id r app i w k decoded given absent within free =
        let taken = pay_allowed-IsTaken app_id i (record w { tick = w.tick + 1 + 1 }) free in
        rw (pay_within app_id r app i w k decoded given absent within) taken
