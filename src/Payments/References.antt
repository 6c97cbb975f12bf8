-- ===== src/Payments/References.antt =====
-- Under which reference a deposit goes out to the gateway.
use Prim.Native.String.{◌++◌}
use abmcy_core_payment.Base.{
  map-update, ◌+◌, String, true, false, ◌&&◌, Option, none, some, List, ◌∷◌, ◌≡◌, refl, ap, ◌∙◌,
  arith, ◌==◌, map, any, find, deref, non_empty,
}
use abmcy_core_payment.Int64.{◌≤ℤ◌, ltb_ℤ}
use abmcy_core_payment.Model.{
  App, Payment, CreatePaymentInput, failed, type_deposit, max_amount_for,
}
use abmcy_core_payment.World.{
  World, Env, fine, refused, Result, ok, err, HttpRequest, deposit_body, DepositRequest,
  Transaction, statement,
}
use abmcy_core_payment.World.Preserves.{Preserves, IsTimeless, Preserves-bind, Preserves-statement}
use abmcy_core_payment.Http.{Request, error, respond, send}
use abmcy_core_payment.Gateway.{create_deposit, do_signed, signed_request}
use abmcy_core_payment.Uuid.{abmcy_uuid}
use abmcy_core_payment.Repo.Apps.{find_by_id}
use abmcy_core_payment.Repo.Payments.{
  update_payment_status, update_payment_redirect, set_where, or_else, fits_columns, fresh,
  find_payment_by_app_ref, find_payment_by_app_ref_type,
}
use abmcy_core_payment.Repo.Payments.Conflicts.{create_payment_existing}
use abmcy_core_payment.Payments.Handler.{PaymentHandler}
use abmcy_core_payment.Payments.Pay.{
  is_missing, payment_params, pay, pay_input, pay_looked_up, pay_limited, pay_allowed, pay_created,
  pay_deposited, answer_created, deposit_request,
}

abbrev pub refs : World → List String
refs w = map (λ (p : Payment). p.diarra_client_ref) w.payments

-- The requests that went out, and the references of the rows.
abbrev traffic : World → List HttpRequest × List String
traffic w = (w.sent, refs w)

traffic-IsTimeless : IsTimeless traffic
traffic-IsTimeless = record { same = λ w t. refl }

module _ (e : Env) (h : PaymentHandler) where
  update_status-Preserves :
      (id s : String) (provider reason : Option String)
      → Preserves traffic (update_payment_status e id s provider reason)
  unfolding update_payment_status set_where
  update_status-Preserves id s provider reason = Preserves-statement traffic-IsTimeless e _ λ v.
      record {
        same = λ w.
            let u =
              map-update (λ (p : Payment). p.diarra_client_ref) (λ p. p.id == id)
                (λ p. record p {
                  status = s;
                  provider = or_else provider p.provider;
                  failure_reason = reason;
                  updated_at = e.now v.tick;
                })
                (λ p. refl) w.payments in
            ground arith;
      }

  update_redirect-Preserves :
      (id url : String) → Preserves traffic (update_payment_redirect e id url)
  unfolding update_payment_redirect set_where
  update_redirect-Preserves id url = Preserves-statement traffic-IsTimeless e _ λ v. record {
    same = λ w.
        let u =
          map-update (λ (p : Payment). p.diarra_client_ref) (λ p. p.id == id)
            (λ p. record p { redirect_url = some url; updated_at = e.now v.tick }) (λ p. refl)
            w.payments in
        ground arith;
  }

  answer_created-Preserves :
      (p : Payment) (url : String) (r : Result (Unit {0}))
      → Preserves traffic (answer_created e h p url r)
  answer_created-Preserves p url (err x) = record { same = λ w. refl }
  answer_created-Preserves p url (ok u) = record { same = λ w. refl }

  refused-Preserves : Preserves traffic (respond 502 (error "payment_init_failed"))
  refused-Preserves = record { same = λ w. refl }

  pay_deposited-Preserves :
      (p : Payment) (r : Result Transaction) → Preserves traffic (pay_deposited e h p r)
  pay_deposited-Preserves p (err x) =
      Preserves-bind (update_payment_status e p.id failed none (some "diarra_init_failed")) _
        (update_status-Preserves p.id failed none (some "diarra_init_failed"))
        (λ _. refused-Preserves)
  pay_deposited-Preserves p (ok tx) =
      Preserves-bind (update_payment_redirect e p.id tx.redirect_url)
        (answer_created e h p tx.redirect_url) (update_redirect-Preserves p.id tx.redirect_url)
        (answer_created-Preserves p tx.redirect_url)

  -- One deposit was sent under the reference, and the rows have the references that they had.
  pub record IsSentAs (ref : String) (v w : World) : Type 0 where
    pub request : HttpRequest
    pub deposit : DepositRequest
    pub sent : w.sent ≡ request ∷ v.sent
    pub payload : request.payload ≡ deposit_body deposit
    pub under : deposit.client_ref ≡ ref
    pub rows : refs w ≡ refs v

  pay_created-IsSentAs :
      (i : CreatePaymentInput) (ref : String) (p : Payment) (w : World)
      → e.valid_url (h.diarra.base_url ++ "/api/gateway/v1/deposits") ≡ true
      → IsSentAs ref w (pay_created e h i ref (ok p) w).1
  unfolding pay_created create_deposit do_signed signed_request send
  pay_created-IsSentAs i ref p w valid =
      let input = deposit_request e h ref i.amount_cfa i.country i.description in
      let q =
        signed_request e h.diarra (e.now w.tick) "POST" "/api/gateway/v1/deposits"
          (deposit_body input) in
      let call = create_deposit e h.diarra input w in
      let kept = (pay_deposited-Preserves p call.0).same call.1 in
      let sent : call.1.sent ≡ q ∷ w.sent = rw valid in
      let rows : refs call.1 ≡ refs w = rw valid in
      record {
        request = q;
        deposit = input;
        sent = ap (λ x. x.0) kept ∙ sent;
        payload = refl;
        under = refl;
        rows = ap (λ x. x.1) kept ∙ rows;
      }

  -- One deposit was sent, under a reference that no row has; the rows have those that they had.
  pub record IsOrphaned (v w : World) : Type 0 where
    pub request : HttpRequest
    pub deposit : DepositRequest
    pub sent : w.sent ≡ request ∷ v.sent
    pub payload : request.payload ≡ deposit_body deposit
    pub rows : refs w ≡ refs v
    pub no_row : any (λ (x : String). x == deposit.client_ref) (refs w) ≡ false

  module _ (app_id : String) (i : CreatePaymentInput) (p : Payment) (w : World) where
    -- The reference that `Pay` makes in this world, and the world then.
    abbrev pub next_ref : String × World
    next_ref = abmcy_uuid e w

    -- The gateway's URL is one, no row has the new reference, the row `p` is there for the order, and
    -- the statements of CreatePayment run, with amounts of an INTEGER column.
    pub record IsRaced : Type 0 where
      pub valid : e.valid_url (h.diarra.base_url ++ "/api/gateway/v1/deposits") ≡ true
      pub new : any (λ (x : String). x == next_ref.0) (refs w) ≡ false
      pub first : e.fault next_ref.1.tick ≡ fine
      pub second : e.fault (next_ref.1.tick + 1) ≡ fine
      pub fits :
          fits_columns (fresh e type_deposit (payment_params e h app_id i next_ref.0) next_ref.1)
          ≡ true
      pub there :
          find
            (λ (q : Payment).
              q.app_id == app_id && (q.app_ref == i.app_ref && q.kind == type_deposit))
            w.payments
          ≡ some p

    pay_allowed-IsOrphaned : IsRaced → IsOrphaned w (pay_allowed e h app_id i w).1
    unfolding pay_allowed abmcy_uuid
    pay_allowed-IsOrphaned c =
        let (ref, v) = abmcy_uuid e w in
        let given =
          create_payment_existing e (payment_params e h app_id i ref) (non_empty i.return_url) p v
            c.first c.second c.fits c.there in
        let s = pay_created-IsSentAs i ref p (record v { tick = v.tick + 1 + 1 }) c.valid in
        rw given (record {
          request = s.request;
          deposit = s.deposit;
          sent = s.sent;
          payload = s.payload;
          rows = s.rows;
          no_row = rw (s.under, s.rows) c.new;
        })

  pay_unread :
      (app_id : String) (r : Request) (app : App) (i : CreatePaymentInput) (reason : String)
      (w : World)
      → e.decode_payment (deref r.body) ≡ some i
      → is_missing i ≡ false
      → e.fault w.tick ≡ refused reason
      → e.fault (w.tick + 1) ≡ fine
      → find (λ (a : App). a.id == app_id) w.apps ≡ some app
      → i.amount_cfa ≤ℤ max_amount_for app.kyc_level
      → pay e h app_id r w ≡ pay_allowed e h app_id i (record w { tick = w.tick + 1 + 1 })
  unfolding pay pay_input pay_looked_up pay_limited find_payment_by_app_ref
      find_payment_by_app_ref_type find_by_id statement
  pay_unread app_id r app i reason w decoded given fails runs found within =
      let below : ltb_ℤ (max_amount_for app.kyc_level) i.amount_cfa ≡ false = ground arith in
      rw (decoded, given, fails, runs, found, below)

  -- Where the lookup of an order by its app_ref fails and the row is there, `Pay` sends one
  -- deposit, under a reference that it has just made and that no row has, before or after, and
  -- leaves the references of all rows as they are. So it is for an order within the limit, where
  -- CreatePayment and the lookup of the app run, the amounts are those of an INTEGER column, the
  -- gateway's URL is one, and the new reference is one that no row has yet.
  pub pay-IsOrphaned :
      (app_id : String) (r : Request) (app : App) (i : CreatePaymentInput) (p : Payment)
      (reason : String) (w : World)
      → e.decode_payment (deref r.body) ≡ some i
      → is_missing i ≡ false
      → e.fault w.tick ≡ refused reason
      → e.fault (w.tick + 1) ≡ fine
      → find (λ (a : App). a.id == app_id) w.apps ≡ some app
      → i.amount_cfa ≤ℤ max_amount_for app.kyc_level
      → IsRaced app_id i p (record w { tick = w.tick + 1 + 1 })
      → IsOrphaned w (pay e h app_id r w).1
  pay-IsOrphaned app_id r app i p reason w decoded given fails runs found within raced =
      let orphan = pay_allowed-IsOrphaned app_id i p (record w { tick = w.tick + 1 + 1 }) raced in
      rw (pay_unread app_id r app i reason w decoded given fails runs found within) (record {
        request = orphan.request;
        deposit = orphan.deposit;
        sent = orphan.sent;
        payload = orphan.payload;
        rows = orphan.rows;
        no_row = orphan.no_row;
      })
