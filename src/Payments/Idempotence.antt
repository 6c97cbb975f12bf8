-- ===== src/Payments/Idempotence.antt =====
-- A second `Pay` under an app_ref that is in use makes no second payment.
use abmcy_core_payment.Base.{
  map-update, String, Bool, true, false, ◌&&◌, Option, some, List, ◌≡◌, refl, arith, ◌==◌, map,
  find, deref,
}
use abmcy_core_payment.Int64.{ℤ}
use abmcy_core_payment.Model.{Payment, CreatePaymentInput, type_deposit}
use abmcy_core_payment.World.{
  World, Env, fine, Result, ok, err, Transaction, DepositRequest, pure, advance, statement,
}
use abmcy_core_payment.World.Preserves.{
  Preserves, IsTimeless, Preserves-pure, Preserves-bind, Preserves-statement,
}
use abmcy_core_payment.Http.{Request, Response, Body, payment_with_hosted, send}
use abmcy_core_payment.Gateway.{create_deposit, do_signed}
use abmcy_core_payment.Repo.Payments.{
  find_payment_by_app_ref, find_payment_by_app_ref_type, update_diarra_ref_and_redirect, set_where,
}
use abmcy_core_payment.Uuid.{abmcy_uuid}
use abmcy_core_payment.Payments.Handler.{PaymentHandler}
use abmcy_core_payment.Payments.Pay.{
  is_missing, is_open, link_likely_expired, store_link, refresh_deposit_link, relinked,
  refreshed_or, pay_existing, deposit_request, deposit_country, pay_looked_up, pay_input, pay,
}

-- What a row says of its payment, without the link to pay at.
pub record Entry : Type 0 where
  pub id : String
  pub app_id : String
  pub app_ref : String
  pub kind : String
  pub status : String
  pub amount_cfa : ℤ
  pub fee_cfa : ℤ
  pub net_cfa : Option ℤ

abbrev pub entry : Payment → Entry
entry p = record {
  id = p.id;
  app_id = p.app_id;
  app_ref = p.app_ref;
  kind = p.kind;
  status = p.status;
  amount_cfa = p.amount_cfa;
  fee_cfa = p.fee_cfa;
  net_cfa = p.net_cfa;
}

-- The payments of the world, as entries.
abbrev pub entries : World → List Entry
entries w = map entry w.payments

entries-IsTimeless : IsTimeless entries
entries-IsTimeless = record { same = λ w t. refl }

-- The answer shows a payment with this entry.
abbrev pub Shows : Entry → Body → Type 0
Shows x (payment_with_hosted q url) = entry q ≡ x
Shows x b = ⊥

module _ (e : Env) (h : PaymentHandler) where
  update_link-Preserves :
      (id ref url : String) → Preserves entries (update_diarra_ref_and_redirect e id ref url)
  unfolding update_diarra_ref_and_redirect set_where
  update_link-Preserves id ref url = Preserves-statement entries-IsTimeless e _ λ v. record {
    same = λ w.
        let u =
          map-update entry (λ p. p.id == id)
            (λ p. record p {
              diarra_client_ref = ref;
              redirect_url = some url;
              updated_at = e.now v.tick;
            })
            (λ p. refl) w.payments in
        ground arith;
  }

  abmcy_uuid-Preserves : Preserves entries (abmcy_uuid e)
  unfolding abmcy_uuid
  abmcy_uuid-Preserves = record { same = λ w. refl }

  create_deposit-Preserves : (d : DepositRequest) → Preserves entries (create_deposit e h.diarra d)
  unfolding create_deposit do_signed send
  create_deposit-Preserves d = record { same = λ w. ground arith }

  store_link-Preserves :
      (p : Payment) (ref : String) (r : Result Transaction)
      → Preserves entries (store_link e h p ref r)
  store_link-Preserves p ref (err x) = Preserves-pure (err x)
  store_link-Preserves p ref (ok tx) =
      Preserves-bind (update_diarra_ref_and_redirect e p.id ref tx.redirect_url)
        (λ r. pure (relinked e h p ref tx.redirect_url r))
        (update_link-Preserves p.id ref tx.redirect_url)
        (λ r. Preserves-pure (relinked e h p ref tx.redirect_url r))

  refresh-Preserves :
      (p : Payment) (country : String) → Preserves entries (refresh_deposit_link e h p country)
  unfolding refresh_deposit_link
  refresh-Preserves p country = Preserves-bind (abmcy_uuid e) _ abmcy_uuid-Preserves λ ref.
      Preserves-bind
        (create_deposit e h.diarra
          (deposit_request e h ref p.amount_cfa (deposit_country p country) (deref p.description)))
        (store_link e h p ref) (create_deposit-Preserves _) (store_link-Preserves p ref)

  relinked-entry :
      (p : Payment) (ref url : String) (r : Result (Unit {0}))
      → entry (refreshed_or e h p (relinked e h p ref url r)) ≡ entry p
  relinked-entry p ref url (ok u) = refl
  relinked-entry p ref url (err x) = refl

  store_link-entry :
      (p : Payment) (ref : String) (r : Result Transaction) (w : World)
      → entry (refreshed_or e h p (store_link e h p ref r w).0) ≡ entry p
  store_link-entry p ref (err x) w = refl
  store_link-entry p ref (ok tx) w = relinked-entry p ref tx.redirect_url _

  -- The payment that is answered, with a new link or not.
  refresh-entry :
      (p : Payment) (country : String) (w : World)
      → entry (refreshed_or e h p (refresh_deposit_link e h p country w).0) ≡ entry p
  unfolding refresh_deposit_link
  refresh-entry p country w = store_link-entry p _ _ _

  -- What stays, and what is answered, when a payment that is there is asked for again.
  pub record IsSame (x : Entry) (w : World) (a : Response × World) : Type 0 where
    pub kept : entries a.1 ≡ entries w
    pub status : a.0.status ≡ 200
    pub shows : Shows x a.0.body

  pay_existing-IsSame :
      (p : Payment) (country : String) (w : World)
      → IsSame (entry p) w (pay_existing e h p country w)
  unfolding pay_existing
  pay_existing-IsSame p country w = by_test (is_open p && link_likely_expired (e.now w.tick) p) refl
    where
      by_test :
          (b : Bool)
          → (is_open p && link_likely_expired (e.now w.tick) p) ≡ b
          → IsSame (entry p) w (pay_existing e h p country w)
      by_test true q = rw q (record {
        kept = (refresh-Preserves p country).same w;
        status = refl;
        shows = refresh-entry p country w;
      })
      by_test false q = rw q (record { kept = refl; status = refl; shows = refl })

  -- `Pay` under an app_ref that the app has used for a deposit: where the row can be read, no row is
  -- added or removed, no row's status, amount, commission or net changes, and the answer is 200 with
  -- the payment that is there.
  pub pay-IsSame :
      (app_id : String) (r : Request) (i : CreatePaymentInput) (p : Payment) (w : World)
      → e.decode_payment (deref r.body) ≡ some i
      → is_missing i ≡ false
      → e.fault w.tick ≡ fine
      → find
          (λ (q : Payment).
            q.app_id == app_id && (q.app_ref == i.app_ref && q.kind == type_deposit))
          w.payments
        ≡ some p
      → IsSame (entry p) w (pay e h app_id r w)
  unfolding pay pay_input pay_looked_up find_payment_by_app_ref find_payment_by_app_ref_type
      statement
  pay-IsSame app_id r i p w decoded given runs found =
      let s = pay_existing-IsSame p i.country (advance w) in
      rw (decoded, given, runs, found)
        (record { kept = s.kept; status = s.status; shows = s.shows })
